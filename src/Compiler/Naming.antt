-- ===== src/Compiler/Naming.antt =====
-- compiler/compiler.py, `_node_id`: the name under which a stage is registered.
use Prim.Native.String.{◌++◌ as str_append}
use text.Mathlib.TextLemmas.{append_cancel_left}
use fluxio.Prelude.{
  ℕ, zero, suc, ◌+◌, ◌≤◌, ◌<◌, String, List, [], ◌∷◌, Option, none, some, Bool, true, false, ◌&&◌,
  not, ◌≡◌, refl, ◌⊎◌, inl, inr, ◌==◌, eq_iff, eqb, eqb→eq, if◌then◌else◌, contains, length, arith,
  Bool-cases, Option-cases,
}
use fluxio.Prelude.Dict.{Dict, lookup, member, keys}
use fluxio.Prelude.Decimal.{decimal, decimal_inj}
use fluxio.Stage.{Stage}

-- f"{name}#{n}"
unfoldable pub suffixed : String → ℕ → String
unfolding decimal
suffixed name n = str_append name (str_append "#" (decimal n))

module _ {F S : Type 0} where
  -- getattr(fn, "__name__", None) or repr(fn)
  unfoldable pub name_of : Stage F S → String
  name_of fn = elim fn.func_name [
    | none ↦ fn.repr
    | some name ↦ if name == "" then fn.repr else name
  ]

  -- `n` counts up while the name is taken. One round for each entry of the table is enough.
  unfoldable pub free_suffix : ℕ → ℕ → String → Dict (Stage F S) → ℕ
  unfolding suffixed member
  free_suffix zero n name table = n
  free_suffix (suc fuel) n name table =
      let later = free_suffix fuel (suc n) name table in
      if member (suffixed name n) table then later else n

  -- `qualname and qualname != name and qualname not in symbol_table`
  unfoldable pub qualname_serves : String → String → Dict (Stage F S) → Bool
  unfolding member
  qualname_serves qualname name table =
      not (qualname == "") && (not (qualname == name) && not (member qualname table))

  unfoldable pub on_collision : Option String → String → Dict (Stage F S) → String
  unfolding free_suffix qualname_serves
  on_collision none name table = suffixed name (free_suffix (length table) 2 name table)
  on_collision (some qualname) name table =
      if qualname_serves qualname name table
      then qualname
      else suffixed name (free_suffix (length table) 2 name table)

  unfoldable pub node_id : Stage F S → Dict (Stage F S) → String
  unfolding name_of on_collision lookup
  node_id fn table = elim (lookup (name_of fn) table) [
    | none ↦ name_of fn
    | some other ↦
        if eqb other.ident fn.ident then name_of fn else on_collision fn.qualname (name_of fn) table
  ]

suffixed_inj : (name : String) (n m : ℕ) → suffixed name n ≡ suffixed name m → n ≡ m
unfolding suffixed
suffixed_inj name n m e =
    decimal_inj n m (append_cancel_left "#" _ _ (append_cancel_left name _ _ e))

-- The list without one key.
without : String → List String → List String
without k [] = []
without k (j ∷ js) = let rest = without k js in if j == k then rest else j ∷ rest

length-without : (k : String) (js : List String) → length (without k js) ≤ length js
unfolding without
length-without k [] = omega arith
length-without k (j ∷ js) = ground (arith, length-without k js)

length-without_mem :
    (k : String) (js : List String) → contains k js ≡ true → length (without k js) < length js
unfolding without contains
length-without_mem k [] h = cc
length-without_mem k (j ∷ js) h = ground (arith, length-without_mem k js, length-without k js)

contains-without :
    (k i : String) (js : List String)
    → contains i (without k js) ≡ (if k == i then false else contains i js)
unfolding without contains
contains-without k i [] = ground arith
contains-without k i (j ∷ js) =
    ground (arith, contains-without k i js, eq_iff j k, eq_iff j i, eq_iff k i)

-- `fuel` consecutive suffixed names, all in a list, take up `fuel` of its elements.
pigeonhole :
    (name : String) (fuel n : ℕ) (js : List String)
    → ((i : ℕ) → n ≤ i → i < n + fuel → contains (suffixed name i) js ≡ true)
    → fuel ≤ length js
pigeonhole name zero n js h = omega arith
pigeonhole name (suc fuel) n js h =
    let here = h n (omega arith) (omega arith) in
    let rest = pigeonhole name fuel (suc n) (without (suffixed name n) js) λ i lo hi.
      rw contains-without (elim (Bool-cases (suffixed name n == suffixed name i)) [
        | inl same ↦ absurd (omega (arith, suffixed_inj name n i ((eq_iff _ _).0 same)))
        | inr other ↦ rw other (h i (omega arith) (omega arith))
      ]) in
    omega (arith, rest, length-without_mem (suffixed name n) js here)

module _ {F S : Type 0} where
  contains-keys : (k : String) (d : Dict (Stage F S)) → contains k (keys d) ≡ member k d
  unfolding contains keys member lookup
  contains-keys k [] = refl
  contains-keys k ((j, v) ∷ d) = ground (arith, contains-keys k d)

  length-keys : (d : Dict (Stage F S)) → length (keys d) ≡ length d
  unfolding keys
  length-keys [] = refl
  length-keys (e ∷ d) = omega (arith, length-keys d)

  free_suffix_cases :
      (fuel n : ℕ) (name : String) (table : Dict (Stage F S))
      → (member (suffixed name (free_suffix fuel n name table)) table ≡ false)
        ⊎ ((i : ℕ) → n ≤ i → i < n + fuel → member (suffixed name i) table ≡ true)
          × (free_suffix fuel n name table ≡ n + fuel)
  unfolding free_suffix
  free_suffix_cases zero n name table = inr ((λ i lo hi. absurd (omega arith)), omega arith)
  free_suffix_cases (suc fuel) n name table = elim (Bool-cases (member (suffixed name n) table)) [
    | inr free ↦ inl (rw (free, free_suffix) free)
    | inl taken ↦ elim (free_suffix_cases fuel (suc n) name table) [
      | inl found ↦ inl (rw (taken, free_suffix) found)
      | inr (all, end) ↦ inr (
        (λ i lo hi. elim (Bool-cases (eqb n i)) [
          | inl here ↦ rw (eqb→eq n i here) at taken
          | inr later ↦ all i (ground arith) (omega arith)
        ]),
        rw (taken, free_suffix) (omega (arith, end)),
      )
    ]
  ]

  -- The name that the loop settles on is not taken.
  pub suffixed-free :
      (name : String) (table : Dict (Stage F S))
      → member (suffixed name (free_suffix (length table) 2 name table)) table ≡ false
  suffixed-free name table =
      elim (Bool-cases (member (suffixed name (free_suffix (length table) 2 name table)) table)) [
        | inr free ↦ free
        | inl taken ↦ elim (free_suffix_cases (length table) 2 name table) [
          | inl free ↦ free
          | inr (all, end) ↦ absurd (
              omega (
                arith,
                length-keys table,
                pigeonhole name (suc (length table)) 2 (keys table) λ i lo hi.
                    rw contains-keys (elim (Bool-cases (eqb i (2 + length table))) [
                      | inl last ↦ rw (eqb→eq _ _ last, ← end) taken
                      | inr before ↦ all i lo (ground arith)
                    ]),
              ))
        ]
      ]

  abbrev pub FreeOrSame : String → Stage F S → Dict (Stage F S) → Type 0
  FreeOrSame id fn table =
      (lookup id table ≡ none)
      ⊎ ((other : Stage F S) × (lookup id table ≡ some other) × (other.ident ≡ fn.ident))

  on_collision-free :
      (qualname : Option String) (name : String) (table : Dict (Stage F S))
      → member (on_collision qualname name table) table ≡ false
  unfolding on_collision qualname_serves
  on_collision-free none name table = suffixed-free name table
  on_collision-free (some q) name table = ground (arith, suffixed-free name table)

  -- A stage is registered under a name that is free, or that already stands for the same object:
  -- no entry of another stage is ever overwritten.
  pub node_id-FreeOrSame :
      (fn : Stage F S) (table : Dict (Stage F S)) → FreeOrSame (node_id fn table) fn table
  unfolding node_id member
  node_id-FreeOrSame fn table = elim (Option-cases (lookup (name_of fn) table)) [
    | inl free ↦ inl (rw (free, node_id) free)
    | inr (other, taken) ↦ elim (Bool-cases (eqb other.ident fn.ident)) [
      | inl same ↦ inr (other, rw (taken, node_id, same) taken, eqb→eq _ _ same)
      | inr clash ↦
          inl (ground (arith, taken, clash, on_collision-free fn.qualname (name_of fn) table))
    ]
  ]
