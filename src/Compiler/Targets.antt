-- ===== src/Compiler/Targets.antt =====
-- What the compiler's code relies on at run time: jumps and routes lead forward and not past the
-- end, and the stages that are called stand in the symbol table.
use fluxio.Prelude.{
  ℕ, suc, ◌≤◌, ◌<◌, String, List, [], ◌∷◌, some, Bool, true, false, ◌||◌, ◌≡◌, ◌⊎◌, inl, inr, ◌==◌,
  eq_iff, eqb, All, All-weaken, length, get_elem?, length-append, get_elem?-snoc, arith,
}
use fluxio.Prelude.Dict.{Dict, insert, member, lookup-insert}
use fluxio.Prelude.Int.{pos}
use fluxio.Errors.{ok}
use fluxio.Stage.{Stage}
use fluxio.Bytecode.{OpCode, call, fork, route, jump, validate_input, validate_output, Instruction}
use fluxio.Compiler.Build.{Build, append, append_if, register}

module _ {F S : Type 0} where
  -- What an instruction at index `i` relies on, in code of length `n` over the table.
  abbrev pub Relies : OpCode → ℕ → Dict (Stage F S) → ℕ → Instruction → Type 0
  Relies call n table i x = (id : String) × (x.node_id ≡ some id) × (member id table ≡ true)
  Relies fork n table i x =
      (ids : List String) × (x.branch_ids ≡ some ids) × All (λ id. member id table ≡ true) ids
  Relies jump n table i x = (t : ℕ) × (x.target_ip ≡ some (pos t)) × (i < t) × (t ≤ n)
  Relies route n table i x =
      (m : Dict ℕ) × (x.route_map ≡ some m) × All (λ (e : String × ℕ). (i < e.1) × (e.1 ≤ n)) m
  Relies validate_input n table i x = (id : String) × (x.node_id ≡ some id)
  Relies validate_output n table i x = (id : String) × (x.node_id ≡ some id)
  Relies _ n table i x = Unit

  abbrev pub IsSound : ℕ → Dict (Stage F S) → ℕ → Instruction → Type 0
  IsSound n table i x = Relies x.op n table i x

  abbrev pub Extends : Dict (Stage F S) → Dict (Stage F S) → Type 0
  Extends table table' = (k : String) → member k table ≡ true → member k table' ≡ true

-- Indices that are still to be patched.
abbrev pub holds : ℕ → List ℕ → Bool
holds i [] = false
holds i (j ∷ js) = eqb i j || holds i js

module _ {F S : Type 0} where
  pub Relies-mono :
      (op : OpCode) (n n' : ℕ) (table table' : Dict (Stage F S)) (i : ℕ) (x : Instruction)
      → n ≤ n'
      → Extends table table'
      → Relies op n table i x
      → Relies op n' table' i x
  Relies-mono call n n' table table' i x le ext (id, e, m) = (id, e, ext id m)
  Relies-mono fork n n' table table' i x le ext (ids, e, m) = (ids, e, All-weaken ids ext m)
  Relies-mono jump n n' table table' i x le ext (t, e, lo, hi) = (t, e, lo, omega arith)
  Relies-mono route n n' table table' i x le ext (m, e, h) =
      (m, e, All-weaken m (λ e' h'. (h'.0, omega (arith, h'.1))) h)
  Relies-mono validate_input n n' table table' i x le ext h = h
  Relies-mono validate_output n n' table table' i x le ext h = h
  Relies-mono _ n n' table table' i x le ext h = tt

  pub record CodeOk (holes : List ℕ) (b : Build F S) : Type 0 where
    pub code :
        (i : ℕ) (x : Instruction)
        → get_elem? b.instructions i ≡ some x
        → IsSound (length b.instructions) b.symbol_table i x ⊎ (holds i holes ≡ true)

  -- What every part of the compiler that leaves no hole does.
  pub record Grows (b b' : Build F S) : Type 0 where
    pub extends : Extends b.symbol_table b'.symbol_table
    pub longer : length b.instructions ≤ length b'.instructions
    pub keeps : (holes : List ℕ) → CodeOk holes b → CodeOk holes b'

  pub Grows-refl : (b : Build F S) → Grows b b
  Grows-refl b = record { extends = λ k m. m; longer = omega arith; keeps = λ holes h. h }

  pub Grows-trans : {b b' b'' : Build F S} → Grows b b' → Grows b' b'' → Grows b b''
  Grows-trans g h = record {
    extends = λ k m. h.extends k (g.extends k m);
    longer = omega (arith, g.longer, h.longer);
    keeps = λ holes c. h.keeps holes (g.keeps holes c);
  }

  -- One more instruction: it is sound where it stands, or its index is a hole from now on.
  pub append-CodeOk :
      (x : Instruction) (b : Build F S) (holes holes' : List ℕ)
      → ((i : ℕ) → holds i holes ≡ true → holds i holes' ≡ true)
      → IsSound (suc (length b.instructions)) b.symbol_table (length b.instructions) x
        ⊎ (holds (length b.instructions) holes' ≡ true)
      → CodeOk holes b
      → CodeOk holes' (append x b)
  unfolding append
  append-CodeOk x b holes holes' wider good h = record {
    code = λ i y e. elim (get_elem?-snoc b.instructions x i e) [
      | inl old ↦ elim (h.code i y old) [
        | inl sound ↦ inl (
            Relies-mono y.op (length b.instructions) _ b.symbol_table b.symbol_table i y
              (rw length-append (omega arith)) (λ k m. m) sound)
        | inr hole ↦ inr (wider i hole)
      ]
      | inr (here, same) ↦ elim good [
        | inl sound ↦ inl (
            rw (same, here)
              (Relies-mono x.op (suc (length b.instructions)) _ b.symbol_table b.symbol_table
                (length b.instructions) x (rw length-append (omega arith)) (λ k m. m) sound))
        | inr hole ↦ inr (rw here hole)
      ]
    ];
  }

  pub append-Grows :
      (x : Instruction) (b : Build F S)
      → IsSound (suc (length b.instructions)) b.symbol_table (length b.instructions) x
      → Grows b (append x b)
  unfolding append
  append-Grows x b good = record {
    extends = λ k m. m;
    longer = rw length-append (omega arith);
    keeps = λ holes h. append-CodeOk x b holes holes (λ i m. m) (inl good) h;
  }

  pub append_if-Grows :
      (t : Bool) (x : Instruction) (b : Build F S)
      → IsSound (suc (length b.instructions)) b.symbol_table (length b.instructions) x
      → Grows b (append_if t x b)
  unfolding append_if
  append_if-Grows true x b good = append-Grows x b good
  append_if-Grows false x b good = Grows-refl b

  member-insert :
      (k j : String) (fn : Stage F S) (table : Dict (Stage F S))
      → member j (insert k fn table) ≡ (k == j || member j table)
  unfolding member
  member-insert k j fn table = ground (arith, lookup-insert k j fn table)

  -- Registering a stage changes no instruction, and puts its name into the table.
  pub register-Grows :
      (id : String) (fn : Stage F S) (b b' : Build F S)
      → register id fn b ≡ ok b'
      → Grows b b' × (member id b'.symbol_table ≡ true)
  unfolding register
  register-Grows id fn b b' h =
      let same : b'.instructions ≡ b.instructions = ground arith in
      let table : b'.symbol_table ≡ insert id fn b.symbol_table = ground arith in
      let wider : Extends b.symbol_table b'.symbol_table =
        λ k m. rw (table, member-insert) (ground (arith, m)) in
      (
        record {
          extends = wider;
          longer = rw same (omega arith);
          keeps = λ holes c. record {
            code = λ i x e. elim (c.code i x (rw same at e)) [
              | inl sound ↦ inl (
                  Relies-mono x.op (length b.instructions) _ b.symbol_table b'.symbol_table i x
                    (rw same (omega arith)) wider sound)
              | inr hole ↦ inr hole
            ];
          };
        },
        rw (table, member-insert) (ground (arith, eq_iff id id)),
      )
