-- ===== src/Meaning/Pairs.antt =====
-- The dict that `_resolve_route_map` builds from the pairs of a route map finds what the dict of the
-- compiler had.
use fluxio.Prelude.{
  String, [], ◌∷◌, Option, none, some, ◌≡◌, refl, inl, inr, ◌==◌, eq_iff, arith, Bool-cases,
  Option-cases,
}
use fluxio.Prelude.Dict.{Dict, lookup, insert, lookup-insert, lookup-nil}
use fluxio.Runtime.Interpreter.{of_pairs}

module _ {A : Type 0} where
  abbrev pub IsDistinct : Dict A → Type 0
  IsDistinct [] = Unit
  IsDistinct ((k, v) ∷ d) = (lookup k d ≡ none) × IsDistinct d

  pub insert-IsDistinct :
      (k : String) (v : A) (d : Dict A) → IsDistinct d → IsDistinct (insert k v d)
  unfolding insert lookup
  insert-IsDistinct k v [] h = (refl, tt)
  insert-IsDistinct k v ((j, w) ∷ d) h = elim (Bool-cases (j == k)) [
    | inl same ↦ rw (same, insert) (h.0, h.1)
    | inr other ↦
        rw (other, insert)
          (
            ground (arith, lookup-insert k j v d, h.0, eq_iff j k, eq_iff k j),
            insert-IsDistinct k v d h.1,
          )
  ]

  abbrev or_else : Option A → Option A → Option A
  or_else none o = o
  or_else (some v) o = some v

  lookup-of_pairs :
      (name : String) (m d : Dict A)
      → IsDistinct m
      → lookup name (of_pairs m d) ≡ or_else (lookup name m) (lookup name d)
  unfolding of_pairs lookup
  lookup-of_pairs name [] d h = refl
  lookup-of_pairs name ((k, v) ∷ m) d h =
      rw (lookup-of_pairs name m (insert k v d) h.1) (elim (Bool-cases (k == name)) [
        | inl same ↦ rw (lookup-insert, same, ← (eq_iff k name).0 same, h.0) refl
        | inr other ↦ rw (lookup-insert, other) refl
      ])

  pub lookup-of_pairs_nil :
      (name : String) (m : Dict A) → IsDistinct m → lookup name (of_pairs m []) ≡ lookup name m
  lookup-of_pairs_nil name m h = elim (Option-cases (lookup name m)) [
    | inl missing ↦ rw (lookup-of_pairs name m [] h, missing) (lookup-nil name)
    | inr (v, given) ↦ rw (lookup-of_pairs name m [] h, given) refl
  ]
