-- ===== src/Compiler/Declared.antt =====
-- When `_auto_parallelize` raises: `None & frozenset` on a stage that declares only one of its sets.
use fluxio.Prelude.{
  ℕ, zero, suc, ◌-◌, List, [], ◌∷◌, ◌++◌, Option, none, some, Bool, true, false, ◌||◌, ◌&&◌, ◌≡◌,
  refl, All, All-snoc, arith, length, String,
}
use fluxio.Errors.{is_ok, ok_of_is_ok}
use fluxio.Stage.{Stage}
use fluxio.Compiler.Grouping.{
  Node, stage_node, parallel_node, dict_node, overlaps, collides, undeclared, independent_of_all,
  independent, grow_group, auto_parallelize_from, auto_parallelize,
}

abbrev given : Option (List String) → Bool
given none = false
given (some _) = true

module _ {F S : Type 0} where
  -- A stage that declares nothing (or only empty sets), or gives both sets.
  abbrev pub settled : Stage F S → Bool
  settled s = undeclared s || (given s.reads && given s.writes)

  collides_total :
      (e c : Stage F S)
      → given e.reads && given e.writes ≡ true
      → given c.reads && given c.writes ≡ true
      → is_ok (collides e c) ≡ true
  unfolding collides overlaps
  collides_total e c he hc = ground arith

  independent_of_all_total :
      (group : List (Stage F S)) (c : Stage F S)
      → All (λ e. settled e ≡ true) group
      → given c.reads && given c.writes ≡ true
      → is_ok (independent_of_all group c) ≡ true
  unfolding independent_of_all
  independent_of_all_total [] c h hc = refl
  independent_of_all_total (e ∷ group) c h hc =
      ground (arith, collides_total e c, independent_of_all_total group c h.1 hc)

  independent_total :
      (group : List (Stage F S)) (c : Stage F S)
      → All (λ e. settled e ≡ true) group
      → settled c ≡ true
      → is_ok (independent group c) ≡ true
  unfolding independent
  independent_total group c h hc = ground (arith, independent_of_all_total group c h)

module _ {F S R : Type 0} where
  abbrev pub IsSettled : Node F S R → Type 0
  IsSettled (stage_node s) = settled s ≡ true
  IsSettled (parallel_node p) = Unit
  IsSettled (dict_node r) = Unit

  grow_group_total :
      (group : List (Stage F S)) (nodes : List (Node F S R))
      → All (λ e. settled e ≡ true) group
      → All IsSettled nodes
      → is_ok (grow_group group nodes) ≡ true
  unfolding grow_group
  grow_group_total group [] h hn = refl
  grow_group_total group (parallel_node p ∷ nodes) h hn = refl
  grow_group_total group (dict_node r ∷ nodes) h hn = refl
  grow_group_total group (stage_node c ∷ nodes) h hn =
      let (b, e) = ok_of_is_ok (independent group c) (independent_total group c h hn.0) in
      rw (e, grow_group)
        (ground (
          arith,
          grow_group_total (group ++ c ∷ []) nodes (All-snoc (λ e. settled e ≡ true) group c h hn.0)
              hn.1,
        ))

  auto_parallelize_from_total :
      (skip : ℕ) (nodes : List (Node F S R))
      → All IsSettled nodes
      → is_ok (auto_parallelize_from skip nodes) ≡ true
  unfolding auto_parallelize_from
  auto_parallelize_from_total zero [] h = refl
  auto_parallelize_from_total (suc skip) [] h = refl
  auto_parallelize_from_total (suc skip) (n ∷ rest) h = auto_parallelize_from_total skip rest h.1
  auto_parallelize_from_total zero (parallel_node p ∷ rest) h =
      ground (arith, auto_parallelize_from_total zero rest h.1)
  auto_parallelize_from_total zero (dict_node r ∷ rest) h =
      ground (arith, auto_parallelize_from_total zero rest h.1)
  auto_parallelize_from_total zero (stage_node s ∷ rest) h =
      let (group, e) =
        ok_of_is_ok (grow_group (s ∷ []) rest) (grow_group_total (s ∷ []) rest (h.0, tt) h.1) in
      ground (
        arith,
        e,
        auto_parallelize_from_total zero rest h.1,
        auto_parallelize_from_total (length group - 1) rest h.1,
      )

  -- If each stage declares nothing, or gives both of its sets, `_auto_parallelize` does not raise.
  pub auto_parallelize_total :
      (nodes : List (Node F S R)) → All IsSettled nodes → is_ok (auto_parallelize nodes) ≡ true
  unfolding auto_parallelize
  auto_parallelize_total nodes h = auto_parallelize_from_total zero nodes h
