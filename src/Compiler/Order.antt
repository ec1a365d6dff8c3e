-- ===== src/Compiler/Order.antt =====
-- What `_auto_parallelize` does to a list of nodes, as a relation that does not mention its loops.
use fluxio.Prelude.{
  ℕ, zero, suc, ◌-◌, String, List, [], ◌∷◌, ◌++◌, map, ◌≤◌, ◌⊎◌, eq_iff, Option, none, some, Bool,
  true, false, ◌≡◌, refl, sym, ap, subst, length, drop, contains, intersection,
  contains-intersection, All, All-snoc, arith, Bool-cases, if◌then◌else◌, inl, inr,
}
use mathlib.Core.List.{append-nil, append_assoc}
use fluxio.Errors.{Result, ok, >>=-eq-ok}
use fluxio.Stage.{Stage, parallel_mode}
use fluxio.Compiler.Grouping.{
  Node, stage_node, parallel_node, dict_node, truthy, overlaps, collides, independent_of_all,
  undeclared, independent, starts_with_dict, grow_group, group_node, auto_parallelize_from,
  auto_parallelize,
}

-- `k` is in a declared set.
abbrev pub declares : Option (List String) → String → Bool
declares none k = false
declares (some xs) k = contains k xs

truthy-declares :
    (o : Option (List String)) → truthy o ≡ true → (k : String) × (declares o k ≡ true)
unfolding truthy contains
truthy-declares none h = cc
truthy-declares (some []) h = cc
truthy-declares (some (x ∷ xs)) h = (x, ground (arith, eq_iff x x))

module _ {F S : Type 0} where
  -- A stage that declares at least one key.
  abbrev pub Declares : Stage F S → Type 0
  Declares s =
      ((k : String) × (declares s.reads k ≡ true)) ⊎ ((k : String) × (declares s.writes k ≡ true))

  -- Two stages that may run side by side: both declare something, and neither writes what the other
  -- declares to read or write.
  pub record IndependentPair (a b : Stage F S) : Type 0 where
    pub first_declares : Declares a
    pub second_declares : Declares b
    pub write_read : (k : String) → declares a.writes k ≡ true → declares b.reads k ≡ false
    pub read_write : (k : String) → declares b.writes k ≡ true → declares a.reads k ≡ false
    pub write_write : (k : String) → declares a.writes k ≡ true → declares b.writes k ≡ false

  abbrev pub Independent : List (Stage F S) → Type 0
  Independent [] = Unit
  Independent (a ∷ group) = All (IndependentPair a) group × Independent group

truthy-false : (xs : List String) (k : String) → truthy (some xs) ≡ false → contains k xs ≡ false
unfolding truthy contains
truthy-false [] k h = refl
truthy-false (x ∷ xs) k h = cc

overlaps-false :
    (a b : Option (List String)) (k : String)
    → overlaps a b ≡ ok false
    → declares a k ≡ true
    → declares b k ≡ false
unfolding overlaps
overlaps-false none b k h m = cc
overlaps-false (some xs) none k h m = cc
overlaps-false (some xs) (some ys) k h m =
    ground (arith, truthy-false (intersection xs ys) k, contains-intersection k xs ys)

module _ {F S : Type 0} where
  declared-Declares : (s : Stage F S) → undeclared s ≡ false → Declares s
  unfolding undeclared
  declared-Declares s h = elim (Bool-cases (truthy s.reads)) [
    | inl reads ↦ inl (truthy-declares s.reads reads)
    | inr none_read ↦ inr (truthy-declares s.writes (ground (arith, none_read)))
  ]

  collides-IndependentPair :
      (e c : Stage F S)
      → undeclared e ≡ false
      → undeclared c ≡ false
      → collides e c ≡ ok false
      → IndependentPair e c
  unfolding collides
  collides-IndependentPair e c d d' h = record {
    first_declares = declared-Declares e d;
    second_declares = declared-Declares c d';
    write_read = λ k m. overlaps-false e.writes c.reads k (ground arith) m;
    read_write = λ k m. overlaps-false c.writes e.reads k (ground arith) m;
    write_write = λ k m. overlaps-false e.writes c.writes k (ground arith) m;
  }

  independent_of_all-All :
      (group : List (Stage F S)) (c : Stage F S)
      → undeclared c ≡ false
      → independent_of_all group c ≡ ok true
      → All (λ e. IndependentPair e c) group
  unfolding independent_of_all
  independent_of_all-All [] c d h = tt
  independent_of_all-All (e ∷ group) c d h = (
    collides-IndependentPair e c (ground arith) d (ground arith),
    independent_of_all-All group c d (ground arith),
  )

  independent-All :
      (group : List (Stage F S)) (c : Stage F S)
      → independent group c ≡ ok true
      → All (λ e. IndependentPair e c) group
  unfolding independent
  independent-All group c h = independent_of_all-All group c (ground arith) (ground arith)

  Independent-snoc :
      (group : List (Stage F S)) (c : Stage F S)
      → Independent group
      → All (λ e. IndependentPair e c) group
      → Independent (group ++ c ∷ [])
  Independent-snoc [] c h new = (tt, tt)
  Independent-snoc (a ∷ group) c h new =
      (All-snoc (IndependentPair a) group c h.0 new.0, Independent-snoc group c h.1 new.1)

module _ {F S R : Type 0} where
  -- `out` is `nodes` with runs of two or more pairwise independent stages folded into blocks: nothing is
  -- reordered, dropped or added, and a stage right before a routing dict stays next to it.
  pub data Folds : List (Node F S R) → List (Node F S R) → Type 0 where
    done : Folds [] []
    keep :
        {rest out : List (Node F S R)} (n : Node F S R)
        → Folds rest out
        → Folds (n ∷ rest) (n ∷ out)
    fold :
        {nodes rest out : List (Node F S R)} (group : List (Stage F S))
        → nodes ≡ map stage_node group ++ rest
        → 2 ≤ length group
        → Independent group
        → starts_with_dict rest ≡ false
        → Folds rest out
        → Folds nodes (
            parallel_node (record { branches = group; mode = parallel_mode; block_name = none })
            ∷ out)

  -- The stages that `grow_group` adds are the first nodes, and what follows them is no dict.
  record Grown (group : List (Stage F S)) (nodes : List (Node F S R)) (grown : List (Stage F S))
      : Type 0 where
    more : List (Stage F S)
    rest : List (Node F S R)
    split : nodes ≡ map stage_node more ++ rest
    joined : grown ≡ group ++ more
    free : Independent grown
    no_dict : starts_with_dict rest ≡ false

  Grown-stop :
      (group grown : List (Stage F S)) (nodes : List (Node F S R))
      → Independent group
      → starts_with_dict nodes ≡ false
      → Result.ok group ≡ ok grown
      → Grown group nodes grown
  Grown-stop group grown nodes free d e =
      let same : group ≡ grown = ground arith in
      record {
        more = [];
        rest = nodes;
        split = refl;
        joined = rw append-nil (sym same);
        free = rw same at free;
        no_dict = d;
      }

  Grown-more :
      (group grown : List (Stage F S)) (c : Stage F S) (nodes : List (Node F S R))
      → Grown (group ++ c ∷ []) nodes grown
      → Grown group (stage_node c ∷ nodes) grown
  Grown-more group grown c nodes g = record {
    more = c ∷ g.more;
    rest = g.rest;
    split = ap (◌∷◌ (stage_node c)) g.split;
    joined = rw g.joined (append_assoc group (c ∷ []) g.more);
    free = g.free;
    no_dict = g.no_dict;
  }

  -- One round of the inner loop, given what the later rounds do.
  Grown-step :
      (group grown : List (Stage F S)) (c : Stage F S) (nodes : List (Node F S R)) (b : Bool)
      → Independent group
      → independent group c ≡ ok b
      → (if b then grow_group (group ++ c ∷ []) nodes else ok group) ≡ ok grown
      → ((longer : List (Stage F S))
          → Independent longer
          → grow_group longer nodes ≡ ok grown
          → Grown longer nodes grown)
      → Grown group (stage_node c ∷ nodes) grown
  unfolding starts_with_dict
  Grown-step group grown c nodes false free e k later =
      Grown-stop group grown (stage_node c ∷ nodes) free refl k
  Grown-step group grown c nodes true free e k later =
      Grown-more group grown c nodes
        (later (group ++ c ∷ []) (Independent-snoc group c free (independent-All group c e)) k)

  grow_group-Grown :
      (group grown : List (Stage F S)) (nodes : List (Node F S R))
      → Independent group
      → starts_with_dict nodes ≡ false
      → grow_group group nodes ≡ ok grown
      → Grown group nodes grown
  unfolding grow_group
  grow_group-Grown group grown [] free d h = Grown-stop group grown [] free d h
  grow_group-Grown group grown (parallel_node p ∷ nodes) free d h =
      Grown-stop group grown (parallel_node p ∷ nodes) free d h
  grow_group-Grown group grown (dict_node r ∷ nodes) free d h = cc
  grow_group-Grown group grown (stage_node c ∷ nodes) free d h =
      elim (Bool-cases (starts_with_dict nodes)) [
        | inl router ↦
            Grown-stop group grown (stage_node c ∷ nodes) free refl (rw (router, grow_group) at h)
        | inr plain ↦
            let (b, e, k) = >>=-eq-ok (independent group c) _ (rw (plain, grow_group) at h) in
            Grown-step group grown c nodes b free e k
              (λ longer f e'. grow_group-Grown longer grown nodes f plain e')
      ]

  drop-append :
      (xs : List (Stage F S)) (rest : List (Node F S R))
      → drop (length xs) (map stage_node xs ++ rest) ≡ rest
  drop-append [] rest = refl
  drop-append (x ∷ xs) rest = drop-append xs rest

  -- A block for a group of several, the stage itself for a group of one.
  Folds-group :
      (s : Stage F S) (group : List (Stage F S)) (nodes tail : List (Node F S R))
      → Grown (s ∷ []) nodes group
      → Folds (drop (length group - 1) nodes) tail
      → Folds (stage_node s ∷ nodes) (group_node s group ∷ tail)
  unfolding group_node
  Folds-group s group nodes tail g below = rest_of g.more g.split g.joined
    where
      rest_of :
          (more : List (Stage F S))
          → nodes ≡ map stage_node more ++ g.rest
          → group ≡ s ∷ more
          → Folds (stage_node s ∷ nodes) (group_node s group ∷ tail)
      rest_of [] split joined = rw joined (keep (stage_node s) (rw joined at below))
      rest_of (t ∷ more) split joined =
          let skipped : length group - 1 ≡ length (t ∷ more) = rw joined (omega arith) in
          let tail_folds : Folds g.rest tail =
            rw (skipped, split, drop-append (t ∷ more) g.rest) at below in
          rw joined (
            fold (s ∷ t ∷ more) (ap (◌∷◌ (stage_node s)) split) (omega arith) (rw joined at g.free)
              g.no_dict tail_folds)

  Folds-ok :
      {nodes folded out : List (Node F S R)}
      → Folds nodes folded
      → Result.ok folded ≡ ok out
      → Folds nodes out
  Folds-ok {nodes} f e = subst (Folds nodes) (cc) f

  auto_parallelize_from-Folds :
      (skip : ℕ) (nodes out : List (Node F S R))
      → auto_parallelize_from skip nodes ≡ ok out
      → Folds (drop skip nodes) out
  unfolding auto_parallelize_from
  auto_parallelize_from-Folds zero [] out h = Folds-ok done h
  auto_parallelize_from-Folds (suc skip) [] out h = Folds-ok done h
  auto_parallelize_from-Folds (suc skip) (n ∷ rest) out h =
      auto_parallelize_from-Folds skip rest out h
  auto_parallelize_from-Folds zero (parallel_node p ∷ rest) out h =
      let (tail, e, k) = >>=-eq-ok (auto_parallelize_from zero rest) _ h in
      Folds-ok (keep (parallel_node p) (auto_parallelize_from-Folds zero rest tail e)) k
  auto_parallelize_from-Folds zero (dict_node r ∷ rest) out h =
      let (tail, e, k) = >>=-eq-ok (auto_parallelize_from zero rest) _ h in
      Folds-ok (keep (dict_node r) (auto_parallelize_from-Folds zero rest tail e)) k
  auto_parallelize_from-Folds zero (stage_node s ∷ rest) out h =
      elim (Bool-cases (starts_with_dict rest)) [
        | inl router ↦
            let (tail, e, k) =
              >>=-eq-ok (auto_parallelize_from zero rest) _
                (rw (router, auto_parallelize_from) at h) in
            Folds-ok (keep (stage_node s) (auto_parallelize_from-Folds zero rest tail e)) k
        | inr plain ↦
            let (group, e, k) =
              >>=-eq-ok (grow_group (s ∷ []) rest) _ (rw (plain, auto_parallelize_from) at h) in
            let (tail, e', k') = >>=-eq-ok (auto_parallelize_from (length group - 1) rest) _ k in
            Folds-ok
              (Folds-group s group rest tail (grow_group-Grown (s ∷ []) group rest (tt, tt) plain e)
                (auto_parallelize_from-Folds (length group - 1) rest tail e'))
              k'
      ]

  -- Whatever `_auto_parallelize` returns is its input with some runs of two or more stages folded
  -- into blocks: in such a run every stage declares a key to read or write, and no stage writes what
  -- another one declares to read or write. No node is lost, added or moved, the user's blocks and
  -- dicts are kept as they are, and no such block is put in front of a routing dict.
  pub auto_parallelize-Folds :
      (nodes out : List (Node F S R)) → auto_parallelize nodes ≡ ok out → Folds nodes out
  unfolding auto_parallelize
  auto_parallelize-Folds nodes out h = auto_parallelize_from-Folds zero nodes out h
