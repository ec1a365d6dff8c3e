-- ===== src/Pipeline/Diff.antt =====
-- api/pipeline.py, `Pipeline.diff`: comparing the snapshots of two runs.
--
-- `differ` is Python's `!=` on values, `none_value` its `None`, and `before` its order on strings.
use fluxio.Prelude.{
  String, List, [], ◌∷◌, Option, none, some, Bool, false, ◌||◌, ◌≡◌, refl, ap, ◌∙◌, ◌==◌, eq_iff,
  eq_refl, if◌then◌else◌, union, contains, contains-union, inl, inr, Bool-cases, arith,
}
use fluxio.Prelude.Dict.{Dict, lookup, keys}
use fluxio.Errors.{Result, ok, err, runtime_error, no_checkpoint_error}
use fluxio.Runtime.Act.{Act, pure, raise, lift, ◌>>=◌}
use fluxio.Runtime.Types.{Checkpoint, CheckpointStore}

module _ (before : String → String → Bool) where
  insert_sorted : String → List String → List String
  insert_sorted k [] = k ∷ []
  insert_sorted k (j ∷ js) =
      let rest = insert_sorted k js in if before k j then k ∷ j ∷ js else j ∷ rest

  unfoldable pub sorted : List String → List String
  unfolding insert_sorted
  sorted [] = []
  sorted (k ∷ ks) = insert_sorted k (sorted ks)

  contains-insert_sorted :
      (k j : String) (ks : List String)
      → contains j (insert_sorted k ks) ≡ (k == j || contains j ks)
  unfolding insert_sorted contains
  contains-insert_sorted k j [] = refl
  contains-insert_sorted k j (i ∷ ks) = ground (arith, contains-insert_sorted k j ks)

  pub contains-sorted : (k : String) (ks : List String) → contains k (sorted ks) ≡ contains k ks
  unfolding sorted contains
  contains-sorted k [] = refl
  contains-sorted k (j ∷ ks) =
      contains-insert_sorted j k (sorted ks) ∙ ap (λ b. j == k || b) (contains-sorted k ks)

module _ {V : Type 0} where
  -- Which run has no checkpoint, or both checkpoints.
  unfoldable pub both :
      String
      → String
      → Option (Checkpoint V)
      → Option (Checkpoint V)
      → Result (Checkpoint V × Checkpoint V)
  both run_id_a run_id_b none b = err (no_checkpoint_error run_id_a)
  both run_id_a run_id_b (some a) none = err (no_checkpoint_error run_id_b)
  both run_id_a run_id_b (some a) (some b) = ok (a, b)

module _ {V : Type 0} (differ : V → V → Bool) (none_value : V)
    (before : String → String → Bool) where
  -- `snap.get(k)`
  unfoldable pub or_none : Option V → V
  or_none none = none_value
  or_none (some v) = v

  -- The loop over the keys.
  unfoldable pub differing : Dict V → Dict V → List String → Dict (V × V)
  unfolding or_none
  differing a b [] = []
  differing a b (k ∷ ks) =
      let rest = differing a b ks in
      let va = or_none (lookup k a) in
      let vb = or_none (lookup k b) in if differ va vb then (k, (va, vb)) ∷ rest else rest

  unfoldable pub diff_snapshots : Dict V → Dict V → Dict (V × V)
  unfolding differing sorted union keys
  diff_snapshots a b = differing a b (sorted before (union (keys a) (keys b)))

  abbrev pub change : Dict V → Dict V → String → Option (V × V)
  change a b k =
      if differ (or_none (lookup k a)) (or_none (lookup k b))
      then some (or_none (lookup k a), or_none (lookup k b))
      else none

  unlisted :
      (listed : Bool) (a b : Dict V) (k : String)
      → differ (or_none (lookup k a)) (or_none (lookup k b)) ≡ false
      → (if listed then change a b k else none) ≡ none
  unlisted listed a b k equal = ground (arith, equal)

  lookup-differing :
      (a b : Dict V) (ks : List String) (k : String)
      → lookup k (differing a b ks) ≡ (if contains k ks then change a b k else none)
  unfolding lookup differing contains
  lookup-differing a b [] k = refl
  lookup-differing a b (j ∷ ks) k = elim (Bool-cases (j == k)) [
    | inl same ↦ elim (Bool-cases (differ (or_none (lookup k a)) (or_none (lookup k b)))) [
      | inl change ↦ rw ((eq_iff j k).0 same, differing, change, eq_refl k) refl
      | inr equal ↦
          rw ((eq_iff j k).0 same, differing, equal, eq_refl k, lookup-differing a b ks k)
            (unlisted (contains k ks) a b k equal)
    ]
    | inr other ↦ elim (Bool-cases (differ (or_none (lookup j a)) (or_none (lookup j b)))) [
      | inl change ↦ rw (differing, change, other) (lookup-differing a b ks k)
      | inr equal ↦ rw (differing, equal, other) (lookup-differing a b ks k)
    ]
  ]

  absent : (d : Dict V) (k : String) → contains k (keys d) ≡ false → lookup k d ≡ none
  unfolding contains keys lookup
  absent [] k h = refl
  absent ((j, v) ∷ d) k h = ground (arith, absent d k)

  lookup-diff_snapshots :
      (a b : Dict V) (k : String)
      → differ none_value none_value ≡ false
      → lookup k (diff_snapshots a b) ≡ change a b k
  unfolding diff_snapshots or_none
  lookup-diff_snapshots a b k same =
      lookup-differing a b (sorted before (union (keys a) (keys b))) k
      ∙ ground (
        arith,
        same,
        contains-sorted before k (union (keys a) (keys b)),
        contains-union k (keys a) (keys b),
        absent a k,
        absent b k,
      )

module _ {V W : Type 0} (differ : V → V → Bool) (none_value : V)
    (before : String → String → Bool) where
  -- `diff`
  unfoldable pub diff : Option (CheckpointStore V W) → String → String → Act W (Dict (V × V))
  unfolding both diff_snapshots
  diff none run_id_a run_id_b = raise runtime_error
  diff (some store) run_id_a run_id_b = do
    a ← store.load run_id_a
    b ← store.load run_id_b
    (found_a, found_b) ← lift (both run_id_a run_id_b a b)
    pure (diff_snapshots differ none_value before found_a.ctx_snapshot found_b.ctx_snapshot)

  -- Where both runs have a checkpoint, `diff` lists exactly the keys whose values in the two
  -- snapshots differ, a missing key counting as `None`, with both values.
  pub diff_lem :
      (store : CheckpointStore V W) (run_id_a run_id_b : String) (a b : Checkpoint V) (w w' w'' : W)
      → differ none_value none_value ≡ false
      → store.load run_id_a w ≡ (ok (some a), w')
      → store.load run_id_b w' ≡ (ok (some b), w'')
      → (changes : Dict (V × V)) × (diff (some store) run_id_a run_id_b w ≡ (ok changes, w''))
        × ((k : String)
            → lookup k changes ≡ change differ none_value before a.ctx_snapshot b.ctx_snapshot k)
  unfolding diff ◌>>=◌ lift pure both
  diff_lem store run_id_a run_id_b a b w w' w'' same found_a found_b = (
    diff_snapshots differ none_value before a.ctx_snapshot b.ctx_snapshot,
    rw (found_a, found_b) refl,
    λ k. lookup-diff_snapshots differ none_value before a.ctx_snapshot b.ctx_snapshot k same,
  )
