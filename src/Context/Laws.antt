-- ===== src/Context/Laws.antt =====
-- The operations of a context against the map that it stands for, and the invariant that every
-- key listed as written has a value.
use fluxio.Prelude.{
  String, List, [], ◌∷◌, Option, none, some, true, ◌||◌, ◌≡◌, refl, ◌∙◌, ◌≢◌, ◌⊎◌, inl, inr, ◌==◌,
  eq_iff, if◌then◌else◌, contains, union, contains-add, contains-union, All, arith, Option-cases,
  Bool-cases,
}
use fluxio.Prelude.Dict.{Dict, lookup, keys}
use fluxio.Errors.{Result, ok, err, >>=-eq-ok, merge_conflict_error, ok_of_is_ok}
use fluxio.Context.{
  Pmap, Context, Merging, create, get, set, set_all, update, fork, merge_branches, merge_start,
  merge_end, merge, snapshot, from_snapshot,
}
use fluxio.Context.Merge.{last_writer, IsWellFormed, writer_value, wrote, merge_branches-Done}
use fluxio.Context.Progress.{merge_branches_total}

-- The entries of a Python dict have distinct keys.
abbrev pub IsDict {ℓ} : {V : Type ℓ} → Dict V → Type ℓ
IsDict [] = Unit
IsDict ((k, v) ∷ d) = (lookup k d ≡ none) × IsDict d

abbrev pub or_else {ℓ} : {V : Type ℓ} → Option V → Option V → Option V
or_else none o = o
or_else (some v) o = some v

module _ {ℓ κ} {M : Type ℓ} {V : Type κ} (P : Pmap M V) where
  -- After `set`, the key has the new value and every other key is as before.
  pub get-set :
      (c : Context M) (k j : String) (v : V)
      → get P (set P c k v) j ≡ (if k == j then some v else get P c j)
  unfolding get set
  get-set c k j v = P.get-set c.entries k j v

  get-set_all :
      (m : M) (d : Dict V) (j : String)
      → IsDict d
      → P.get (set_all P m d) j ≡ or_else (lookup j d) (P.get m j)
  unfolding set_all lookup
  get-set_all m [] j h = refl
  get-set_all m ((k, v) ∷ d) j h =
      ground (arith, get-set_all (P.set m k v) d j h.1, P.get-set m k j v, h.0, eq_iff k j)

  -- After `update`, a key of the patch has the patch's value and every other key is as before.
  pub get-update :
      (c : Context M) (patch : Dict V) (j : String)
      → IsDict patch
      → get P (update P c patch) j ≡ or_else (lookup j patch) (get P c j)
  unfolding get update lookup
  get-update c [] j h = refl
  get-update c (e ∷ patch) j h = get-set_all c.entries (e ∷ patch) j h

  -- A snapshot restores to a context with the same values, and no pending writes.
  pub get-from_snapshot :
      (c : Context M) (name : String) (k : String)
      → (get P (from_snapshot P (snapshot P c) name none) k ≡ get P c k)
        × ((from_snapshot P (snapshot P c) name none).written ≡ [])
  unfolding get from_snapshot snapshot
  get-from_snapshot c name k = (
    P.get-of_dict (P.deepcopy (P.deepcopy (P.to_dict c.entries))) k
        ∙ P.lookup-deepcopy (P.deepcopy (P.to_dict c.entries)) k
        ∙ P.lookup-deepcopy (P.to_dict c.entries) k
        ∙ P.lookup-to_dict c.entries k,
    refl,
  )

  contains-keys : (k : String) (d : Dict V) → contains k (keys d) ≡ true → lookup k d ≢ none
  unfolding contains keys lookup
  contains-keys k [] h e = cc
  contains-keys k ((j, v) ∷ d) h e = ground (arith, contains-keys k d)

  set-IsWellFormed :
      (c : Context M) (k : String) (v : V) → IsWellFormed P c → IsWellFormed P (set P c k v)
  unfolding set
  set-IsWellFormed c k v h j w = elim (Bool-cases (k == j)) [
    | inl same ↦ (v, rw (P.get-set, same) refl)
    | inr other ↦
        let (u, e) = h j (ground (arith, contains-add k j c.written)) in
        (u, rw (P.get-set, other) e)
  ]

  update-IsWellFormed :
      (c : Context M) (patch : Dict V)
      → IsDict patch
      → IsWellFormed P c
      → IsWellFormed P (update P c patch)
  unfolding update
  update-IsWellFormed c [] d h j w = h j w
  update-IsWellFormed c (e ∷ patch) d h j w = elim (Option-cases (lookup j (e ∷ patch))) [
    | inr (v, found) ↦ (v, rw (get-set_all c.entries (e ∷ patch) j d, found) refl)
    | inl missing ↦
        let (u, q) = h j (
          ground
            (arith, contains-union j c.written (keys (e ∷ patch)), contains-keys j (e ∷ patch))) in
        (u, rw (get-set_all c.entries (e ∷ patch) j d, missing) q)
  ]

  fork-IsWellFormed : (c : Context M) (name : String) → IsWellFormed P (fork P c name)
  unfolding fork contains
  fork-IsWellFormed c name k w = cc

  last_writer-IsWellFormed :
      (k : String) (bs : List (Context M)) {b : Context M}
      → All (IsWellFormed P) bs
      → last_writer k bs ≡ some b
      → (v : V) × (P.get b.entries k ≡ some v)
  unfolding last_writer
  last_writer-IsWellFormed k [] h e = cc
  last_writer-IsWellFormed k (c ∷ bs) {b} h e = elim (Option-cases (last_writer k bs)) [
    | inr (d, later) ↦ last_writer-IsWellFormed k bs {b = b} h.1 (ground (arith, e, later))
    | inl never ↦ elim (Bool-cases (contains k c.written)) [
      | inl here ↦ let (v, q) = h.0 k here in let same : c ≡ b = ground arith in (v, rw same at q)
      | inr away ↦ absurd (ground (arith, away, never))
    ]
  ]

  -- After a successful merge a key has the value of the last branch that wrote it, or the base's
  -- if none did; the keys listed as written are the base's and the branches'; the name is the base's.
  pub get-merge :
      (base c : Context M) (bs : List (Context M))
      → merge P base bs ≡ ok c
      → ((k : String) → get P c k ≡ writer_value P (last_writer k bs) k (get P base k))
        × ((k : String)
            → contains k c.written ≡ (wrote P (last_writer k bs) || contains k base.written))
        × (c.name ≡ base.name)
  unfolding merge merge_start merge_end get
  get-merge base c bs h =
      let (s, e, end) = >>=-eq-ok (merge_branches P bs (merge_start P base)) (merge_end P base) h in
      let done = merge_branches-Done P bs _ s e (ground arith) in
      ((λ k. ground (arith, done.values k)), (λ k. ground (arith, done.writes k)), ground arith)

  merge-IsWellFormed :
      (base c : Context M) (bs : List (Context M))
      → IsWellFormed P base
      → All (IsWellFormed P) bs
      → merge P base bs ≡ ok c
      → IsWellFormed P c
  unfolding get
  merge-IsWellFormed base c bs hb hs h k w =
      let facts = get-merge base c bs h in
      elim (Option-cases (last_writer k bs)) [
        | inl never ↦
            let (v, e) = hb k (ground (arith, facts.1 k, never)) in
            (v, ground (arith, facts.0 k, never))
        | inr (b, last) ↦
            let (v, e) = last_writer-IsWellFormed k bs hs last in
            (v, ground (arith, facts.0 k, last))
      ]

  abbrev pub IsConflict : Result (Context M) → Type ℓ
  IsConflict r =
      (k : String) × (ks : List String) × (names : List String) × (r
        ≡ err (merge_conflict_error (k ∷ ks) names))

  merge_end_cases :
      (base : Context M) (s : Merging M) (ks : List String)
      → s.conflicts ≡ ks
      → ((c : Context M) × (merge_end P base s ≡ ok c)) ⊎ IsConflict (merge_end P base s)
  unfolding merge_end
  merge_end_cases base s [] e = inl (
    record { entries = s.merged_data; written = s.merged_written; name = base.name },
    ground arith,
  )
  merge_end_cases base s (k ∷ ks) e = inr (k, ks, union [] s.conflict_branches, ground arith)

  -- A merge of well-formed branches succeeds or raises `MergeConflictError` with at least one key;
  -- it raises nothing else.
  pub merge_total :
      (base : Context M) (bs : List (Context M))
      → All (IsWellFormed P) bs
      → ((c : Context M) × (merge P base bs ≡ ok c)) ⊎ IsConflict (merge P base bs)
  unfolding merge
  merge_total base bs h =
      let (s, e) =
        ok_of_is_ok (merge_branches P bs (merge_start P base)) (merge_branches_total P bs _ h) in
      rw e (merge_end_cases base s s.conflicts refl)

-- The contexts that the class makes: from a dict or a snapshot, and by its operations.
mutual
  pub data Made {ℓ κ} {M : Type ℓ} {V : Type κ} (P : Pmap M V) : Context M → Type (ℓ ⊔ κ) where
    created : (initial : Option (Dict V)) (name : String) → Made P (create P initial name)
    assigned : {c : Context M} (k : String) (v : V) → Made P c → Made P (set P c k v)
    updated : {c : Context M} (patch : Dict V) → IsDict patch → Made P c → Made P (update P c patch)
    forked : {c : Context M} (name : String) → Made P c → Made P (fork P c name)
    restored : (d : Dict V) (name : String) → Made P (from_snapshot P d name none)
    restored_written :
        (d : Dict V) (name : String) (ks : List String)
        → ((k : String) → contains k ks ≡ true → lookup k d ≢ none)
        → Made P (from_snapshot P d name (some ks))
    merged :
        {base c : Context M} (bs : List (Context M))
        → Made P base
        → AllMade P bs
        → merge P base bs ≡ ok c
        → Made P c

  pub data AllMade {ℓ κ} {M : Type ℓ} {V : Type κ} (P : Pmap M V)
      : List (Context M) → Type (ℓ ⊔ κ) where
    nothing : AllMade P []
    also : {b : Context M} {bs : List (Context M)} → Made P b → AllMade P bs → AllMade P (b ∷ bs)

module _ {ℓ κ} {M : Type ℓ} {V : Type κ} (P : Pmap M V) where
  create-IsWellFormed :
      (initial : Option (Dict V)) (name : String) → IsWellFormed P (create P initial name)
  unfolding create contains
  create-IsWellFormed none name k w = cc
  create-IsWellFormed (some []) name k w = cc
  create-IsWellFormed (some (e ∷ d)) name k w = cc

  from_snapshot-IsWellFormed :
      (d : Dict V) (name : String) → IsWellFormed P (from_snapshot P d name none)
  unfolding from_snapshot contains
  from_snapshot-IsWellFormed d name k w = cc

  written-IsWellFormed :
      (d : Dict V) (name : String) (ks : List String)
      → ((k : String) → contains k ks ≡ true → lookup k d ≢ none)
      → IsWellFormed P (from_snapshot P d name (some ks))
  unfolding from_snapshot
  written-IsWellFormed d name ks h k w = elim (Option-cases (lookup k d)) [
    | inl missing ↦ absurd (h k w missing)
    | inr (v, found) ↦ (v, P.get-of_dict (P.deepcopy d) k ∙ P.lookup-deepcopy d k ∙ found)
  ]

mutual
  Made-IsWellFormed' {ℓ κ} :
      {M : Type ℓ} {V : Type κ} {P : Pmap M V} {c : Context M} → Made P c → IsWellFormed P c
  Made-IsWellFormed' {P = P} (created initial name) = create-IsWellFormed P initial name
  Made-IsWellFormed' {P = P} (assigned {c = c} k v m) =
      set-IsWellFormed P c k v (Made-IsWellFormed' m)
  Made-IsWellFormed' {P = P} (updated {c = c} patch d m) =
      update-IsWellFormed P c patch d (Made-IsWellFormed' m)
  Made-IsWellFormed' {P = P} (forked {c = c} name m) = fork-IsWellFormed P c name
  Made-IsWellFormed' {P = P} (restored d name) = from_snapshot-IsWellFormed P d name
  Made-IsWellFormed' {P = P} (restored_written d name ks h) = written-IsWellFormed P d name ks h
  Made-IsWellFormed' {P = P} (merged {base = base} {c = c} bs m ms e) =
      merge-IsWellFormed P base c bs (Made-IsWellFormed' m) (AllMade-IsWellFormed ms) e

  AllMade-IsWellFormed {ℓ κ} :
      {M : Type ℓ} {V : Type κ} {P : Pmap M V} {bs : List (Context M)}
      → AllMade P bs
      → All (IsWellFormed P) bs
  AllMade-IsWellFormed nothing = tt
  AllMade-IsWellFormed (also m ms) = (Made-IsWellFormed' m, AllMade-IsWellFormed ms)

-- In every context that the class makes by its operations, every key listed as written has a value,
-- where a `written` that is passed to `from_snapshot` lists only keys of the snapshot, as the one
-- that the cache keeps does.
pub Made-IsWellFormed {ℓ κ} :
    {M : Type ℓ} {V : Type κ} {P : Pmap M V} {c : Context M} → Made P c → IsWellFormed P c
Made-IsWellFormed m = Made-IsWellFormed' m
