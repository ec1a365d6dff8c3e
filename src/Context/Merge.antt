-- ===== src/Context/Merge.antt =====
-- `Context.merge`: when it succeeds, and what the merged context holds.
use fluxio.Prelude.{
  String, List, [], ◌∷◌, Option, none, some, Bool, true, false, ◌||◌, ◌≡◌, ap, ◌++◌, ◌==◌, inl, inr,
  eq_iff, if◌then◌else◌, contains, contains-add, All, All-weaken, arith, Option-cases, Bool-cases,
}
use fluxio.Prelude.Dict.{lookup, lookup-insert}
use fluxio.Errors.{ok, >>=-eq-ok}
use fluxio.Context.{
  Pmap, Context, Merging, accept_key, note_conflict, merge_key, merge_keys, merge_branches,
}

module _ {ℓ} {M : Type ℓ} where
  -- No key is written by both, unless they have one name.
  abbrev pub Agree : Context M → Context M → Type 0
  Agree b c =
      (k : String) → contains k b.written ≡ true → contains k c.written ≡ true → b.name ≡ c.name

  abbrev pub Compatible : List (Context M) → Type ℓ
  Compatible [] = Unit
  Compatible (b ∷ bs) = All (Agree b) bs × Compatible bs

  -- The last branch that wrote a key.
  unfoldable pub last_writer : String → List (Context M) → Option (Context M)
  last_writer k [] = none
  last_writer k (b ∷ bs) = elim (last_writer k bs) [
    | some c ↦ some c
    | none ↦ if contains k b.written then some b else none
  ]

snoc-ne-nil {ℓ} : {A : Type ℓ} (xs : List A) (x : A) → xs ++ x ∷ [] ≡ [] → ⊥
snoc-ne-nil [] x h = cc
snoc-ne-nil (y ∷ xs) x h = cc

module _ {ℓ κ} {M : Type ℓ} {V : Type κ} (P : Pmap M V) where
  -- Every key that a context lists as written has a value.
  abbrev pub IsWellFormed : Context M → Type κ
  IsWellFormed c =
      (k : String) → contains k c.written ≡ true → (v : V) × (P.get c.entries k ≡ some v)

  -- What one key of one branch does to the local variables, if no conflict is noted in the end.
  pub record Accepted (b : Context M) (key : String) (s s' : Merging M) : Type (ℓ ⊔ κ) where
    pub clean : s.conflicts ≡ []
    pub fits : (n : String) → lookup key s.seen ≡ some n → n ≡ b.name
    pub values :
        (k : String)
        → P.get s'.merged_data k ≡ (if key == k then P.get b.entries k else P.get s.merged_data k)
    pub names :
        (k : String) → lookup k s'.seen ≡ (if key == k then some b.name else lookup k s.seen)
    pub writes :
        (k : String) → contains k s'.merged_written ≡ (key == k || contains k s.merged_written)

  accept_key-Accepted :
      (b : Context M) (key : String) (s s' : Merging M)
      → accept_key P b key s ≡ ok s'
      → s'.conflicts ≡ []
      → ((n : String) → lookup key s.seen ≡ some n → n ≡ b.name)
      → Accepted b key s s'
  unfolding accept_key
  accept_key-Accepted b key s s' h clean fits = elim (Option-cases (P.get b.entries key)) [
    | inl missing ↦ absurd (ground (arith, missing))
    | inr (v, found) ↦ record {
      clean = ground (arith, found);
      fits = fits;
      values = λ k. ground (arith, found, P.get-set s.merged_data key k v, eq_iff key k);
      names = λ k. ground (arith, found, lookup-insert key k b.name s.seen);
      writes = λ k. ground (arith, found, contains-add key k s.merged_written);
    }
  ]

  note_conflict-ne-nil :
      (b : Context M) (key n : String) (s : Merging M)
      → (note_conflict P b key n s).conflicts ≡ []
      → ⊥
  unfolding note_conflict contains
  note_conflict-ne-nil b key n s h = elim (Bool-cases (contains key s.conflicts)) [
    | inl old ↦
        let none_left : s.conflicts ≡ [] = rw (← h) (rw old) in cc (ap (contains key) none_left)
    | inr new ↦ snoc-ne-nil s.conflicts key (ground (arith, h))
  ]

  pub merge_key-Accepted :
      (b : Context M) (key : String) (s s' : Merging M)
      → merge_key P b key s ≡ ok s'
      → s'.conflicts ≡ []
      → Accepted b key s s'
  unfolding merge_key
  merge_key-Accepted b key s s' h clean = elim (Option-cases (lookup key s.seen)) [
    | inl fresh ↦ accept_key-Accepted b key s s' (rw (fresh, merge_key) at h) clean (λ n e. cc)
    | inr (n, old) ↦ elim (Bool-cases (n == b.name)) [
      | inl same ↦
          accept_key-Accepted b key s s' (ground (arith, old, same)) clean
            (λ m e. ground (arith, eq_iff n b.name))
      | inr other ↦ absurd (note_conflict-ne-nil b key n s (ground (arith, old, other)))
    ]
  ]

  -- The same for the keys of one branch.
  pub record Kept (b : Context M) (ks : List String) (s s' : Merging M) : Type (ℓ ⊔ κ) where
    pub clean : s.conflicts ≡ []
    pub fits : (k n : String) → contains k ks ≡ true → lookup k s.seen ≡ some n → n ≡ b.name
    pub values :
        (k : String)
        → P.get s'.merged_data k
          ≡ (if contains k ks then P.get b.entries k else P.get s.merged_data k)
    pub names :
        (k : String) → lookup k s'.seen ≡ (if contains k ks then some b.name else lookup k s.seen)
    pub writes :
        (k : String) → contains k s'.merged_written ≡ (contains k ks || contains k s.merged_written)

  Kept-cons :
      (b : Context M) (key : String) (ks : List String) (s t s' : Merging M)
      → Accepted b key s t
      → Kept b ks t s'
      → Kept b (key ∷ ks) s s'
  unfolding contains
  Kept-cons b key ks s t s' one more = record {
    clean = one.clean;
    fits = λ k n m e. ground (arith, one.fits n, more.fits k n, one.names k, eq_iff key k);
    values = λ k. ground (arith, more.values k, one.values k, eq_iff key k);
    names = λ k. ground (arith, more.names k, one.names k, eq_iff key k);
    writes = λ k. ground (arith, more.writes k, one.writes k);
  }

  pub merge_keys-Kept :
      (b : Context M) (ks : List String) (s s' : Merging M)
      → merge_keys P b ks s ≡ ok s'
      → s'.conflicts ≡ []
      → Kept b ks s s'
  unfolding merge_keys contains
  merge_keys-Kept b [] s s' h clean = record {
    clean = ground arith;
    fits = λ k n m e. cc;
    values = λ k. ground arith;
    names = λ k. ground arith;
    writes = λ k. ground arith;
  }
  merge_keys-Kept b (key ∷ ks) s s' h clean =
      let (t, one, more) = >>=-eq-ok (merge_key P b key s) (merge_keys P b ks) h in
      let kept = merge_keys-Kept b ks t s' more clean in
      Kept-cons b key ks s t s' (merge_key-Accepted b key s t one kept.clean) kept

  -- Branches still to come write no key under another name than it was seen with.
  abbrev pub Expects : Merging M → Context M → Type 0
  Expects s c = (k n : String) → contains k c.written ≡ true → lookup k s.seen ≡ some n → n ≡ c.name

  abbrev pub writer_value : Option (Context M) → String → Option V → Option V
  writer_value none k v = v
  writer_value (some b) k v = P.get b.entries k

  abbrev pub wrote : Option (Context M) → Bool
  wrote none = false
  wrote (some b) = true

  pub record Done (bs : List (Context M)) (s s' : Merging M) : Type (ℓ ⊔ κ) where
    pub clean : s.conflicts ≡ []
    pub expected : All (Expects s) bs
    pub compatible : Compatible bs
    pub values :
        (k : String)
        → P.get s'.merged_data k ≡ writer_value (last_writer k bs) k (P.get s.merged_data k)
    pub writes :
        (k : String)
        → contains k s'.merged_written ≡ (wrote (last_writer k bs) || contains k s.merged_written)

  Done-cons :
      (b : Context M) (bs : List (Context M)) (s t s' : Merging M)
      → Kept b b.written s t
      → Done bs t s'
      → Done (b ∷ bs) s s'
  unfolding last_writer
  Done-cons b bs s t s' one more = record {
    clean = one.clean;
    expected = (
      (λ k n w e. one.fits k n w e),
      All-weaken bs
          (λ c (x : Expects t c) k n w e.
            ground (arith, x k n w, x k b.name w, one.names k, one.fits k n))
          more.expected,
    );
    compatible = (
      All-weaken bs (λ c (x : Expects t c) k w w'. ground (arith, x k b.name w', one.names k))
          more.expected,
      more.compatible,
    );
    values = λ k. ground (arith, more.values k, one.values k);
    writes = λ k. ground (arith, more.writes k, one.writes k);
  }

  pub merge_branches-Done :
      (bs : List (Context M)) (s s' : Merging M)
      → merge_branches P bs s ≡ ok s'
      → s'.conflicts ≡ []
      → Done bs s s'
  unfolding merge_branches last_writer
  merge_branches-Done [] s s' h clean = record {
    clean = ground arith;
    expected = tt;
    compatible = tt;
    values = λ k. ground arith;
    writes = λ k. ground arith;
  }
  merge_branches-Done (b ∷ bs) s s' h clean =
      let (t, one, more) = >>=-eq-ok (merge_keys P b b.written s) (merge_branches P bs) h in
      let done = merge_branches-Done bs t s' more clean in
      Done-cons b bs s t s' (merge_keys-Kept b b.written s t one done.clean) done
