-- ===== src/Context/Progress.antt =====
-- `Context.merge` succeeds on well-formed branches exactly when no two of them, under different
-- names, wrote one key; otherwise the error is `MergeConflictError`.
use fluxio.Prelude.{
  String, List, [], ◌∷◌, some, true, ◌≡◌, refl, ◌∙◌, ◌↔◌, inl, inr, eq_iff, eq_refl, contains, All,
  All-combine, arith, Option-cases,
}
use fluxio.Prelude.Dict.{lookup}
use fluxio.Errors.{ok, >>=-eq-ok, is_ok, ok_of_is_ok}
use fluxio.Context.{
  Pmap, Context, Merging, merge_key, merge_keys, merge_branches, merge_start, merge,
}
use fluxio.Context.Merge.{
  Agree, Compatible, IsWellFormed, Expects, merge_key-Accepted, merge_keys-Kept,
  merge_branches-Done,
}

module _ {ℓ κ} {M : Type ℓ} {V : Type κ} (P : Pmap M V) where
  -- No error but a conflict: the loops themselves run to the end.
  merge_key_total :
      (b : Context M) (key : String) (s : Merging M) {v : V}
      → P.get b.entries key ≡ some v
      → is_ok (merge_key P b key s) ≡ true
  unfolding merge_key
  merge_key_total b key s h = ground arith

  merge_keys_total :
      (b : Context M) (ks : List String) (s : Merging M)
      → ((k : String) → contains k ks ≡ true → (v : V) × (P.get b.entries k ≡ some v))
      → is_ok (merge_keys P b ks s) ≡ true
  unfolding merge_keys contains
  merge_keys_total b [] s h = refl
  merge_keys_total b (key ∷ ks) s h =
      let (v, found) = h key (rw eq_refl) in
      let (t, e) = ok_of_is_ok (merge_key P b key s) (merge_key_total b key s found) in
      rw e (merge_keys_total b ks t (λ k m. h k (ground arith)))

  pub merge_branches_total :
      (bs : List (Context M)) (s : Merging M)
      → All (IsWellFormed P) bs
      → is_ok (merge_branches P bs s) ≡ true
  unfolding merge_branches
  merge_branches_total [] s h = refl
  merge_branches_total (b ∷ bs) s h =
      let (t, e) = ok_of_is_ok (merge_keys P b b.written s) (merge_keys_total b b.written s h.0) in
      rw e (merge_branches_total bs t h.1)

  -- No conflict is noted where the earlier writer has the branch's name.
  merge_key_clean :
      (b : Context M) (key : String) (s t : Merging M)
      → merge_key P b key s ≡ ok t
      → ((n : String) → lookup key s.seen ≡ some n → n ≡ b.name)
      → t.conflicts ≡ s.conflicts
  unfolding merge_key
  merge_key_clean b key s t h fits = elim (Option-cases (lookup key s.seen)) [
    | inl fresh ↦ ground arith
    | inr (n, old) ↦ ground (arith, eq_iff n b.name, fits n)
  ]

  merge_keys_clean :
      (b : Context M) (ks : List String) (s t : Merging M)
      → merge_keys P b ks s ≡ ok t
      → s.conflicts ≡ []
      → ((k n : String) → contains k ks ≡ true → lookup k s.seen ≡ some n → n ≡ b.name)
      → t.conflicts ≡ []
  unfolding merge_keys contains
  merge_keys_clean b [] s t h clean fits = ground arith
  merge_keys_clean b (key ∷ ks) s t h clean fits =
      let (u, one, more) = >>=-eq-ok (merge_key P b key s) (merge_keys P b ks) h in
      let still = merge_key_clean b key s u one (λ n. fits key n (rw eq_refl)) ∙ clean in
      let kept = merge_key-Accepted P b key s u one still in
      merge_keys_clean b ks u t more still
        λ k n m e. ground (arith, kept.names k, fits k n, eq_iff key k)

  merge_branches_clean :
      (bs : List (Context M)) (s t : Merging M)
      → merge_branches P bs s ≡ ok t
      → s.conflicts ≡ []
      → All (Expects P s) bs
      → Compatible bs
      → t.conflicts ≡ []
  unfolding merge_branches
  merge_branches_clean [] s t h clean expected compatible = ground arith
  merge_branches_clean (b ∷ bs) s t h clean expected compatible =
      let (u, one, more) = >>=-eq-ok (merge_keys P b b.written s) (merge_branches P bs) h in
      let still = merge_keys_clean b b.written s u one clean expected.0 in
      let kept = merge_keys-Kept P b b.written s u one still in
      merge_branches_clean bs u t more still
        (All-combine bs
          (λ c (x : Expects P s c) (y : Agree b c) k n w e.
            ground (arith, kept.names k, x k n w, y k))
          expected.1 compatible.0)
        compatible.1

  Expects-start :
      (base : Context M) (bs : List (Context M)) → All (Expects P (merge_start P base)) bs
  unfolding merge_start lookup
  Expects-start base [] = tt
  Expects-start base (b ∷ bs) = ((λ k n w e. cc), Expects-start base bs)

  -- Branches whose written keys all have values merge successfully exactly when any two of them that
  -- wrote one key have one name.
  pub merge-ok_iff :
      (base : Context M) (bs : List (Context M))
      → All (IsWellFormed P) bs
      → (is_ok (merge P base bs) ≡ true) ↔ Compatible bs
  unfolding merge merge_start
  merge-ok_iff base bs h =
      let (s, e) =
        ok_of_is_ok (merge_branches P bs (merge_start P base)) (merge_branches_total bs _ h) in
      (
        (λ good. (merge_branches-Done P bs _ s e (ground arith)).compatible),
        λ compatible.
            let clean = merge_branches_clean bs _ s e refl (Expects-start base bs) compatible in
            ground arith,
      )
