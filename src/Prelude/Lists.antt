-- ===== src/Prelude/Lists.antt =====
-- Lists measured and indexed by native numbers, under the library's names.
use Prim.Native.Nat.{ℕ, zero, suc, ◌+◌, ◌<◌}
use mathlib.Core.Path.{◌≡◌, refl, ap}
use mathlib.Core.Logic.{◌≢◌, ◌⊎◌, inl, inr}
use mathlib.Core.List.{List, [], ◌∷◌, ◌++◌}
use mathlib.Core.Option.{Option, none, some}
use native.Mathlib.Omega.{arith}

abbrev pub All {ℓ κ} : {A : Type ℓ} → (A → Type κ) → List A → Type κ
All P [] = Unit
All P (x ∷ xs) = P x × All P xs

pub All-weaken {ℓ κ μ} :
    {A : Type ℓ} {P : A → Type κ} {Q : A → Type μ} (xs : List A)
    → ((x : A) → P x → Q x)
    → All P xs
    → All Q xs
All-weaken [] f h = tt
All-weaken (x ∷ xs) f h = (f x h.0, All-weaken xs f h.1)

pub All-combine {ℓ κ μ ν} :
    {A : Type ℓ} {P : A → Type κ} {Q : A → Type μ} {R : A → Type ν} (xs : List A)
    → ((x : A) → P x → Q x → R x)
    → All P xs
    → All Q xs
    → All R xs
All-combine [] f g h = tt
All-combine (x ∷ xs) f g h = (f x g.0 h.0, All-combine xs f g.1 h.1)

pub All-snoc {ℓ κ} :
    {A : Type ℓ} (P : A → Type κ) (xs : List A) (x : A) → All P xs → P x → All P (xs ++ x ∷ [])
All-snoc P [] x h p = (p, tt)
All-snoc P (y ∷ xs) x h p = (h.0, All-snoc P xs x h.1 p)

module _ {ℓ} {A : Type ℓ} where
  abbrev pub length : List A → ℕ
  length [] = 0
  length (x ∷ xs) = suc (length xs)

  abbrev pub get_elem? : List A → ℕ → Option A
  get_elem? [] i = none
  get_elem? (x ∷ xs) zero = some x
  get_elem? (x ∷ xs) (suc i) = get_elem? xs i

  -- A write out of bounds changes nothing.
  abbrev pub set : List A → ℕ → A → List A
  set [] i v = []
  set (x ∷ xs) zero v = v ∷ xs
  set (x ∷ xs) (suc i) v = x ∷ set xs i v

  abbrev pub drop : ℕ → List A → List A
  drop zero xs = xs
  drop (suc n) [] = []
  drop (suc n) (x ∷ xs) = drop n xs

  pub length-append : (xs ys : List A) → length (xs ++ ys) ≡ length xs + length ys
  length-append [] ys = omega arith
  length-append (x ∷ xs) ys = omega (arith, length-append xs ys)

  pub length-set : (xs : List A) (i : ℕ) (v : A) → length (set xs i v) ≡ length xs
  length-set [] i v = refl
  length-set (x ∷ xs) zero v = refl
  length-set (x ∷ xs) (suc i) v = ap suc (length-set xs i v)

  pub get_elem?-lt : (xs : List A) (i : ℕ) {x : A} → get_elem? xs i ≡ some x → i < length xs
  get_elem?-lt [] i h = absurd (none-ne h)
    where
      none-ne : {x : A} → none ≡ some x → ⊥
      none-ne e = cc
  get_elem?-lt (y ∷ xs) zero h = omega arith
  get_elem?-lt (y ∷ xs) (suc i) h = omega (arith, get_elem?-lt xs i h)

  pub get_elem?-length : (xs : List A) → get_elem? xs (length xs) ≡ none
  get_elem?-length [] = refl
  get_elem?-length (x ∷ xs) = get_elem?-length xs

  pub get_elem?-append :
      (xs ys : List A) (i : ℕ) {x : A} → get_elem? xs i ≡ some x → get_elem? (xs ++ ys) i ≡ some x
  get_elem?-append [] ys i h = cc
  get_elem?-append (z ∷ xs) ys zero h = h
  get_elem?-append (z ∷ xs) ys (suc i) h = get_elem?-append xs ys i h

  pub get_elem?-last : (xs : List A) (x : A) → get_elem? (xs ++ x ∷ []) (length xs) ≡ some x
  get_elem?-last [] x = refl
  get_elem?-last (y ∷ xs) x = get_elem?-last xs x

  pub get_elem?-set_other :
      (xs : List A) (j : ℕ) (v : A) (i : ℕ) → i ≢ j → get_elem? (set xs j v) i ≡ get_elem? xs i
  get_elem?-set_other [] j v i n = refl
  get_elem?-set_other (y ∷ xs) zero v zero n = absurd (n refl)
  get_elem?-set_other (y ∷ xs) zero v (suc i) n = refl
  get_elem?-set_other (y ∷ xs) (suc j) v zero n = refl
  get_elem?-set_other (y ∷ xs) (suc j) v (suc i) n =
      get_elem?-set_other xs j v i (λ e. n (ap suc e))

  pub get_elem?-set_here :
      (xs : List A) (j : ℕ) (v : A) → j < length xs → get_elem? (set xs j v) j ≡ some v
  get_elem?-set_here [] j v h = absurd (omega arith)
  get_elem?-set_here (y ∷ xs) zero v h = refl
  get_elem?-set_here (y ∷ xs) (suc j) v h = get_elem?-set_here xs j v (omega arith)

  pub get_elem?_of_lt : (xs : List A) (i : ℕ) → i < length xs → (x : A) × (get_elem? xs i ≡ some x)
  get_elem?_of_lt [] i h = absurd (omega arith)
  get_elem?_of_lt (x ∷ xs) zero h = (x, refl)
  get_elem?_of_lt (x ∷ xs) (suc i) h = get_elem?_of_lt xs i (omega arith)

  -- What a list with one more element at its end holds.
  pub get_elem?-snoc :
      (xs : List A) (y : A) (i : ℕ) {x : A}
      → get_elem? (xs ++ y ∷ []) i ≡ some x
      → (get_elem? xs i ≡ some x) ⊎ (i ≡ length xs) × (x ≡ y)
  get_elem?-snoc [] y zero h = inr (refl, cc)
  get_elem?-snoc [] y (suc i) h = inl h
  get_elem?-snoc (z ∷ xs) y zero h = inl h
  get_elem?-snoc (z ∷ xs) y (suc i) h = elim (get_elem?-snoc xs y i h) [
    | inl old ↦ inl old
    | inr (e, v) ↦ inr (ap suc e, v)
  ]

  -- What a list with one element overwritten holds.
  pub get_elem?-set :
      (xs : List A) (j : ℕ) (v : A) (i : ℕ) {x : A}
      → get_elem? (set xs j v) i ≡ some x
      → (i ≡ j) × (x ≡ v) ⊎ (i ≢ j) × (get_elem? xs i ≡ some x)
  get_elem?-set [] j v i h = absurd (empty i h)
    where
      empty : (i : ℕ) {x : A} → get_elem? [] i ≡ some x → ⊥
      empty i e = cc
  get_elem?-set (y ∷ xs) zero v zero h = inl (refl, cc)
  get_elem?-set (y ∷ xs) zero v (suc i) h = inr ((λ e. omega arith), h)
  get_elem?-set (y ∷ xs) (suc j) v zero h = inr ((λ e. omega arith), h)
  get_elem?-set (y ∷ xs) (suc j) v (suc i) h = elim (get_elem?-set xs j v i h) [
    | inl (e, w) ↦ inl (ap suc e, w)
    | inr (n, old) ↦ inr ((λ e. n (omega arith)), old)
  ]
