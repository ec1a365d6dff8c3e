-- ===== src/Runtime/Lands.antt =====
-- What holds of every value that a coroutine returns, one rule for each way to build one.
use fluxio.Prelude.{Bool, true, false, ◌≡◌, refl, ap, subst, if◌then◌else◌}
use fluxio.Errors.{Exn, Result, ok, err}
use fluxio.Runtime.Act.{Act, pure, raise, lift, and_then, ◌>>=◌}

pub record Lands {ℓ} {W A : Type 0} (P : A → Type ℓ) (m : Act W A) : Type ℓ where
  pub at : (w w' : W) (a : A) → m w ≡ (ok a, w') → P a

module _ {ℓ} {W A : Type 0} {P : A → Type ℓ} where
  pub Lands-pure : (a : A) → P a → Lands P (pure {W = W} a)
  unfolding pure
  Lands-pure a p = record { at = λ w w' b e. subst P (cc) p }

  pub Lands-raise : (e : Exn) → Lands P (raise {W = W} e)
  unfolding raise
  Lands-raise x = record { at = λ w w' b e. absurd (cc (ap (λ (r : Result A × W). r.0) e)) }

  pub Lands-lift : (r : Result A) → ((a : A) → r ≡ ok a → P a) → Lands P (lift {W = W} r)
  unfolding lift
  Lands-lift r h = record { at = λ w w' b e. h b (cc) }

  pub Lands-if :
      (b : Bool) (m n : Act W A)
      → (b ≡ true → Lands P m)
      → (b ≡ false → Lands P n)
      → Lands P (if b then m else n)
  Lands-if true m n hm hn = hm refl
  Lands-if false m n hm hn = hn refl

module _ {W A B : Type 0} where
  and_then-eq-ok :
      (r : Result A × W) (f : A → Act W B) {b : B} {w' : W}
      → and_then r f ≡ (ok b, w')
      → (a : A) × (v : W) × (r ≡ (ok a, v)) × (f a v ≡ (ok b, w'))
  and_then-eq-ok (ok a, v) f e = (a, v, refl, e)
  and_then-eq-ok (err x, v) f e = absurd (cc e)

module _ {ℓ} {W A B : Type 0} {P : B → Type ℓ} where
  pub Lands-bind : (m : Act W A) (f : A → Act W B) → ((a : A) → Lands P (f a)) → Lands P (m >>= f)
  unfolding ◌>>=◌
  Lands-bind m f h = record {
    at = λ w w' b e. let (a, v, e₁, e₂) = and_then-eq-ok (m w) f e in (h a).at v w' b e₂;
  }

  pub Lands-bind-lift :
      (r : Result A) (f : A → Act W B)
      → ((a : A) → r ≡ ok a → Lands P (f a))
      → Lands P (lift r >>= f)
  unfolding ◌>>=◌ lift
  Lands-bind-lift (ok a) f h = record { at = λ w w' b e. (h a refl).at w w' b e }
  Lands-bind-lift (err x) f h = record { at = λ w w' b e. absurd (cc e) }
