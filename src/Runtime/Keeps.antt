-- ===== src/Runtime/Keeps.antt =====
-- What a coroutine leaves behind, whether it returns or raises: one rule for each way to build one.
pub mod Calls
pub mod Timers
pub mod Forks
pub mod Instructions
pub mod Steady
use fluxio.Prelude.{List, [], ◌∷◌, Bool, true, false, ◌≡◌, refl, sym, subst, All, if◌then◌else◌}
use fluxio.Errors.{Exn, Result, ok, err}
use fluxio.Runtime.Act.{
  Act, pure, raise, lift, gets, and_handle, catching, and_then, ◌>>=◌, finally,
}
use fluxio.Runtime.Executor.{gather}

abbrev pub After : {W A : Type 0} → (A → W → Type 0) → (Exn → W → Type 0) → Result A × W → Type 0
After Q E (ok a, w) = Q a w
After Q E (err e, w) = E e w

-- From a world with `P`, `m` returns to one with `Q`, or raises to one with `E`.
pub record Triple {W A : Type 0} (P : W → Type 0) (m : Act W A) (Q : A → W → Type 0)
    (E : Exn → W → Type 0) : Type 0 where
  pub at : (w : W) → P w → After Q E (m w)

abbrev pub Stays : {W A : Type 0} → (W → Type 0) → Act W A → Type 0
Stays P m = Triple P m (λ a. P) (λ e. P)

module _ {W A : Type 0} {Q : A → W → Type 0} {E : Exn → W → Type 0} where
  After-weaken :
      {Q' : A → W → Type 0} {E' : Exn → W → Type 0} (q : Result A × W)
      → ((a : A) (w : W) → Q a w → Q' a w)
      → ((e : Exn) (w : W) → E e w → E' e w)
      → After Q E q
      → After Q' E' q
  After-weaken (ok a, w) hq he h = hq a w h
  After-weaken (err e, w) hq he h = he e w h

  and_handle-After :
      {E' : Exn → W → Type 0} (q : Result A × W) (handler : Exn → Act W A)
      → ((e : Exn) → Triple (E' e) (handler e) Q E)
      → After Q E' q
      → After Q E (and_handle q handler)
  and_handle-After (ok a, w) handler h p = p
  and_handle-After (err e, w) handler h p = (h e).at w p

module _ {W A B : Type 0} {Q : A → W → Type 0} {R : B → W → Type 0} {E : Exn → W → Type 0} where
  and_then-After :
      (q : Result A × W) (f : A → Act W B)
      → ((a : A) → Triple (Q a) (f a) R E)
      → After Q E q
      → After R E (and_then q f)
  and_then-After (ok a, w) f h p = (h a).at w p
  and_then-After (err e, w) f h p = p

module _ {W A : Type 0} {P : W → Type 0} {Q : A → W → Type 0} {E : Exn → W → Type 0} where
  pub Triple-pure : (a : A) → ((w : W) → P w → Q a w) → Triple P (pure a) Q E
  unfolding pure
  Triple-pure a h = record { at = h }

  pub Triple-raise : (e : Exn) → ((w : W) → P w → E e w) → Triple P (raise e) Q E
  unfolding raise
  Triple-raise e h = record { at = h }

  pub Triple-lift :
      (r : Result A)
      → ((a : A) → r ≡ ok a → (w : W) → P w → Q a w)
      → ((e : Exn) → (w : W) → P w → E e w)
      → Triple P (lift r) Q E
  unfolding lift
  Triple-lift (ok a) h h' = record { at = h a refl }
  Triple-lift (err e) h h' = record { at = h' e }

  pub Triple-gets : (f : W → A) → ((w : W) → P w → Q (f w) w) → Triple P (gets f) Q E
  unfolding gets
  Triple-gets f h = record { at = h }

  pub Triple-if :
      (b : Bool) (m n : Act W A)
      → Triple P m Q E
      → Triple P n Q E
      → Triple P (if b then m else n) Q E
  Triple-if true m n hm hn = hm
  Triple-if false m n hm hn = hn

  pub Triple-weaken :
      {P' : W → Type 0} {Q' : A → W → Type 0} {E' : Exn → W → Type 0} {m : Act W A}
      → ((w : W) → P' w → P w)
      → ((a : A) (w : W) → Q a w → Q' a w)
      → ((e : Exn) (w : W) → E e w → E' e w)
      → Triple P m Q E
      → Triple P' m Q' E'
  Triple-weaken {m = m} hp hq he h = record {
    at = λ w p. After-weaken (m w) hq he (h.at w (hp w p));
  }

  pub Triple-catching :
      {E' : Exn → W → Type 0} (m : Act W A) (handler : Exn → Act W A)
      → Triple P m Q E'
      → ((e : Exn) → Triple (E' e) (handler e) Q E)
      → Triple P (catching m handler) Q E
  unfolding catching
  Triple-catching m handler hm h = record {
    at = λ w p. and_handle-After (m w) handler h (hm.at w p);
  }

module _ {W A B : Type 0} {P : W → Type 0} {Q : A → W → Type 0} {R : B → W → Type 0}
    {E : Exn → W → Type 0} where
  pub Triple-bind :
      (m : Act W A) (f : A → Act W B)
      → Triple P m Q E
      → ((a : A) → Triple (Q a) (f a) R E)
      → Triple P (m >>= f) R E
  unfolding ◌>>=◌
  Triple-bind m f hm h = record { at = λ w p. and_then-After (m w) f h (hm.at w p) }

module _ {W A : Type 0} (P : W → Type 0) where
  Stays-world : (q : Result A × W) → After (λ a. P) (λ e. P) q → P q.1
  Stays-world (ok a, w) p = p
  Stays-world (err e, w) p = p

  pub After-any : (r : Result A) (w : W) → P w → After (λ a. P) (λ e. P) (r, w)
  After-any (ok a) w p = p
  After-any (err e) w p = p

  pub Stays-gather :
      (ms : List (Act W A)) (w : W) → All (λ m. Stays P m) ms → P w → P (gather ms w).1
  unfolding gather
  Stays-gather [] w h p = p
  Stays-gather (m ∷ ms) w h p = Stays-gather ms (m w).1 h.1 (Stays-world (m w) (h.0.at w p))

module _ {W A : Type 0} (P Q : W → Type 0) where
  pub Triple-finally :
      (r : Result A) (cleanup : Act W (Unit {0}))
      → Triple P cleanup (λ done. Q) (λ e. Q)
      → Triple P (finally (λ w. (r, w)) cleanup) (λ a. Q) (λ e. Q)
  unfolding finally
  Triple-finally r cleanup h = record {
    at = λ w p.
        and_then-After (cleanup w) (λ done w'. (r, w')) (λ done. record { at = After-any Q r })
          (h.at w p);
  }

module _ {W T A : Type 0} (read : W → T) (Q : T → Type 0) (C : Exn → Type 0) where
  After-read :
      (q : Result A × W) (v : T)
      → After (λ a w. read w ≡ v) (λ e w. C e × (read w ≡ v)) q
      → Q v
      → After (λ a w. Q (read w)) (λ e w. C e × Q (read w)) q
  After-read (ok a, w) v same p = subst Q (sym same) p
  After-read (err e, w) v (c, same) p = (c, subst Q (sym same) p)

  -- What `read` reads stays as it is, so what holds of it does.
  pub Triple-read :
      (m : Act W A)
      → ((v : T) → Triple (λ w. read w ≡ v) m (λ a w. read w ≡ v) (λ e w. C e × (read w ≡ v)))
      → Triple (λ w. Q (read w)) m (λ a w. Q (read w)) (λ e w. C e × Q (read w))
  Triple-read m h = record { at = λ w p. After-read (m w) (read w) ((h (read w)).at w refl) p }

module _ {W T A : Type 0} (read : W → T) (Q : T → Type 0) where
  pub Stays-read : (m : Act W A) → ((v : T) → Stays (λ w. read w ≡ v) m) → Stays (λ w. Q (read w)) m
  Stays-read m h =
      Triple-weaken (λ w p. p) (λ a w p. p) (λ e w p. p.1)
        (Triple-read read Q (λ e. Unit {0}) m
          λ v. Triple-weaken (λ w p. p) (λ a w p. p) (λ e w p. (tt, p)) (h v))
