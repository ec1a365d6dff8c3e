-- ===== src/Runtime/Act.antt =====
-- Coroutines: what they await may change the world, also where they raise.
use fluxio.Errors.{Exn, Result, ok, err}

abbrev pub Act : Type 0 → Type 0 → Type 0
Act W A = W → Result A × W

module _ {W A : Type 0} where
  unfoldable pub pure : A → Act W A
  pure a w = (ok a, w)

  unfoldable pub raise : Exn → Act W A
  raise e w = (err e, w)

  unfoldable pub lift : Result A → Act W A
  lift r w = (r, w)

  -- A value that is read off the world, such as a clock.
  unfoldable pub gets : (W → A) → Act W A
  gets f w = (ok (f w), w)

  abbrev pub and_handle : Result A × W → (Exn → Act W A) → Result A × W
  and_handle (ok a, w) handler = (ok a, w)
  and_handle (err e, w) handler = handler e w

  -- `try: m` with a handler for every exception; it re-raises those that it is not for.
  unfoldable pub catching : Act W A → (Exn → Act W A) → Act W A
  catching m handler w = and_handle (m w) handler

module _ {W A B : Type 0} where
  abbrev pub and_then : Result A × W → (A → Act W B) → Result B × W
  and_then (ok a, w) f = f a w
  and_then (err e, w) f = (err e, w)

  infixl 10 ◌>>=◌ ◌>>◌
  unfoldable pub ◌>>=◌ : Act W A → (A → Act W B) → Act W B
  unfolding pure raise lift gets
  ◌>>=◌ m f w = and_then (m w) f

  abbrev pub ◌>>◌ : Act W A → Act W B → Act W B
  m >> n = m >>= λ _. n

module _ {W A : Type 0} where
  abbrev finishing : Result A × W → Act W (Unit {0}) → Result A × W
  finishing (r, w) cleanup = and_then (cleanup w) (λ done w'. (r, w'))

  -- `try: m finally: cleanup`; an exception of the cleanup replaces the result.
  unfoldable pub finally : Act W A → Act W (Unit {0}) → Act W A
  finally m cleanup w = finishing (m w) cleanup
