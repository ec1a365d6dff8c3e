-- ===== src/Middleware/Retry/Attempts.antt =====
-- How often `RetryMiddleware` of runtime/middleware.py runs a stage.
use fluxio.Prelude.{
  ℕ, zero, suc, ◌+◌, ◌≤◌, Option, none, some, true, false, ◌≡◌, refl, ap, arith, eqb, Bool-cases,
  inl, inr, sym, ◌∙◌, ◌*◌, ◌-◌, ◌^◌, ◌/◌,
}
use fluxio.Errors.{Exn, Result, ok, err, assertion_error}
use fluxio.Context.{Context}
use fluxio.Runtime.Act.{Act, pure, raise, catching, and_handle, ◌>>=◌}
use fluxio.Runtime.Types.{StageFunc, Next}
use fluxio.Runtime.Executor.{is_stream}
use fluxio.Middleware.Retry.{
  RetryConfig, fixed, exponential, jitter, scaled, delay, pause, give_up, on_failure, attempts,
  call_retry,
}

-- A coroutine that does not raise and does not touch a counter.
abbrev pub Quiet : {A W : Type 0} → (W → ℕ) → Act W A → Type 0
Quiet {A} {W} calls m = (w : W) → (a : A) × (w' : W) × (m w ≡ (ok a, w')) × (calls w' ≡ calls w)

module _ {W A : Type 0} (calls : W → ℕ) where
  Quiet-pure : (a : A) → Quiet calls (pure {W = W} a)
  unfolding pure
  Quiet-pure a w = (a, w, refl, refl)

module _ {W A B : Type 0} (calls : W → ℕ) where
  Quiet-bind :
      (m : Act W A) (f : A → Act W B)
      → Quiet calls m
      → ((a : A) → Quiet calls (f a))
      → Quiet calls (m >>= f)
  unfolding ◌>>=◌
  Quiet-bind m f hm hf w =
      let (a, w', same, kept) = hm w in
      let (b, w'', same', kept') = hf a w' in (b, w'', rw same same', kept' ∙ kept)

module _ {W : Type 0} (sleep : ℕ → Act W (Unit {0})) (uniform : Act W ℕ) (c : RetryConfig)
    (calls : W → ℕ) (sleep-Quiet : (d : ℕ) → Quiet calls (sleep d))
    (uniform-Quiet : Quiet calls uniform) where
  delay-Quiet : (attempt : ℕ) → Quiet calls (delay sleep uniform c attempt)
  unfolding delay scaled
  delay-Quiet attempt =
      let power = c.base_delay * 2 ^ (attempt - 1) in
      elim c.backoff
        as (λ b. Quiet calls (elim b [
          | fixed ↦ pure c.base_delay
          | exponential ↦ pure power
          | jitter ↦ uniform >>= scaled sleep uniform c power
        ])) [
          | fixed ↦ Quiet-pure calls c.base_delay
          | exponential ↦ Quiet-pure calls power
          | jitter ↦
              Quiet-bind calls uniform (scaled sleep uniform c power) uniform-Quiet
                (λ u. Quiet-pure calls (power * u / 1000))
        ]

  module _ {A : Type 0} where
    -- What is shown of the rest of the loop.
    record Bounded (left : ℕ) (w : W) (r : Result A × W) : Type 0 where
      at_most : calls r.1 ≤ calls w + left
      exhausted : (e : Exn) → r.0 ≡ err e → c.handles e ≡ true → calls r.1 ≡ calls w + left

    Bounded-after :
        {B : Type 0} (m : Act W B) (f : B → Act W A) (left : ℕ) (w : W)
        → Quiet calls m
        → ((b : B) (w' : W) → calls w' ≡ calls w → Bounded left w' (f b w'))
        → Bounded left w ((m >>= f) w)
    unfolding ◌>>=◌
    Bounded-after m f left w hm hf =
        let (b, w', same, kept) = hm w in
        let rest = hf b w' kept in
        rw same record {
          at_most = rw (sym kept) rest.at_most;
          exhausted = λ e failed handled. rest.exhausted e failed handled ∙ ap (λ n. n + left) kept;
        }

    Bounded-raise :
        (e : Exn) (left : ℕ) (w : W)
        → (c.handles e ≡ true → left ≡ 0)
        → Bounded left w (raise {W = W} {A = A} e w)
    unfolding raise
    Bounded-raise e left w last_one = record {
      at_most = omega arith;
      exhausted = λ x same handled.
          let none_left = last_one (cc (same, handled)) in omega (arith, none_left);
    }

    on_failure-Bounded :
        (left attempt : ℕ) (rest : Act W A) (e : Exn) (w : W)
        → attempt + left ≡ c.max_attempts
        → ((w : W) → Bounded left w (rest w))
        → Bounded left w (on_failure sleep uniform c attempt rest e w)
    unfolding on_failure pause give_up
    on_failure-Bounded left attempt rest e w sum h = elim (Bool-cases (c.handles e)) [
      | inl handled ↦ elim (Bool-cases (eqb attempt c.max_attempts)) [
        | inl last_one ↦ rw (handled, last_one) (Bounded-raise e left w (λ h. ground (arith)))
        | inr more ↦
            rw (handled, more)
              (Bounded-after (delay sleep uniform c attempt) _ left w (delay-Quiet attempt)
                (λ d w' kept.
                  Bounded-after (sleep d) (λ done. rest) left w' (sleep-Quiet d)
                    (λ done w'' kept'. h w'')))
      ]
      | inr other ↦ rw other (Bounded-raise e left w (λ h. cc))
    ]

    caught-Bounded :
        (left : ℕ) (r : Result A × W) {handler : Exn → Act W A} (w : W)
        → calls r.1 ≡ suc (calls w)
        → ((e : Exn) (w' : W) → Bounded left w' (handler e w'))
        → Bounded (suc left) w (and_handle r handler)
    caught-Bounded left (ok a, w') w counted h = record {
      at_most = omega (arith, counted);
      exhausted = λ x same handled. absurd (cc same);
    }
    caught-Bounded left (err e, w') w counted h =
        let rest = h e w' in
        record {
          at_most = omega (arith, rest.at_most, counted);
          exhausted = λ x same handled. omega (arith, rest.exhausted x same handled, counted);
        }

    attempts-Bounded :
        (run : Act W A) (left attempt : ℕ) (last : Option Exn) (w : W)
        → ((w : W) → calls (run w).1 ≡ suc (calls w))
        → attempt + left ≡ suc c.max_attempts
        → Bounded left w (attempts sleep uniform c run left attempt last w)
    unfolding attempts catching give_up
    attempts-Bounded run zero attempt none w counts sum =
        Bounded-raise assertion_error 0 w (λ h. refl)
    attempts-Bounded run zero attempt (some e) w counts sum = Bounded-raise e 0 w (λ h. refl)
    attempts-Bounded run (suc left) attempt last w counts sum =
        caught-Bounded left (run w) w (counts w) (λ e w'.
          on_failure-Bounded left attempt (attempts sleep uniform c run left (suc attempt) (some e))
            e w' (omega (arith, sum))
            (λ w''.
              attempts-Bounded run left (suc attempt) (some e) w'' counts (omega (arith, sum))))

  -- Where sleeping and the jitter do not raise, and running the stage counts one call whatever comes
  -- of it: a retry of a stage that is no stream makes at most `max_attempts` calls, and exactly that
  -- many where it ends in an exception that it retries on.
  pub call_retry-calls :
      {M V : Type 0} (fn : StageFunc M V W) (ctx : Context M) (next : Next M V W) (w : W)
      → is_stream fn ≡ false
      → ((w : W) → calls (next fn ctx w).1 ≡ suc (calls w))
      → let r = call_retry sleep uniform c fn ctx next w in
        (calls r.1 ≤ calls w + c.max_attempts)
        × ((e : Exn) → r.0 ≡ err e → c.handles e ≡ true → calls r.1 ≡ calls w + c.max_attempts)
  unfolding call_retry
  call_retry-calls fn ctx next w plain counts =
      let b = attempts-Bounded (next fn ctx) c.max_attempts 1 none w counts (omega arith) in
      rw plain (b.at_most, b.exhausted)
