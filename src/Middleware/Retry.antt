-- ===== src/Middleware/Retry.antt =====
-- runtime/middleware.py, `RetryMiddleware`.
pub mod Attempts
use fluxio.Prelude.{
  ℕ, zero, suc, ◌+◌, ◌-◌, ◌*◌, ◌^◌, ◌/◌, Option, none, some, Bool, true, false, if◌then◌else◌, eqb,
}
use fluxio.Errors.{Exn, Result, ok, err, assertion_error}
use fluxio.Context.{Context}
use fluxio.Runtime.Act.{Act, pure, raise, catching, ◌>>=◌}
use fluxio.Runtime.Types.{Middleware}
use fluxio.Runtime.Executor.{is_stream}

pub data Backoff : Type 0 where
  fixed exponential jitter : Backoff

pub record RetryConfig : Type 0 where
  pub max_attempts : ℕ
  pub backoff : Backoff
  pub base_delay : ℕ  -- in milliseconds
  pub handles : Exn → Bool  -- `isinstance(e, self.exceptions)`

module _ {A W : Type 0} where
  -- What follows the loop.
  unfoldable pub give_up : Option Exn → Act W A
  give_up none = raise assertion_error
  give_up (some e) = raise e

-- `sleep` is `asyncio.sleep`, and `uniform` is `random.uniform(0.5, 1.5)`, in thousandths.
module _ {W : Type 0} (sleep : ℕ → Act W (Unit {0})) (uniform : Act W ℕ) (c : RetryConfig) where
  unfoldable pub scaled : ℕ → ℕ → Act W ℕ
  scaled power u = pure (power * u / 1000)

  unfoldable pub delay : ℕ → Act W ℕ
  unfolding scaled
  delay attempt =
      let power = c.base_delay * 2 ^ (attempt - 1) in
      elim c.backoff [
        | fixed ↦ pure c.base_delay
        | exponential ↦ pure power
        | jitter ↦ uniform >>= scaled power
      ]

  module _ {A : Type 0} where
    unfoldable pub pause : Act W A → ℕ → Act W A
    pause rest d = sleep d >>= λ done. rest

    -- The handler of `except self.exceptions`, given the rest of the loop.
    unfoldable pub on_failure : ℕ → Act W A → Exn → Act W A
    unfolding delay give_up pause
    on_failure attempt rest e =
        if c.handles e
        then if eqb attempt c.max_attempts then give_up (some e) else delay attempt >>= pause rest
        else raise e

    -- `for attempt in range(attempt, self.max_attempts + 1)`, with `left` numbers to come.
    unfoldable pub attempts : Act W A → ℕ → ℕ → Option Exn → Act W A
    unfolding on_failure give_up
    attempts run zero attempt last = give_up last
    attempts run (suc left) attempt last =
        catching run (λ e. on_failure attempt (attempts run left (suc attempt) (some e)) e)

  module _ {M V : Type 0} where
    -- `__call__`
    unfoldable pub call_retry : Middleware M V W
    unfolding is_stream attempts
    call_retry fn ctx next =
        if is_stream fn then next fn ctx else attempts (next fn ctx) c.max_attempts 1 none
