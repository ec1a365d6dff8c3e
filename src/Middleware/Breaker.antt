-- ===== src/Middleware/Breaker.antt =====
-- runtime/middleware.py, `CircuitBreakerMiddleware`: its two critical sections, and a call.
pub mod Probes
use fluxio.Prelude.{
  ℕ, suc, ◌+◌, ◌-◌, Option, none, some, Bool, true, false, ◌&&◌, not, leb, if◌then◌else◌,
}
use fluxio.Errors.{Exn, Result, ok, err, circuit_open_error, assertion_error}
use fluxio.Runtime.Act.{Act}
use fluxio.Runtime.Types.{Outcome, StageFunc, Next, Middleware}
use fluxio.Runtime.Cell.{Cell}
use fluxio.Context.{Context}

pub data CircuitState : Type 0 where
  closed open_circuit half_open : CircuitState

pub record Settings : Type 0 where
  pub failure_threshold : ℕ
  pub recovery_timeout : ℕ  -- in milliseconds
  pub handles : Exn → Bool  -- `isinstance(e, self.exceptions)`

pub record Breaker : Type 0 where
  pub failures : ℕ
  pub state : CircuitState
  pub opened_at : Option ℕ
  pub probing : Bool

abbrev pub initial : Breaker
initial = record { failures = 0; state = closed; opened_at = none; probing = false }

abbrev start_probe : Breaker → Result Bool × Breaker
start_probe b = (ok true, record b { state = half_open; probing = true })

abbrev elapsed : Option ℕ → ℕ → Result ℕ
elapsed none now = err assertion_error
elapsed (some t) now = ok (now - t)

-- The branch for an open circuit.
unfoldable pub enter_open : Settings → ℕ → Breaker → Result Bool × Breaker
enter_open c now b = elim (elapsed b.opened_at now) [
  | err e ↦ (err e, b)
  | ok waited ↦
      if leb c.recovery_timeout waited && not b.probing
      then start_probe b
      else (err circuit_open_error, b)
]

abbrev dispatch : CircuitState → Settings → ℕ → Breaker → Result Bool × Breaker
dispatch open_circuit c now b = enter_open c now b
dispatch half_open c now b =
    if b.probing then (err circuit_open_error, b) else (ok true, record b { probing = true })
dispatch closed c now b = (ok false, b)

-- Before the stage is called: whether this call is the probe, or the refusal.
unfoldable pub enter : Settings → ℕ → Breaker → Result Bool × Breaker
unfolding enter_open
enter c now b = dispatch b.state c now b

-- After an exception that the breaker handles.
unfoldable pub note_failure : Settings → ℕ → Bool → Breaker → Breaker
note_failure c now true b = record b { probing = false; state = open_circuit; opened_at = some now }
note_failure c now false b =
    if leb c.failure_threshold (suc b.failures)
    then record b { failures = suc b.failures; state = open_circuit; opened_at = some now }
    else record b { failures = suc b.failures }

-- After a success.
unfoldable pub note_success : Bool → Breaker → Breaker
note_success is_probe b = record b {
  probing = if is_probe then false else b.probing;
  failures = 0;
  state = closed;
  opened_at = none;
}

module _ {M V W : Type 0} (cell : Cell Breaker W) (monotonic : W → ℕ) (c : Settings) where
  after_call : Bool → Result (Outcome M V) × W → Result (Outcome M V) × W
  after_call is_probe (ok result, w) =
      (ok result, cell.write (note_success is_probe (cell.read w)) w)
  after_call is_probe (err e, w) =
      if c.handles e
      then (err e, cell.write (note_failure c (monotonic w) is_probe (cell.read w)) w)
      else (err e, w)

  -- `__call__`
  unfoldable pub call_breaker : Middleware M V W
  unfolding after_call
  call_breaker fn ctx next w =
      let (decision, b) = enter c (monotonic w) (cell.read w) in
      let w' = cell.write b w in
      elim decision [ err e ↦ (err e, w') | ok is_probe ↦ after_call is_probe (next fn ctx w') ]
