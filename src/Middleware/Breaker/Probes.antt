-- ===== src/Middleware/Breaker/Probes.antt =====
-- The breaker under concurrent calls: a step relation over its critical sections.
use fluxio.Prelude.{
  ℕ, zero, suc, ◌+◌, ◌≤◌, ◌<◌, List, [], ◌∷◌, Option, none, some, Bool, true, false, ◌≡◌, refl, ◌≢◌,
  arith,
}
use fluxio.Errors.{Exn, ok, err, circuit_open_error}
use fluxio.Middleware.Breaker.{
  closed, open_circuit, half_open, Settings, Breaker, initial, enter_open, enter, note_failure,
  note_success,
}

-- The breaker, and the calls that are under way: for each, whether it is the probe.
pub record Situation : Type 0 where
  pub breaker : Breaker
  pub calls : List Bool

abbrev pub probes : List Bool → ℕ
probes [] = 0
probes (true ∷ calls) = suc (probes calls)
probes (false ∷ calls) = probes calls

-- The calls without the one at an index.
abbrev pub leave : ℕ → List Bool → List Bool
leave i [] = []
leave zero (p ∷ calls) = calls
leave (suc i) (p ∷ calls) = p ∷ leave i calls

abbrev pub call_at : ℕ → List Bool → Option Bool
call_at i [] = none
call_at zero (p ∷ calls) = some p
call_at (suc i) (p ∷ calls) = call_at i calls

-- A call ends with an exception that `except self.exceptions` lets through: no line of `__call__`
-- runs after it.
abbrev pub escape : ℕ → Situation → Situation
escape i s = record { breaker = s.breaker; calls = leave i s.calls }

-- A call comes in, or one that is under way ends: with a success, with an exception that the
-- breaker handles, or with another one.
pub data Step (c : Settings) (s : Situation) (t : Situation) : Type 0 where
  admitted :
      (now : ℕ) (is_probe : Bool) (b : Breaker)
      → enter c now s.breaker ≡ (ok is_probe, b)
      → t ≡ record { breaker = b; calls = is_probe ∷ s.calls }
      → Step c s t
  refused :
      (now : ℕ) (e : Exn) (b : Breaker)
      → enter c now s.breaker ≡ (err e, b)
      → t ≡ record { breaker = b; calls = s.calls }
      → Step c s t
  succeeded :
      (i : ℕ) (is_probe : Bool)
      → call_at i s.calls ≡ some is_probe
      → t ≡ record { breaker = note_success is_probe s.breaker; calls = leave i s.calls }
      → Step c s t
  failed :
      (now i : ℕ) (is_probe : Bool)
      → call_at i s.calls ≡ some is_probe
      → t ≡ record { breaker = note_failure c now is_probe s.breaker; calls = leave i s.calls }
      → Step c s t
  escaped :
      (i : ℕ) (is_probe : Bool) → call_at i s.calls ≡ some is_probe → t ≡ escape i s → Step c s t

pub data Reach (c : Settings) (s : Situation) : Situation → Type 0 where
  here : Reach c s s
  then_step : {t u : Situation} → Reach c s t → Step c t u → Reach c s u

abbrev as_count : Bool → ℕ
as_count true = 1
as_count false = 0

pub record Inv (s : Situation) : Type 0 where
  -- a probe under way is flagged
  pub one_probe : probes s.calls ≤ as_count s.breaker.probing
  -- the time of opening is known
  pub opened : s.breaker.state ≡ open_circuit → s.breaker.opened_at ≢ none

probes-leave :
    (i : ℕ) (p : Bool) (calls : List Bool)
    → call_at i calls ≡ some p
    → probes calls ≡ as_count p + probes (leave i calls)
probes-leave i p [] h = cc
probes-leave zero true (q ∷ calls) h = ground arith
probes-leave zero false (q ∷ calls) h = ground arith
probes-leave (suc i) p (true ∷ calls) h = omega (arith, probes-leave i p calls h)
probes-leave (suc i) p (false ∷ calls) h = probes-leave i p calls h

Step-Inv : (c : Settings) (s t : Situation) → Step c s t → Inv s → Inv t
unfolding enter note_failure note_success
Step-Inv c s t (admitted now is_probe b e t-eq) h = ground arith
Step-Inv c s t (refused now x b e t-eq) h = ground arith
Step-Inv c s t (succeeded i p at t-eq) h = ground (arith, probes-leave i p s.calls at)
Step-Inv c s t (failed now i p at t-eq) h = ground (arith, probes-leave i p s.calls at)
Step-Inv c s t (escaped i p at t-eq) h = ground (arith, probes-leave i p s.calls at)

abbrev pub idle : Situation
idle = record { breaker = initial; calls = [] }

idle-Inv : Inv idle
idle-Inv = ground arith

Reach-Inv : (c : Settings) (s t : Situation) → Inv s → Reach c s t → Inv t
Reach-Inv c s t h here = h
Reach-Inv c s t h (then_step {t = u} r st) = Step-Inv c u t st (Reach-Inv c s u h r)

-- However calls come in and end, at most one probe is under way, and then the breaker is flagged as
-- probing; and an open circuit knows when it was opened, so the assertion in `__call__` holds.
pub Reach-one_probe :
    (c : Settings) (t : Situation)
    → Reach c idle t
    → (probes t.calls ≤ 1)
      × (0 < probes t.calls → t.breaker.probing ≡ true)
      × (t.breaker.state ≡ open_circuit → t.breaker.opened_at ≢ none)
Reach-one_probe c t r =
    let inv = Reach-Inv c idle t idle-Inv r in (ground arith, ground arith, inv.opened)

-- A breaker that waits for a probe which is not under way.
record IsStuck (s : Situation) : Type 0 where
  half : s.breaker.state ≡ half_open
  flagged : s.breaker.probing ≡ true
  alone : s.calls ≡ []

enter-half_open :
    (c : Settings) (now : ℕ) (b b' : Breaker)
    → enter c now b ≡ (ok true, b')
    → (b'.state ≡ half_open) × (b'.probing ≡ true)
unfolding enter enter_open
enter-half_open c now b b' h = ground arith

Step-IsStuck : (c : Settings) (s t : Situation) → IsStuck s → Step c s t → IsStuck t
unfolding enter
Step-IsStuck c s t h (admitted now is_probe b e t-eq) = ground arith
Step-IsStuck c s t h (refused now x b e t-eq) = ground arith
Step-IsStuck c s t h (succeeded i p at t-eq) = ground arith
Step-IsStuck c s t h (failed now i p at t-eq) = ground arith
Step-IsStuck c s t h (escaped i p at t-eq) = ground arith

Reach-IsStuck : (c : Settings) (s t : Situation) → IsStuck s → Reach c s t → IsStuck t
Reach-IsStuck c s t h here = h
Reach-IsStuck c s t h (then_step {t = u} r st) = Step-IsStuck c u t (Reach-IsStuck c s u h r) st

-- When a call was let in as the probe while no other was under way, and ends with an exception that
-- the breaker does not handle, every later call is refused, at any time and whatever calls come in
-- between.
pub escape-enter :
    (c : Settings) (now later : ℕ) (b b' : Breaker) (t : Situation)
    → enter c now b ≡ (ok true, b')
    → Reach c (escape 0 (record { breaker = b'; calls = true ∷ [] })) t
    → enter c later t.breaker ≡ (err circuit_open_error, t.breaker)
unfolding enter
escape-enter c now later b b' t e r =
    let (half, flagged) = enter-half_open c now b b' e in
    let stuck =
      Reach-IsStuck c (record { breaker = b'; calls = [] }) t
        (record { half = half; flagged = flagged; alone = refl }) r in
    ground (arith, stuck.half, stuck.flagged)

-- The breaker after calls that come one after the other, the last one first in the list: `true` for
-- a success, `false` for a failure.
abbrev pub after_calls : Settings → ℕ → List Bool → Breaker
after_calls c now [] = initial
after_calls c now (true ∷ calls) = note_success false (after_calls c now calls)
after_calls c now (false ∷ calls) = note_failure c now false (after_calls c now calls)

-- The failures since the last success.
abbrev pub streak : List Bool → ℕ
streak [] = 0
streak (true ∷ calls) = 0
streak (false ∷ calls) = suc (streak calls)

-- No success or failure so far came after `n` consecutive failures.
abbrev pub NeverReached : ℕ → List Bool → Type 0
NeverReached n [] = 0 < n
NeverReached n (o ∷ calls) = (streak (o ∷ calls) < n) × NeverReached n calls

NeverReached-streak : (n : ℕ) (calls : List Bool) → NeverReached n calls → streak calls < n
NeverReached-streak n [] h = h
NeverReached-streak n (o ∷ calls) h = h.0

after_calls-below :
    (c : Settings) (now : ℕ) (calls : List Bool)
    → NeverReached c.failure_threshold calls
    → ((after_calls c now calls).state ≡ closed)
      × ((after_calls c now calls).failures ≡ streak calls)
unfolding note_failure note_success
after_calls-below c now [] h = (refl, refl)
after_calls-below c now (true ∷ calls) h = (refl, refl)
after_calls-below c now (false ∷ calls) h = ground (arith, after_calls-below c now calls h.1)

-- While calls come one after the other and fewer of them than the threshold ever failed in a row,
-- the circuit is closed; and then the failure that makes the failures since the last success reach
-- the threshold opens it.
pub after_calls-opens :
    (c : Settings) (now : ℕ) (calls : List Bool)
    → NeverReached c.failure_threshold calls
    → ((after_calls c now calls).state ≡ closed)
      × (suc (streak calls) ≡ c.failure_threshold
          → (after_calls c now (false ∷ calls)).state ≡ open_circuit)
unfolding note_failure note_success
after_calls-opens c now calls h =
    let below = after_calls-below c now calls h in (below.0, ground (arith, below.1))
