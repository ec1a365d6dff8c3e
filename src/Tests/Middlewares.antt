-- ===== src/Tests/Middlewares.antt =====
-- Runs of the middlewares.
use fluxio.Prelude.{
  Bool, ℕ, suc, ◌+◌, ◌*◌, ◌≤◌, ◌<◌, ◌≢◌, String, List, [], ◌∷◌, none, some, true, false, ◌≡◌, refl,
  length, arith,
}
use fluxio.Prelude.Dict.{Dict, lookup}
use fluxio.Errors.{Exn, user_error, ok, err, circuit_open_error}
use fluxio.Context.{Context, get}
use fluxio.Runtime.Act.{Act, ◌>>=◌}
use fluxio.Runtime.Types.{context, StageFunc, Next, Middleware}
use fluxio.Runtime.Executor.{is_stream, chain_run}
use fluxio.Runtime.Chain.{chain_run-cons}
use fluxio.Middleware.Breaker.{
  closed, open_circuit, half_open, Settings, Breaker, initial, enter, note_failure,
}
use fluxio.Middleware.Breaker.Probes.{
  Situation, probes, Step, admitted, refused, failed, Reach, here, then_step, idle, Reach-one_probe,
  escape-enter, after_calls, streak, after_calls-opens, NeverReached,
}
use fluxio.Middleware.RateLimit.{Rate, passes}
use fluxio.Middleware.RateLimit.Window.{recent, Ascends, AllBefore, let_through-few}
use fluxio.Middleware.Retry.{RetryConfig, exponential, call_retry}
use fluxio.Middleware.Retry.Attempts.{Quiet, call_retry-calls}
use fluxio.Middleware.Cache.{
  CacheEntry, CacheSettings, KeyServices, memory_get, memory_set, memory_cache, call_cache,
}
use fluxio.Middleware.Cache.Hits.{call_cache-hit}
use fluxio.Tests.Fixtures.{values, whole_world, an_empty_context, plain_stage}

abbrev breaker_settings : Settings
breaker_settings = record { failure_threshold = 1; recovery_timeout = 30000; handles = λ e. true }

-- The first call fails and opens the circuit.
abbrev after_failure : Breaker
after_failure = record { failures = 1; state = open_circuit; opened_at = some 5; probing = false }

abbrev under_probe : Breaker
under_probe = record after_failure { state = half_open; probing = true }

abbrev first_called : Situation
first_called = record { breaker = initial; calls = false ∷ [] }

abbrev first_failed : Situation
first_failed = record { breaker = after_failure; calls = [] }

abbrev probed : Situation
probed = record { breaker = under_probe; calls = true ∷ [] }

abbrev probe_escaped : Situation
probe_escaped = record { breaker = under_probe; calls = [] }

calls_first : Step breaker_settings idle first_called
unfolding enter
calls_first = admitted 0 false initial refl refl

fails_first : Step breaker_settings first_called first_failed
unfolding note_failure
fails_first = failed 5 0 false refl refl

probes_after : Step breaker_settings first_failed probed
unfolding enter
probes_after = admitted 40000 true under_probe refl refl

reaches_probe : Reach breaker_settings idle probed
reaches_probe = then_step (then_step (then_step here calls_first) fails_first) probes_after

Reach-one_probe_example :
    (probes (true ∷ []) ≤ 1)
    × (0 < probes (true ∷ []) → under_probe.probing ≡ true)
    × (under_probe.state ≡ open_circuit → under_probe.opened_at ≢ none)
Reach-one_probe_example = Reach-one_probe breaker_settings probed reaches_probe

refuses : Step breaker_settings probe_escaped probe_escaped
unfolding enter
refuses = refused 50000 circuit_open_error under_probe refl refl

lets_probe_in : enter breaker_settings 40000 after_failure ≡ (ok true, under_probe)
unfolding enter
lets_probe_in = refl

escape-enter_example :
    enter breaker_settings 900000 under_probe ≡ (err circuit_open_error, under_probe)
escape-enter_example =
    escape-enter breaker_settings 40000 900000 after_failure under_probe probe_escaped lets_probe_in
      (then_step here refuses)

abbrev of_three : Settings
of_three = record breaker_settings { failure_threshold = 3 }

-- A failure, a success, and two failures.
abbrev ups_and_downs : List Bool
ups_and_downs = false ∷ false ∷ true ∷ false ∷ []

ups_and_downs-NeverReached : NeverReached 3 ups_and_downs
ups_and_downs-NeverReached = (omega arith, (omega arith, (omega arith, (omega arith, omega arith))))

after_calls-opens_example :
    ((after_calls of_three 5 ups_and_downs).state ≡ closed)
    × (suc (streak ups_and_downs) ≡ of_three.failure_threshold
        → (after_calls of_three 5 (false ∷ ups_and_downs)).state ≡ open_circuit)
after_calls-opens_example = after_calls-opens of_three 5 ups_and_downs ups_and_downs-NeverReached

abbrev two_a_second : Rate
two_a_second = record { rate = 2; per = 1 }

abbrev times : List ℕ
times = 0 ∷ 100 ∷ 500 ∷ 1000 ∷ 1100 ∷ []

times-Ascends : Ascends 0 times
times-Ascends = (omega arith, (omega arith, (omega arith, (omega arith, (omega arith, tt)))))

times-AllBefore : AllBefore 1100 times
times-AllBefore = (omega arith, (omega arith, (omega arith, (omega arith, (omega arith, tt)))))

let_through-few_example : length (recent 1100 (passes two_a_second times [] []).1) * 1 < 2 + 1
let_through-few_example =
    let_through-few two_a_second times 1100 (omega arith) times-Ascends times-AllBefore

-- The world counts the calls.
abbrev sleep : ℕ → Act ℕ (Unit {0})
sleep d w = (ok tt, w)

abbrev uniform : Act ℕ ℕ
uniform w = (ok 1000, w)

abbrev three_attempts : RetryConfig
three_attempts = record {
  max_attempts = 3;
  backoff = exponential;
  base_delay = 500;
  handles = λ e. true;
}

abbrev the_stage : {W : Type 0} → StageFunc (Dict ℕ) ℕ W
the_stage = plain_stage 1 "stage" none none

abbrev always_fails : Next (Dict ℕ) ℕ ℕ
always_fails fn ctx w = (err (user_error 3), suc w)

abbrev counted : ℕ → ℕ
counted w = w

sleep-Quiet : (d : ℕ) → Quiet counted (sleep d)
sleep-Quiet d w = (tt, w, refl, refl)

uniform-Quiet : Quiet counted uniform
uniform-Quiet w = (1000, w, refl, refl)

counts : (w : ℕ) → counted (always_fails the_stage an_empty_context w).1 ≡ suc (counted w)
counts w = refl

not_a_stream : (W : Type 0) → is_stream (the_stage {W = W}) ≡ false
unfolding is_stream
not_a_stream W = refl

call_retry-calls_example :
    let r = call_retry sleep uniform three_attempts the_stage an_empty_context always_fails 0 in
    (r.1 ≤ 0 + 3) × ((e : Exn) → r.0 ≡ err e → true ≡ true → r.1 ≡ 0 + 3)
call_retry-calls_example =
    call_retry-calls sleep uniform three_attempts counted sleep-Quiet uniform-Quiet the_stage
      an_empty_context always_fails 0 (not_a_stream ℕ) counts

abbrev CacheWorld : Type 0
CacheWorld = Dict (CacheEntry ℕ)

abbrev key_services : KeyServices (Dict ℕ) ℕ CacheWorld
key_services = record {
  key_fn = none;
  dumps = λ d. some "snapshot";
  repr = λ d. "snapshot";
  sha256 = λ text. text;
}

abbrev clock : CacheWorld → ℕ
clock w = 5

abbrev cache_settings : CacheSettings (Dict ℕ) ℕ CacheWorld
cache_settings = record {
  store = memory_cache (whole_world CacheWorld);
  ttl = 300;
  key_services = key_services;
  time = clock;
}

abbrev answers : Next (Dict ℕ) ℕ CacheWorld
answers fn ctx w = (ok (context (record ctx { entries = ("x", 1) ∷ []; written = "x" ∷ [] })), w)

abbrev fails : Next (Dict ℕ) ℕ CacheWorld
fails fn ctx w = (err (user_error 0), w)

abbrev answered : Context (Dict ℕ)
answered = record an_empty_context { entries = ("x", 1) ∷ []; written = "x" ∷ [] }

abbrev after_answer : CacheWorld
after_answer = (call_cache values cache_settings the_stage an_empty_context answers []).1

first_call :
    call_cache values cache_settings the_stage an_empty_context answers []
    ≡ (ok (context answered), after_answer)
unfolding call_cache ◌>>=◌ memory_get lookup memory_set
first_call = refl

call_cache-hit_example :
    (d : Context (Dict ℕ)) × (call_cache values cache_settings the_stage an_empty_context fails
        after_answer
      ≡ (ok (context d), after_answer))
    × ((j : String) → get values d j ≡ get values answered j)
    × (d.written ≡ answered.written)
call_cache-hit_example =
    call_cache-hit values (whole_world CacheWorld) 300 key_services clock the_stage an_empty_context
      answers fails [] answered after_answer (not_a_stream CacheWorld) first_call (omega arith)

abbrev tags : ℕ → Middleware (Dict ℕ) ℕ ℕ
tags n fn ctx next w = next fn ctx (w * 10 + n)

abbrev gives : Next (Dict ℕ) ℕ ℕ
gives fn ctx w = (ok (context ctx), w)

chain_run-cons_example :
    chain_run (tags 1 ∷ tags 2 ∷ []) the_stage an_empty_context gives
    ≡ tags 1 the_stage an_empty_context (λ f c. chain_run (tags 2 ∷ []) f c gives)
chain_run-cons_example = chain_run-cons (tags 1) (tags 2 ∷ []) the_stage an_empty_context gives
