-- ===== src/Observability/Langfuse/Runs.antt =====
-- A run of the interpreter under the callback of observability/langfuse.py.
use fluxio.Prelude.{
  ℕ, zero, suc, String, List, [], ◌∷◌, ◌||◌, Option, none, some, Bool, true, false, ◌≡◌, ◌⊎◌, refl,
  length,
}
use fluxio.Prelude.Int.{pos}
use fluxio.Errors.{Result, ok, err, is_exception, index_error}
use fluxio.Context.{Context}
use fluxio.Bytecode.{OpCode, fork, Instruction}
use fluxio.Runtime.Cell.{Cell}
use fluxio.Runtime.Types.{Session, CheckpointStore, Body, Schema}
use fluxio.Runtime.Interpreter.{Frame, Fetched, fetch, past_end, found, out_of_range}
use fluxio.Runtime.Loop.{exec, handle, loop, begin, run}
use fluxio.Runtime.Keeps.{After}
use fluxio.Runtime.Keeps.Calls.{IsConfined, IsConfinedStore}
use fluxio.Observability.Langfuse.{Tracer, SpanKey}
use fluxio.Observability.Langfuse.Spans.{is_open}
use fluxio.Observability.Langfuse.Notify.{IsObserved}
use fluxio.Compiler.Build.{Nodes}
use fluxio.Compiler.Program.{compile}
use fluxio.Runtime.Termination.{ended, ended-run}
use fluxio.Observability.Langfuse.Closing.{
  Timed, exec-Executes, Shut, Closes, ClosesOnError, handle-Closes, finish-Closes, begin-Timed,
}

abbrev is_fork : OpCode → Bool
is_fork fork = true
is_fork _ = false

-- The code has an instruction of a `Parallel` block.
abbrev pub has_fork : List Instruction → Bool
has_fork [] = false
has_fork (x ∷ code) = is_fork x.op || has_fork code

module _ {M V W Span : Type 0} (s : Session M V W) (tracer : Tracer Span W)
    (spans : Cell (List (SpanKey × Span)) W) (observed : IsObserved s tracer spans)
    (confined : (v : List (SpanKey × Span)) → IsConfined (λ w. spans.read w ≡ v) s)
    (stores : (v : List (SpanKey × Span)) (store : CheckpointStore V W)
      → s.store ≡ some store
      → IsConfinedStore (λ w. spans.read w ≡ v) store) where
  abbrev AfterRun : Option (Result (Context M) × W) → Type 0
  AfterRun none = Unit {0}
  AfterRun (some q) =
      After (Closes s tracer spans observed confined stores)
        (ClosesOnError s tracer spans observed confined stores) q

  rest-AfterRun :
      (fuel started : ℕ) (f : Frame M) (q : Result (Frame M) × W)
      → ((f' : Frame M) (w : W)
          → Timed s tracer spans observed confined stores f' w
          → AfterRun (loop s fuel started f' w))
      → After
          (Timed s tracer spans observed confined stores)
          (λ e. Timed s tracer spans observed confined stores f)
          q
      → AfterRun (elim q.0 [ ok f' ↦ loop s fuel started f' q.1 | err e ↦ some (handle s e f q.1) ])
  rest-AfterRun fuel started f (ok f', w) h p = h f' w p
  rest-AfterRun fuel started f (err e, w) h p =
      (handle-Closes s tracer spans observed confined stores e f).at w p

  round-AfterRun :
      (fuel started : ℕ) (f : Frame M) (w : W)
      → ((f' : Frame M) (w' : W)
          → Timed s tracer spans observed confined stores f' w'
          → AfterRun (loop s fuel started f' w'))
      → Timed s tracer spans observed confined stores f w
      → (x : Fetched) → fetch s.compiled.instructions f.ip ≡ x
      → AfterRun (loop s (suc fuel) started f w)
  unfolding loop
  round-AfterRun fuel started f w h p past_end e =
      rw (loop, e) ((finish-Closes s tracer spans observed confined stores f).at w p)
  round-AfterRun fuel started f w h p out_of_range e =
      rw (loop, e) ((handle-Closes s tracer spans observed confined stores index_error f).at w p)
  round-AfterRun fuel started f w h p (found x) e =
      rw (loop, e)
        (rest-AfterRun fuel started f (exec s started x f w) h
          ((exec-Executes s tracer spans observed confined stores started x f).at w p))

  loop-AfterRun :
      (fuel started : ℕ) (f : Frame M) (w : W)
      → Timed s tracer spans observed confined stores f w
      → AfterRun (loop s fuel started f w)
  unfolding loop
  loop-AfterRun zero started f w p = tt
  loop-AfterRun (suc fuel) started f w p =
      round-AfterRun fuel started f w (λ f' w'. loop-AfterRun fuel started f' w') p _ refl

  begun-AfterRun :
      (fuel : ℕ) (q : Result (Frame M) × W)
      → After
          (Timed s tracer spans observed confined stores)
          (ClosesOnError s tracer spans observed confined stores)
          q
      → AfterRun (elim q.0 [
        | err e ↦ some (err e, q.1)
        | ok f ↦ loop s fuel (s.services.monotonic q.1) f q.1
      ])
  begun-AfterRun fuel (ok f, w) p = loop-AfterRun fuel (s.services.monotonic w) f w p
  begun-AfterRun fuel (err e, w) p = p

  run-AfterRun :
      (fuel : ℕ) (resume : Bool) (ctx : Context M) (w : W)
      → (Shut s tracer spans observed confined stores) w
      → AfterRun (run s fuel resume ctx w)
  unfolding run
  run-AfterRun fuel resume ctx w p =
      begun-AfterRun fuel (begin s resume ctx w)
        ((begin-Timed s tracer spans observed confined stores resume ctx).at w p)

  ended-AfterRun :
      (o : Option (Result (Context M) × W))
      → ended o ≡ true
      → AfterRun o
      → (q : Result (Context M) × W) × (o ≡ some q)
        × After
            (Closes s tracer spans observed confined stores)
            (ClosesOnError s tracer spans observed confined stores)
            q
  ended-AfterRun none e p = absurd (cc)
  ended-AfterRun (some q) e p = (q, refl, p)

  -- A run of a compiled pipeline without `Parallel` blocks, under the callback of this module, ends,
  -- and where an `Exception` ends it the callback holds no span of the run in `_spans` any more,
  -- neither the root nor that of a step. It held none before; the client does not raise; other callbacks raise nothing but `Exception`s; these, the
  -- stages, middlewares, timeouts and the store do not touch the spans; the store's `delete` raises no
  -- `Exception`; and a resumed run starts at an index that is not negative.
  pub run-closes :
      (version : List Instruction → String) (auto : Bool) (nodes : Nodes (Body M V W) (Schema V))
      → compile version auto nodes ≡ ok s.compiled
      → has_fork s.compiled.instructions ≡ false
      → (resume : Bool) (ctx : Context M) (w : W)
      → ((f : Frame M) (w' : W) → begin s resume ctx w ≡ (ok f, w') → (i : ℕ) × (f.ip ≡ pos i))
      → ((step : Option String) → is_open tracer spans w (s.run_id, step) ≡ false)
      → (q : Result (Context M) × W) × (run s (suc (length s.compiled.instructions)) resume ctx w
          ≡ some q)
        × After
            (λ c w'. Unit {0})
            (λ e w'.
              (is_exception e ≡ false)
              ⊎ ((step : Option String) → is_open tracer spans w' (s.run_id, step) ≡ false))
            q
  run-closes version auto nodes compiled single resume ctx w start shut =
      ended-AfterRun _ (ended-run s version auto nodes compiled resume ctx w start)
        (run-AfterRun _ resume ctx w shut)
