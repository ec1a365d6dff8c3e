-- ===== src/Runtime/Executor.antt =====
-- runtime/executor.py, runtime/scheduler.py and the chain of runtime/middleware.py: how one stage,
-- and how the branches of a fork, are run.
--
-- `asyncio` interleaves the tasks of a fork and of a stream; they are run here in one order, the
-- branches one after the other and a generator ahead of its reader.
use Prim.Native.String.{◌++◌ as str_append}
use mathlib.Core.List.{reverse}
use fluxio.Prelude.{String, List, [], ◌∷◌, map, Option, none, some, Bool, true, false}
use fluxio.Errors.{Exn, Result, ok, err, type_error}
use fluxio.Context.{Pmap, Context, set}
use fluxio.Stage.{NodeType, sync, async, stream, ForkMode, parallel_mode, fire_forget}
use fluxio.Runtime.Act.{Act, pure, raise, ◌>>◌}
use fluxio.Runtime.Types.{
  Outcome, context, Stream, Body, function, coroutine_function, generator, StageFunc, Next,
  Middleware, Services,
}

module _ {V W : Type 0} where
  -- Chunks are passed on one by one, and gathered.
  unfoldable pub deliver :
      Option (String → V → Act W (Unit {0})) → String → List V → Act W (Unit {0})
  deliver none node_id chunks = pure tt
  deliver (some emit) node_id [] = pure tt
  deliver (some emit) node_id (c ∷ chunks) = do emit node_id c; deliver (some emit) node_id chunks

module _ {W : Type 0} where
  abbrev pub end_of : Option Exn → Act W (Unit {0})
  end_of none = pure tt
  end_of (some e) = raise e

  -- The results of `asyncio.gather(*coros, return_exceptions=True)`.
  unfoldable pub gather : {A : Type 0} → List (Act W A) → W → List (Result A) × W
  gather [] w = ([], w)
  gather (m ∷ ms) w = let (r, w') = m w in let (rs, w'') = gather ms w' in (r ∷ rs, w'')

-- `_is_stream`
unfoldable pub is_stream : {M V W : Type 0} → StageFunc M V W → Bool
is_stream fn = elim fn.node_type [ some stream ↦ true | some _ ↦ false | none ↦ false ]

abbrev pub or_async : Option NodeType → NodeType
or_async none = async
or_async (some t) = t

-- With `return_exceptions=False` the first exception is raised; the other coroutines run on.
unfoldable pub first_error : {A : Type 0} → List (Result A) → Result (List A)
first_error [] = ok []
first_error (err e ∷ rs) = err e
first_error (ok a ∷ rs) = elim (first_error rs) [ err e ↦ err e | ok rest ↦ ok (a ∷ rest) ]

module _ {M : Type 0} where
  -- A branch that failed counts as its unchanged context.
  unfoldable pub settle : List (Context M) → List (Result (Context M)) → List (Context M)
  settle (c ∷ cs) (ok d ∷ rs) = d ∷ settle cs rs
  settle (c ∷ cs) (err e ∷ rs) = c ∷ settle cs rs
  settle _ _ = []

  unfoldable pub collect :
      ForkMode → List (Context M) → List (Result (Context M)) → Result (List (Context M))
  collect parallel_mode contexts results = first_error results
  collect fire_forget contexts results = ok (settle contexts results)

module _ {M V W : Type 0} where
  -- `_run_stream`, with the chunks that the generator yields known ahead, so that the queue, the
  -- producer's task and its cancellation are left to Runtime/Streaming: `await task` raises what ended
  -- the generator.
  unfoldable pub run_stream :
      Pmap M V
      → Services M V W
      → String
      → (Context M → W → Stream V × W)
      → Context M
      → Option (String → V → Act W (Unit {0}))
      → Act W (Outcome M V)
  run_stream P services node_id body ctx emit w =
      let (produced, w') = body ctx w in
      (do
        deliver emit node_id produced.chunks
        end_of produced.ending
        pure (
            context
              (set P ctx (str_append node_id "_stream_result") (services.of_list produced.chunks))))
        w'

  -- `await fn(ctx)` wants a coroutine function: a plain function is called, and then awaiting what it
  -- returned fails. A thread wants a plain function: the coroutine of another one is never awaited, and
  -- using it as a context fails. `async for` wants an async generator.
  unfoldable pub execute_body :
      Pmap M V
      → Services M V W
      → NodeType
      → String
      → Body M V W
      → Context M
      → Option (String → V → Act W (Unit {0}))
      → Act W (Outcome M V)
  execute_body P services stream node_id (generator g) ctx emit =
      run_stream P services node_id g ctx emit
  execute_body P services async node_id (coroutine_function f) ctx emit = f ctx
  execute_body P services async node_id (function f) ctx emit = do f ctx; raise type_error
  execute_body P services sync node_id (function f) ctx emit = f ctx
  execute_body P services _ node_id _ ctx emit = raise type_error

  -- `Executor.run`
  unfoldable pub execute :
      Pmap M V
      → Services M V W
      → String
      → StageFunc M V W
      → Context M
      → Option (String → V → Act W (Unit {0}))
      → Act W (Outcome M V)
  execute P services node_id fn ctx emit =
      execute_body P services (or_async fn.node_type) node_id fn.body ctx emit

  -- `MiddlewareChain._wrap`
  unfoldable pub wrap : Middleware M V W → Next M V W → Next M V W
  wrap mw next fn ctx = mw fn ctx next

  unfoldable pub wrap_each : List (Middleware M V W) → Next M V W → Next M V W
  wrap_each [] chain = chain
  wrap_each (mw ∷ mws) chain = wrap_each mws (wrap mw chain)

  -- `MiddlewareChain.run`
  unfoldable pub chain_run :
      List (Middleware M V W) → StageFunc M V W → Context M → Next M V W → Act W (Outcome M V)
  chain_run mws fn ctx terminal = wrap_each (reverse mws) terminal fn ctx

  -- `Scheduler.run_parallel`, over the names, stages and contexts of the branches, in the one order of
  -- the tasks in which each branch runs to its end before the next one starts.
  unfoldable pub run_parallel :
      List (String × StageFunc M V W × Context M)
      → ForkMode
      → (StageFunc M V W → Context M → String → Act W (Context M))
      → Act W (List (Context M))
  run_parallel branches mode runner w =
      let (results, w') = gather (map (λ (nid, fn, ctx). runner fn ctx nid) branches) w in
      (collect mode (map (λ (nid, fn, ctx). ctx) branches) results, w')
