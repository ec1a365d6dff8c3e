-- ===== src/Testing/Harness.antt =====
-- testing/harness.py, `StepHarness`, and testing/fixtures.py, `make_ctx`.
--
-- A `Session` holds the harness's middlewares; the list of chunks is a cell of the world.
use mathlib.Core.Path.{fun_ext}
use mathlib.Core.List.{append_assoc, append-nil}
use fluxio.Prelude.{
  String, List, [], ◌∷◌, ◌++◌, Option, none, some, Bool, true, ◌&&◌, ◌≡◌, refl, ap, sym, ◌∙◌,
  if◌then◌else◌, contains, inl, inr, Option-cases,
}
use fluxio.Prelude.Dict.{Dict, lookup}
use fluxio.Errors.{Exn, Result, ok, err, key_error, assertion_error}
use fluxio.Context.{Pmap, Context, create, update}
use fluxio.Stage.{stream}
use fluxio.Runtime.Act.{Act, pure, raise, gets, ◌>>=◌, ◌>>◌, and_then}
use fluxio.Runtime.Cell.{Cell}
use fluxio.Runtime.Types.{Outcome, context, send, Stream, generator, StageFunc, Session}
use fluxio.Runtime.Executor.{execute, execute_body, run_stream, chain_run, wrap_each, deliver}
use fluxio.Pipeline.{Initial, as_dict, as_context, coerce_ctx}
use fluxio.Pipeline.Operations.{run_step, patched_by}

-- `make_ctx`
unfoldable pub make_ctx : {M V : Type 0} → Pmap M V → Option (Dict V) → String → Context M
unfolding create
make_ctx P given name = create P given name

-- `getattr(self._fn, "__name__", "stage")`
unfoldable pub or_stage : Option String → String
or_stage none = "stage"
or_stage (some name) = name

module _ {M V W : Type 0} (s : Session M V W) (fn : StageFunc M V W) where
  -- `ctx if isinstance(ctx, Context) else Context.create(ctx)`
  unfoldable pub coerced : Initial M V → Context M
  unfolding create
  coerced (as_dict d) = create s.pmap (some d) "root"
  coerced (as_context c) = c

  unfoldable pub unsent : Context M → Outcome M V → Context M
  unsent c (context d) = d
  unsent c (send r) = update s.pmap c r.patch

  -- `StepHarness.run`
  unfoldable pub harness_run : Initial M V → Act W (Context M)
  unfolding coerced or_stage unsent
  harness_run ctx = do
    let c = coerced ctx
    result ←
        chain_run s.middlewares fn c
          (λ f cc. execute s.pmap s.services (or_stage fn.func_name) f cc none)
    pure (unsent c result)

  module _ (chunks : Cell (List V) W) where
    -- `chunks.append(chunk)`
    unfoldable pub collect_chunk : String → V → Act W (Unit {0})
    collect_chunk node_id chunk w = (ok tt, chunks.write (chunks.read w ++ chunk ∷ []) w)

    abbrev clear : Act W (Unit {0})
    clear w = (ok tt, chunks.write [] w)

    -- `StepHarness.run_stream`
    unfoldable pub harness_run_stream : Initial M V → Act W (List V)
    unfolding coerced or_stage collect_chunk
    harness_run_stream ctx = do
      clear
      result ←
          chain_run s.middlewares fn (coerced ctx)
            (λ f cc. execute s.pmap s.services (or_stage fn.func_name) f cc (some collect_chunk))
      gets chunks.read

-- `actual == expected` on sets
unfoldable pub includes : List String → List String → Bool
unfolding contains
includes xs [] = true
includes xs (y ∷ ys) = contains y xs && includes xs ys

-- `StepHarness.assert_writes`
unfoldable pub assert_writes :
    {M : Type 0} → Context M → Context M → List String → Result (Unit {0})
unfolding includes
assert_writes ctx_before ctx_after keys =
    if includes ctx_after.written keys && includes keys ctx_after.written
    then ok tt
    else err assertion_error

module _ {M V W : Type 0} (s : Session M V W) (fn : StageFunc M V W) where
  coerced-coerce_ctx :
      (active : Cell (List String) W) (ctx : Initial M V)
      → coerce_ctx s active ctx ≡ coerced s fn ctx
  unfolding coerce_ctx coerced
  coerced-coerce_ctx active (as_dict d) = refl
  coerced-coerce_ctx active (as_context c) = refl

  unsent-patched_by :
      (active : Cell (List String) W) (c : Context M) (o : Outcome M V)
      → patched_by s active c o ≡ unsent s fn c o
  unfolding patched_by unsent
  unsent-patched_by active c (context d) = refl
  unsent-patched_by active c (send r) = refl

  abbrev called : String → Context M → Act W (Outcome M V)
  called name c = chain_run s.middlewares fn c (λ f cc. execute s.pmap s.services name f cc none)

  -- `StepHarness.run` with the middlewares of a pipeline runs a stage as `run_step` of the pipeline
  -- does, with the same result and the same effects, where the pipeline knows the stage under the
  -- stage's own `__name__`.
  pub run_step-harness_run :
      (active : Cell (List String) W) (step : String) (ctx : Initial M V)
      → lookup step s.compiled.symbol_table ≡ some fn
      → fn.func_name ≡ some step
      → run_step s active step ctx ≡ harness_run s fn ctx
  unfolding harness_run or_stage run_step
  run_step-harness_run active step ctx known named =
      let c = coerced s fn ctx in
      ap
        (λ (o : Option (StageFunc M V W)). elim o [
          | none ↦ raise (key_error step)
          | some f ↦
              chain_run s.middlewares f (coerce_ctx s active ctx)
                (λ f cc. execute s.pmap s.services step f cc none)
              >>= λ result. pure (patched_by s active (coerce_ctx s active ctx) result)
        ])
        known
      ∙ ap (λ (c : Context M). called step c >>= λ result. pure (patched_by s active c result))
          (coerced-coerce_ctx active ctx)
      ∙ ap (λ (k : Outcome M V → Context M). called step c >>= λ result. pure (k result))
          (fun_ext (λ o. unsent-patched_by active c o))
      ∙ ap
          (λ (name : Option String).
            called (or_stage name) c >>= λ result. pure (unsent s fn c result))
          (sym named)

  module _ (chunks : Cell (List V) W) where
    deliver-collects :
        (node_id : String) (cs : List V) (w : W)
        → (w' : W) × (deliver (some (collect_chunk s fn chunks)) node_id cs w ≡ (ok tt, w'))
          × (chunks.read w' ≡ chunks.read w ++ cs)
    unfolding deliver collect_chunk ◌>>=◌ pure
    deliver-collects node_id [] w = (w, refl, sym (append-nil (chunks.read w)))
    deliver-collects node_id (c ∷ cs) w =
        let next = chunks.write (chunks.read w ++ c ∷ []) w in
        let (w', same, all) = deliver-collects node_id cs next in
        (
          w',
          same,
          all
              ∙ ap (λ l. l ++ cs) (chunks.read-write (chunks.read w ++ c ∷ []) w)
              ∙ append_assoc (chunks.read w) (c ∷ []) cs,
        )

    abbrev pub given_back : Option Exn → List V → Result (List V)
    given_back none cs = ok cs
    given_back (some e) cs = err e

    streamed :
        (name : String) (c : Context M) (produced : Stream V) (w w' : W)
        → chunks.read w' ≡ []
        → (and_then
            (run_stream s.pmap s.services name
              (λ c w. (produced, w'))
              c
              (some (collect_chunk s fn chunks))
              w)
            (λ result. gets chunks.read)).0
          ≡ given_back produced.ending produced.chunks
    unfolding run_stream ◌>>=◌ gets pure raise
    streamed name c produced w w' empty =
        let (after, same, all) = deliver-collects name produced.chunks w' in
        let gathered : chunks.read after ≡ produced.chunks =
          all ∙ ap (λ l. l ++ produced.chunks) empty in
        elim (Option-cases produced.ending) [
          | inl fine ↦ simp (same, fine) (ap Result.ok gathered)
          | inr (e, failed) ↦ simp (same, failed)
        ]

    -- Without middlewares `run_stream` returns the chunks that the generator yields, in order, or
    -- raises what ends the generator; the generator itself does not touch the list of chunks.
    pub harness_run_stream-chunks :
        (g : Context M → W → Stream V × W) (ctx : Initial M V) (w : W)
        → s.middlewares ≡ []
        → fn.node_type ≡ some stream
        → fn.body ≡ generator g
        → ((c : Context M) (w : W) → chunks.read (g c w).1 ≡ chunks.read w)
        → let produced = (g (coerced s fn ctx) (chunks.write [] w)).0 in
          (harness_run_stream s fn chunks ctx w).0 ≡ given_back produced.ending produced.chunks
    unfolding harness_run_stream chain_run wrap_each execute execute_body run_stream ◌>>=◌ gets pure
    harness_run_stream-chunks g ctx w bare streams generates apart =
        let c = coerced s fn ctx in
        let empty = apart c (chunks.write [] w) ∙ chunks.read-write [] w in
        simp (bare, streams, generates, execute, execute_body)
          (streamed (or_stage fn.func_name) c (g c (chunks.write [] w)).0 (chunks.write [] w)
            (g c (chunks.write [] w)).1 empty)
