-- ===== src/Pipeline/Operations.antt =====
-- api/pipeline.py, `Pipeline`: `run_step`, `replay` and `diff`.
use fluxio.Prelude.{[], String, List, Option, none, some, true}
use fluxio.Prelude.Dict.{lookup}
use fluxio.Prelude.Int.{pos}
use fluxio.Errors.{Result, ok, err, key_error, runtime_error, no_checkpoint_error}
use fluxio.Context.{Context, update, snapshot, from_snapshot}
use fluxio.Runtime.Act.{Act, pure, raise, lift, ◌>>=◌, ◌>>◌}
use fluxio.Runtime.Cell.{Cell}
use fluxio.Runtime.Types.{Outcome, context, send, Checkpoint, CheckpointStore, Session}
use fluxio.Runtime.Executor.{execute, chain_run}
use fluxio.Runtime.Loop.{run}
use fluxio.Pipeline.{Initial, find_from, acquire_run_forced, coerce_ctx, enough_fuel}

module _ {V : Type 0} where
  -- A run's checkpoint, or `NoCheckpointError`.
  unfoldable pub or_missing : String → Option (Checkpoint V) → Result (Checkpoint V)
  or_missing run_id none = err (no_checkpoint_error run_id)
  or_missing run_id (some checkpoint) = ok checkpoint

module _ {M V W : Type 0} (s : Session M V W) (active : Cell (List String) W) where
  -- The context after a stage: a `Send` leaves its patch in it, and its route is ignored.
  unfoldable pub patched_by : Context M → Outcome M V → Context M
  patched_by c (context d) = d
  patched_by c (send r) = update s.pmap c r.patch

  -- `run_step`
  unfoldable pub run_step : String → Initial M V → Act W (Context M)
  unfolding patched_by
  run_step step_name ctx = elim (lookup step_name s.compiled.symbol_table) [
    | none ↦ raise (key_error step_name)
    | some fn ↦ do
      let c = coerce_ctx s active ctx
      result ← chain_run s.middlewares fn c (λ f cc. execute s.pmap s.services step_name f cc none)
      pure (patched_by c result)
  ]

  -- The checkpoint that `replay` writes for a step.
  unfoldable pub rewind :
      CheckpointStore V W → String → Option String → Checkpoint V → Context M → Act W (Unit {0})
  rewind store run_id none checkpoint ctx = pure tt
  rewind store run_id (some from_step) checkpoint ctx = do
    ip ← lift (find_from from_step 0 s.compiled.instructions)
    store.save (record {
      run_id = run_id;
      pipeline_version = s.compiled.version;
      ip = pos ip;
      ctx_snapshot = snapshot s.pmap ctx;
      created_at = checkpoint.created_at;
      meta = [];
    })

  abbrev pub replayed : Checkpoint V → Context M
  replayed checkpoint = from_snapshot s.pmap checkpoint.ctx_snapshot "replay" none

  -- `replay`, up to the run of the interpreter.
  unfoldable pub prepare : CheckpointStore V W → String → Option String → Act W (Context M)
  unfolding or_missing rewind
  prepare store run_id from_step = do
    existing ← store.load run_id
    checkpoint ← lift (or_missing run_id existing)
    rewind store run_id from_step checkpoint (replayed checkpoint)
    pure (replayed checkpoint)

  abbrev pub resuming : String → Session M V W
  resuming run_id = record s { run_id = run_id; durable = true }

  -- The body of the `async with`.
  unfoldable pub replay_locked :
      CheckpointStore V W → String → Option String → W → Option (Result (Context M) × W)
  unfolding prepare
  replay_locked store run_id from_step w =
      let (r, w') = prepare store run_id from_step w in
      elim r [
        | err e ↦ some (err e, w')
        | ok ctx ↦ run (resuming run_id) (enough_fuel s active) true ctx w'
      ]

  -- `replay`
  unfoldable pub replay : String → Option String → W → Option (Result (Context M) × W)
  unfolding replay_locked
  replay run_id from_step w = elim s.store [
    | none ↦ some (err runtime_error, w)
    | some store ↦ acquire_run_forced active run_id (replay_locked store run_id from_step) w
  ]
