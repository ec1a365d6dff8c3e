-- ===== src/Pipeline.antt =====
-- api/pipeline.py, `Pipeline`: the lock on run ids, `invoke` and `_find_step_ip`.
--
-- A `Session` holds the fields of the object but for `_active_runs`, which is a cell of the world.
pub mod Lock
pub mod Steps
pub mod Operations
pub mod Replay
pub mod Diff
pub mod Explain
pub mod Construct
pub mod Stream
use fluxio.Prelude.{
  ℕ, suc, String, List, [], ◌∷◌, Option, none, some, Bool, true, false, ◌==◌, length, if◌then◌else◌,
  contains, add,
}
use fluxio.Prelude.Dict.{Dict}
use fluxio.Prelude.Int.{pos}
use fluxio.Errors.{
  Result, ok, err, key_error, runtime_error, no_checkpoint_error, run_id_in_use_error,
}
use fluxio.Context.{Context, create, snapshot, from_snapshot}
use fluxio.Bytecode.{OpCode, emit, EventType, step_start, Instruction}
use fluxio.Runtime.Act.{Act, pure, raise, lift, ◌>>=◌}
use fluxio.Runtime.Cell.{Cell}
use fluxio.Runtime.Types.{Checkpoint, CheckpointStore, Session}
use fluxio.Runtime.Loop.{run}

abbrev pub is_emit : OpCode → Bool
is_emit emit = true
is_emit _ = false

abbrev pub is_step_start : Option EventType → Bool
is_step_start (some step_start) = true
is_step_start _ = false

abbrev pub is_named : String → Option String → Bool
is_named name none = false
is_named name (some id) = id == name

-- The test of `_find_step_ip`.
abbrev pub starts_step : String → Instruction → Bool
starts_step name x =
    if is_emit x.op
    then (if is_step_start x.event_type then is_named name x.node_id else false)
    else false

-- `_find_step_ip`, from the index given.
unfoldable pub find_from : String → ℕ → List Instruction → Result ℕ
find_from name i [] = err (key_error name)
find_from name i (x ∷ code) =
    let later = find_from name (suc i) code in if starts_step name x then ok i else later

-- `self._active_runs.discard(rid)`
unfoldable pub discard : String → List String → List String
discard rid [] = []
discard rid (r ∷ runs) = let rest = discard rid runs in if r == rid then rest else r ∷ rest

-- A dict or a context.
pub data Initial (M V : Type 0) : Type 0 where
  as_dict : Dict V → Initial M V
  as_context : Context M → Initial M V

-- `run_id or uuid.uuid4().hex`
unfoldable pub or_new : Option String → String → String
or_new none fresh = fresh
or_new (some rid) fresh = if rid == "" then fresh else rid

module _ {W A : Type 0} (active : Cell (List String) W) where
  unfoldable pub release : String → Option (Result A × W) → Option (Result A × W)
  unfolding discard
  release rid none = none
  release rid (some (r, w)) = some (r, active.write (discard rid (active.read w)) w)

  -- `_acquire_run_forced` around the body of its `async with`
  unfoldable pub acquire_run_forced :
      String → (W → Option (Result A × W)) → W → Option (Result A × W)
  unfolding release contains add
  acquire_run_forced rid body w =
      if contains rid (active.read w)
      then some (err (run_id_in_use_error rid), w)
      else release rid (body (active.write (add rid (active.read w)) w))

  -- `_acquire_run`
  unfoldable pub acquire_run :
      Bool → String → (W → Option (Result A × W)) → W → Option (Result A × W)
  unfolding acquire_run_forced
  acquire_run durable rid body = if durable then acquire_run_forced rid body else body

module _ {M V W : Type 0} (s : Session M V W) (active : Cell (List String) W) where
  -- `_coerce_ctx`
  unfoldable pub coerce_ctx : Initial M V → Context M
  unfolding create
  coerce_ctx (as_dict d) = create s.pmap (some d) "root"
  coerce_ctx (as_context c) = c

  abbrev pub with_run_id : String → Session M V W
  with_run_id rid = record s { run_id = rid }

  abbrev pub enough_fuel : ℕ
  enough_fuel = suc (length s.compiled.instructions)

  -- `invoke`; `fresh` is the new id that `uuid` would give.
  unfoldable pub invoke :
      Initial M V → Option String → String → Bool → W → Option (Result (Context M) × W)
  unfolding coerce_ctx or_new acquire_run
  invoke initial_ctx run_id fresh resume =
      let rid = or_new run_id fresh in
      acquire_run active s.durable rid
        (run (with_run_id rid) enough_fuel resume (coerce_ctx initial_ctx))
