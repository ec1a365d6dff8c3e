-- ===== src/Runtime/Loop.antt =====
-- runtime/interpreter.py: the `match` over the instructions, the loop, and `Interpreter.run`.
use fluxio.Prelude.{
  ℕ, zero, suc, ◌-◌, String, List, [], ◌∷◌, Option, none, some, Bool, true, false, ◌&&◌, ◌==◌,
  if◌then◌else◌,
}
use fluxio.Prelude.Int.{ℤ, pos, succ_ℤ}
use fluxio.Prelude.Dict.{Dict, lookup}
use fluxio.Errors.{
  Exn, Result, ok, err, is_exception, fluxio_error, no_checkpoint_error, checkpoint_version_error,
  key_error, index_error, runtime_error, assertion_error,
}
use fluxio.Context.{Context, update, merge, snapshot, from_snapshot}
use fluxio.Stage.{ForkMode, parallel_mode}
use fluxio.Bytecode.{
  OpCode, call, fork, join, route, jump, validate_input, validate_output, emit, checkpoint,
  Instruction,
}
use fluxio.Runtime.Act.{Act, pure, raise, lift, gets, ◌>>=◌, ◌>>◌}
use fluxio.Runtime.Types.{
  Outcome, context, send, on_step_end, on_route, on_error, on_checkpoint, Checkpoint, Session,
}
use fluxio.Runtime.Executor.{run_parallel}
use fluxio.Runtime.Interpreter.{
  Frame, Fetched, past_end, found, out_of_range, fetch, or_unknown, current_step, resolve_route_map,
  notify, emit_event, validate, call_stage, runner, fork_branches,
}

abbrev pub or_parallel : Option ForkMode → ForkMode
or_parallel none = parallel_mode
or_parallel (some mode) = mode

abbrev pub is_parallel : Option ForkMode → Bool
is_parallel (some parallel_mode) = true
is_parallel _ = false

abbrev pub is_join : Fetched → Bool
is_join (found x) = elim x.op [ join ↦ true | _ ↦ false ]
is_join _ = false

-- `ip += 1`
abbrev pub next : {M : Type 0} → Frame M → Frame M
next f = record f { ip = succ_ℤ f.ip }

-- The target of a `JUMP`.
abbrev pub target : Option ℤ → Result ℤ
target none = err fluxio_error
target (some ip) = ok ip

module _ {M V W : Type 0} (s : Session M V W) where
  -- After the branches of a fork: the `JOIN` that follows a parallel fork is done along with it.
  unfoldable pub after_fork : Instruction → Frame M → List (Context M) → Result (Frame M)
  after_fork x f results =
      if is_parallel x.mode && is_join (fetch s.compiled.instructions (succ_ℤ f.ip))
      then elim (merge s.pmap f.ctx results) [
        | err e ↦ err e
        | ok merged ↦ ok (record f { ip = succ_ℤ (succ_ℤ f.ip); ctx = merged })
      ]
      else ok (next f)

  -- `_handle_fork`
  unfoldable pub handle_fork : Instruction → Frame M → Act W (Frame M)
  handle_fork x f = elim x.branch_ids [
    | none ↦ raise assertion_error
    | some ids ↦ do
      branches ← lift (fork_branches s ids f.ctx)
      results ← run_parallel branches (or_parallel x.mode) (runner s)
      lift (after_fork x f results)
  ]

  unfoldable pub save_checkpoint : Instruction → Frame M → Act W (Unit {0})
  save_checkpoint x f = elim s.store [
    | none ↦ pure tt
    | some store ↦
        if s.durable
        then (do
          now ← gets s.services.time
          store.save (record {
            run_id = s.run_id;
            pipeline_version = s.compiled.version;
            ip = f.ip;
            ctx_snapshot = snapshot s.pmap f.ctx;
            created_at = now;
            meta = [];
          })
          notify s (on_checkpoint (or_unknown x.node_id) f.ip))
        else pure tt
  ]

  -- What a stage's result does to the frame.
  unfoldable pub apply_outcome : String → Outcome M V → Frame M → Frame M
  apply_outcome node_id (context c) f = record (next f) { ctx = c }
  apply_outcome node_id (send r) f = record (next f) {
    ctx = update s.pmap f.ctx r.patch;
    pending_route = some r.route;
    pending_route_step = some node_id;
  }

  unfoldable pub exec_call : Instruction → Frame M → Act W (Frame M)
  exec_call x f = elim x.node_id [
    | none ↦ raise assertion_error
    | some id ↦ elim (lookup id s.compiled.symbol_table) [
      | none ↦ raise (key_error id)
      | some fn ↦ do outcome ← call_stage s id fn f.ctx; pure (apply_outcome id outcome f)
    ]
  ]

  unfoldable pub exec_route : Instruction → Frame M → Act W (Frame M)
  exec_route x f = elim f.pending_route [
    | none ↦ raise fluxio_error
    | some name ↦ do
      notify s (on_route (or_unknown f.pending_route_step) name)
      ip ← lift (resolve_route_map x name)
      pure (record f { ip = pos ip; pending_route = none; pending_route_step = none })
  ]

  -- One round of the loop; `started` is `pipeline_started_at`.
  unfoldable pub exec_op : OpCode → ℕ → Instruction → Frame M → Act W (Frame M)
  exec_op emit started x f = do
    timers ← emit_event s x f.ctx f.step_timers started
    pure (record (next f) { step_timers = timers })
  exec_op checkpoint started x f = do save_checkpoint x f; pure (next f)
  exec_op validate_input started x f = do lift (validate s x f.ctx true); pure (next f)
  exec_op validate_output started x f = do lift (validate s x f.ctx false); pure (next f)
  exec_op call started x f = exec_call x f
  exec_op fork started x f = handle_fork x f
  exec_op join started x f = pure (next f)
  exec_op route started x f = exec_route x f
  exec_op jump started x f = do ip ← lift (target x.target_ip); pure (record f { ip = ip })

  unfoldable pub exec : ℕ → Instruction → Frame M → Act W (Frame M)
  exec started x f = exec_op x.op started x f

  -- The open step spans are closed, in the order in which they were opened.
  unfoldable pub close_spans : Dict ℕ → Context M → Act W (Unit {0})
  close_spans [] ctx = pure tt
  close_spans ((nid, started) ∷ timers) ctx = do
    now ← gets s.services.monotonic
    notify s (on_step_end nid ctx (now - started))
    close_spans timers ctx

  -- `except Exception as e`
  unfoldable pub handle : Exn → Frame M → Act W (Context M)
  handle e f =
      if is_exception e
      then (do
        close_spans f.step_timers f.ctx
        notify s (on_error (current_step s.compiled.instructions f.ip) e)
        raise e)
      else raise e

  -- After the loop: the checkpoint of a finished run is deleted.
  unfoldable pub finish : Frame M → Act W (Context M)
  finish f = elim s.store [
    | none ↦ pure f.ctx
    | some store ↦ if s.durable then (do store.delete s.run_id; pure f.ctx) else pure f.ctx
  ]

  -- The loop, on fuel; `none` means that the fuel ran out.
  unfoldable pub loop : ℕ → ℕ → Frame M → W → Option (Result (Context M) × W)
  loop zero started f w = none
  loop (suc fuel) started f w = elim (fetch s.compiled.instructions f.ip) [
    | past_end ↦ some (finish f w)
    | out_of_range ↦ some (handle index_error f w)
    | found x ↦
        let (r, w') = exec started x f w in
        elim r [ ok f' ↦ loop fuel started f' w' | err e ↦ some (handle e f w') ]
  ]

  abbrev pub frame_at : ℤ → Context M → Frame M
  frame_at ip ctx = record {
    ip = ip;
    ctx = ctx;
    pending_route = none;
    pending_route_step = none;
    step_timers = [];
  }

  -- What `resume=True` starts from.
  unfoldable pub resume_from : Option (Checkpoint V) → Context M → Result (Frame M)
  resume_from none ctx = err (no_checkpoint_error s.run_id)
  resume_from (some existing) ctx =
      if existing.pipeline_version == s.compiled.version
      then ok (frame_at existing.ip (from_snapshot s.pmap existing.ctx_snapshot ctx.name none))
      else err checkpoint_version_error

  -- `run`, up to the loop.
  unfoldable pub begin : Bool → Context M → Act W (Frame M)
  begin true ctx = elim s.store [
    | none ↦ raise runtime_error
    | some store ↦ do existing ← store.load s.run_id; lift (resume_from existing ctx)
  ]
  begin false ctx = elim s.store [
    | none ↦ pure (frame_at (pos 0) ctx)
    | some store ↦
        if s.durable
        then (do store.delete s.run_id; pure (frame_at (pos 0) ctx))
        else pure (frame_at (pos 0) ctx)
  ]

  -- `Interpreter.run`
  unfoldable pub run : ℕ → Bool → Context M → W → Option (Result (Context M) × W)
  run fuel resume ctx w =
      let (r, w') = begin resume ctx w in
      elim r [ err e ↦ some (err e, w') | ok f ↦ loop fuel (s.services.monotonic w') f w' ]
