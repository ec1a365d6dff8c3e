-- ===== src/Meaning/Instructions.antt =====
-- What each instruction does to the place in a pipeline, where nobody listens and nothing is saved.
use fluxio.Prelude.{
  ℕ, ◌+◌, String, some, Bool, true, false, ◌≡◌, refl, sym, subst, Option-cases, inl, inr,
}
use fluxio.Prelude.Int.{pos}
use fluxio.Prelude.Dict.{Dict, lookup, insert, remove}
use fluxio.Errors.{Result, ok, err}
use fluxio.Context.{Context}
use fluxio.Bytecode.{
  Instruction, bare, checkpoint, call, validate_input, validate_output, emit, join, pipeline_start,
  pipeline_end, step_start, step_end, branch,
}
use fluxio.Compiler.Build.{on_node}
use fluxio.Compiler.Program.{jump_to}
use fluxio.Runtime.Act.{Act, pure, lift, gets, ◌>>=◌, and_then}
use fluxio.Runtime.Types.{Outcome, context, send, StageFunc, Session}
use fluxio.Runtime.Interpreter.{Frame, run_validation, validate, emit_event, call_stage}
use fluxio.Runtime.Loop.{exec, exec_op, save_checkpoint, exec_call, apply_outcome, next}
use fluxio.Meaning.{Place, check, settled_by}
use fluxio.Meaning.Machine.{IsQuiet, notify-quiet, Agrees, Does, place}

module _ {M V W : Type 0} (s : Session M V W) (quiet : IsQuiet s) where
  emit_event-quiet :
      (x : Instruction) (ctx : Context M) (timers : Dict ℕ) (started : ℕ) (w : W)
      → (timers' : Dict ℕ) × (emit_event s x ctx timers started w ≡ (ok timers', w))
  unfolding emit_event ◌>>=◌ gets pure
  emit_event-quiet x ctx timers started w = elim (Option-cases x.event_type) [
    | inl missing ↦ (timers, rw (missing, emit_event) refl)
    | inr (pipeline_start, e) ↦ (timers, rw (e, emit_event, notify-quiet s quiet) refl)
    | inr (pipeline_end, e) ↦ (timers, rw (e, emit_event, notify-quiet s quiet) refl)
    | inr (step_start, e) ↦ elim (Option-cases x.node_id) [
      | inl missing ↦ (timers, rw (e, emit_event, missing) refl)
      | inr (id, given) ↦ (
        insert id (s.services.monotonic w) timers,
        rw (e, emit_event, given, notify-quiet s quiet) refl,
      )
    ]
    | inr (step_end, e) ↦ elim (Option-cases x.node_id) [
      | inl missing ↦ (timers, rw (e, emit_event, missing) refl)
      | inr (id, given) ↦ (remove id timers, rw (e, emit_event, given, notify-quiet s quiet) refl)
    ]
    | inr (branch, e) ↦ elim (Option-cases x.branch_ids) [
      | inl missing ↦ (timers, rw (e, emit_event, missing) refl)
      | inr (ids, given) ↦ (timers, rw (e, emit_event, given, notify-quiet s quiet) refl)
    ]
  ]

  save_checkpoint-quiet :
      (x : Instruction) (f : Frame M) (w : W) → save_checkpoint s x f w ≡ (ok tt, w)
  unfolding save_checkpoint pure
  save_checkpoint-quiet x f w = elim (Option-cases s.store) [
    | inl absent ↦ rw (absent, save_checkpoint) refl
    | inr (store, present) ↦ rw (present, save_checkpoint, quiet.unsaved) refl
  ]

  pub run_validation-input :
      (id : String) (ctx : Context M)
      → run_validation s id ctx true ≡ check s id (lookup id s.compiled.input_schemas) ctx
  unfolding run_validation check
  run_validation-input id ctx = elim (Option-cases (lookup id s.compiled.input_schemas)) [
    | inl missing ↦ rw (missing, run_validation) refl
    | inr (schema, given) ↦ rw (given, run_validation) refl
  ]

  pub run_validation-output :
      (id : String) (ctx : Context M)
      → run_validation s id ctx false ≡ check s id (lookup id s.compiled.output_schemas) ctx
  unfolding run_validation check
  run_validation-output id ctx = elim (Option-cases (lookup id s.compiled.output_schemas)) [
    | inl missing ↦ rw (missing, run_validation) refl
    | inr (schema, given) ↦ rw (given, run_validation) refl
  ]

  module _ (started : ℕ) where
    pub emit-Does : (x : Instruction) (i : ℕ) → x.op ≡ emit → Does s quiet started x i (i + 1) pure
    unfolding exec exec_op ◌>>=◌ pure
    emit-Does x i op f w at =
        let (timers', same) = emit_event-quiet x f.ctx f.step_timers started w in
        subst
          (λ o.
            Agrees s quiet started (i + 1) (exec_op s o started x f w) (ok (place s quiet f), w))
          (sym op) (rw same (rw at refl, refl))

    pub checkpoint-Does :
        (id : String) (i : ℕ) → Does s quiet started (on_node checkpoint id) i (i + 1) pure
    unfolding exec exec_op ◌>>=◌ pure
    checkpoint-Does id i f w at =
        rw (save_checkpoint-quiet (on_node checkpoint id) f w) (rw at refl, refl)

    pub join-Does : (i : ℕ) → Does s quiet started (bare join) i (i + 1) pure
    unfolding exec exec_op pure
    join-Does i f w at = (rw at refl, refl)

    pub jump-Does : (i j : ℕ) → Does s quiet started (jump_to j) i j pure
    unfolding exec exec_op ◌>>=◌ lift pure
    jump-Does i j f w at = (refl, refl)

    lift-Agrees :
        (r : Result (Unit {0})) (f : Frame M) (i : ℕ) (w : W)
        → f.ip ≡ pos i
        → Agrees s quiet started
            (i + 1)
            ((lift r >>= λ valid. pure (next f)) w)
            ((lift r >>= λ valid. pure (place s quiet f)) w)
    unfolding lift pure ◌>>=◌
    lift-Agrees (ok u) f i w at = (rw at refl, refl)
    lift-Agrees (err e) f i w at = refl

    call-Agrees :
        (id : String) (r : Result (Outcome M V) × W) (f : Frame M) (i : ℕ)
        → f.ip ≡ pos i
        → Agrees s quiet started
            (i + 1)
            (and_then r (λ outcome. pure (apply_outcome s id outcome f)))
            (and_then r (λ outcome. pure (settled_by s (place s quiet f) outcome)))
    unfolding pure apply_outcome settled_by
    call-Agrees id (ok (context c), w) f i at = (rw at refl, refl)
    call-Agrees id (ok (send r), w) f i at = (rw at refl, refl)
    call-Agrees id (err e, w) f i at = refl

    -- A schema is tested.
    abbrev pub checking : String → StageFunc M V W → Bool → Place M → Act W (Place M)
    checking id fn is_input p =
        lift
          (check s id (elim is_input [ true ↦ fn.input_schema | false ↦ fn.output_schema ]) p.ctx)
        >>= λ valid. pure p

    pub validate_input-Does :
        (id : String) (fn : StageFunc M V W) (i : ℕ)
        → lookup id s.compiled.input_schemas ≡ fn.input_schema
        → Does s quiet started (on_node validate_input id) i (i + 1) (checking id fn true)
    unfolding exec exec_op ◌>>=◌ lift pure validate
    validate_input-Does id fn i known f w at =
        rw (run_validation-input id f.ctx, known)
          (lift-Agrees (check s id fn.input_schema f.ctx) f i w at)

    pub validate_output-Does :
        (id : String) (fn : StageFunc M V W) (i : ℕ)
        → lookup id s.compiled.output_schemas ≡ fn.output_schema
        → Does s quiet started (on_node validate_output id) i (i + 1) (checking id fn false)
    unfolding exec exec_op ◌>>=◌ lift pure validate
    validate_output-Does id fn i known f w at =
        rw (run_validation-output id f.ctx, known)
          (lift-Agrees (check s id fn.output_schema f.ctx) f i w at)

    abbrev pub calling : String → StageFunc M V W → Place M → Act W (Place M)
    calling id fn p = call_stage s id fn p.ctx >>= λ outcome. pure (settled_by s p outcome)

    exec_call-known :
        (id : String) (fn : StageFunc M V W)
        → lookup id s.compiled.symbol_table ≡ some fn
        → (f : Frame M) (w : W)
        → exec s started (on_node call id) f w
          ≡ and_then (call_stage s id fn f.ctx w) (λ outcome. pure (apply_outcome s id outcome f))
    unfolding exec exec_op exec_call ◌>>=◌
    exec_call-known id fn known f w = rw (known, exec_call) refl

    pub call-Does :
        (id : String) (fn : StageFunc M V W) (i : ℕ)
        → lookup id s.compiled.symbol_table ≡ some fn
        → Does s quiet started (on_node call id) i (i + 1) (calling id fn)
    unfolding ◌>>=◌
    call-Does id fn i known f w at =
        rw (exec_call-known id fn known f w) (call-Agrees id (call_stage s id fn f.ctx w) f i at)
