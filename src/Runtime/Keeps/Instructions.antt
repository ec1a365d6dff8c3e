-- ===== src/Runtime/Keeps/Instructions.antt =====
-- An instruction leaves what the code that the session calls leaves, for the timers after it.
use fluxio.Prelude.{
  ℕ, ◌-◌, String, List, [], ◌∷◌, false, ◌≡◌, refl, sym, subst, inl, inr, Option-cases, arith,
}
use fluxio.Prelude.Dict.{Dict, lookup, remove}
use fluxio.Errors.{Exn, Result, ok}
use fluxio.Context.{Context}
use fluxio.Bytecode.{
  OpCode, call, fork, join, route, jump, validate_input, validate_output, emit, checkpoint,
  pipeline_start, pipeline_end, step_start, step_end, branch, Instruction,
}
use fluxio.Runtime.Act.{Act, pure, lift, gets, ◌>>=◌}
use fluxio.Runtime.Types.{Outcome, context, send, Notice, Session}
use fluxio.Runtime.Interpreter.{Frame, notify, emit_event, fork_branches, or_now}
use fluxio.Runtime.Loop.{
  exec_op, exec_call, exec_route, handle_fork, after_fork, apply_outcome, save_checkpoint,
  close_spans, or_parallel,
}
use fluxio.Runtime.Keeps.{
  Triple, Stays, Triple-pure, Triple-raise, Triple-lift, Triple-gets, Triple-bind, Triple-weaken,
}
use fluxio.Runtime.Keeps.Calls.{CallsStay}
use fluxio.Runtime.Keeps.Timers.{Listens, is_step, remove-Lacks, tail-Lacks}
use fluxio.Runtime.Keeps.Forks.{run_parallel-Stays}

module _ {M V W : Type 0} (s : Session M V W) (I : Dict ℕ → W → Type 0) (Fails : Exn → W → Type 0)
    (calls : (timers : Dict ℕ) → CallsStay (I timers) s) (listens : Listens s I Fails) where
  abbrev pub Timed : Frame M → W → Type 0
  Timed f = I f.step_timers

  -- From a frame to the next one, or to the same by an exception.
  abbrev pub Executes : Frame M → Act W (Frame M) → Type 0
  Executes f m = Triple (Timed f) m Timed (λ e. Timed f)

  pub told : (timers : Dict ℕ) (n : Notice M V) → is_step n ≡ false → Stays (I timers) (notify s n)
  told timers n other =
      Triple-weaken (λ w p. p) (λ a w p. p) (listens.recovers timers)
        (listens.others timers n other)

  lifted : {A : Type 0} (timers : Dict ℕ) (r : Result A) → Stays (I timers) (lift r)
  lifted timers r = Triple-lift r (λ a e w p. p) λ e w p. p

  timed :
      {A : Type 0} {E : Exn → W → Type 0} {Q : A → W → Type 0} (timers : Dict ℕ) (f : ℕ → Act W A)
      → ((now : ℕ) → Triple (I timers) (f now) Q E)
      → Triple (I timers) (gets s.services.monotonic >>= f) Q E
  timed timers f h = Triple-bind {Q = λ now. I timers} _ _ (Triple-gets _ λ w p. p) h

  abbrev Emits : Dict ℕ → Act W (Dict ℕ) → Type 0
  Emits timers m = Triple (I timers) m I (λ e. I timers)

  unchanged :
      (timers : Dict ℕ) (m : Act W (Unit {0}))
      → Stays (I timers) m
      → Emits timers (m >>= λ done. pure timers)
  unchanged timers m h = Triple-bind {Q = λ done. I timers} _ _ h λ done. Triple-pure _ λ w p. p

  emit_event-Emits :
      (x : Instruction) (ctx : Context M) (timers : Dict ℕ) (started : ℕ)
      → Emits timers (emit_event s x ctx timers started)
  unfolding emit_event
  emit_event-Emits x ctx timers started = elim (Option-cases x.event_type) [
    | inl absent ↦ rw (absent, emit_event) (Triple-pure _ λ w p. p)
    | inr (pipeline_start, given) ↦ rw (given, emit_event) (unchanged timers _ (told timers _ refl))
    | inr (pipeline_end, given) ↦
        rw (given, emit_event) (timed timers _ λ now. unchanged timers _ (told timers _ refl))
    | inr (step_start, given) ↦ elim (Option-cases x.node_id) [
      | inl unnamed ↦ rw (given, emit_event, unnamed) (Triple-pure _ λ w p. p)
      | inr (id, named) ↦
          rw (given, emit_event, named)
            (timed timers _ λ now.
              Triple-bind _ _
                (Triple-weaken (λ w p. p) (λ a w p. p) (listens.recovers timers)
                  (listens.step_starts timers id ctx))
                λ done. Triple-pure _ λ w p. p now)
    ]
    | inr (step_end, given) ↦ elim (Option-cases x.node_id) [
      | inl unnamed ↦ rw (given, emit_event, unnamed) (Triple-pure _ λ w p. p)
      | inr (id, named) ↦
          rw (given, emit_event, named)
            (timed timers _ λ now.
              Triple-bind _ _
                (Triple-weaken (λ w p. p) (λ a w p. p) (listens.recovers timers)
                  (listens.step_ends timers (remove id timers) id ctx
                    (now - or_now (lookup id timers) now) (remove-Lacks id timers)))
                λ done. Triple-pure _ λ w p. p)
    ]
    | inr (branch, given) ↦ elim (Option-cases x.branch_ids) [
      | inl unnamed ↦ rw (given, emit_event, unnamed) (Triple-pure _ λ w p. p)
      | inr (ids, named) ↦ rw (given, emit_event, named) (unchanged timers _ (told timers _ refl))
    ]
  ]

  apply_outcome-timers :
      (id : String) (outcome : Outcome M V) (f : Frame M)
      → (apply_outcome s id outcome f).step_timers ≡ f.step_timers
  unfolding apply_outcome
  apply_outcome-timers id (context c) f = refl
  apply_outcome-timers id (send r) f = refl

  after_fork-timers :
      (x : Instruction) (f f' : Frame M) (results : List (Context M))
      → after_fork s x f results ≡ ok f'
      → f'.step_timers ≡ f.step_timers
  unfolding after_fork
  after_fork-timers x f f' results h = ground arith

  same_timers : (f f' : Frame M) (w : W) → f'.step_timers ≡ f.step_timers → Timed f w → Timed f' w
  same_timers f f' w same = subst (λ timers. I timers w) (sym same)

  exec_call-Executes : (x : Instruction) (f : Frame M) → Executes f (exec_call s x f)
  unfolding exec_call
  exec_call-Executes x f = elim (Option-cases x.node_id) [
    | inl missing ↦ rw (missing, exec_call) (Triple-raise _ λ w p. p)
    | inr (id, given) ↦ elim (Option-cases (lookup id s.compiled.symbol_table)) [
      | inl unknown ↦ rw (given, exec_call, unknown) (Triple-raise _ λ w p. p)
      | inr (fn, known) ↦
          rw (given, exec_call, known)
            (Triple-bind {Q = λ outcome. Timed f} _ _ (calls f.step_timers id fn f.ctx known)
              λ outcome. Triple-pure _ λ w p.
                same_timers f (apply_outcome s id outcome f) w (apply_outcome-timers id outcome f)
                  p)
    ]
  ]

  handle_fork-Executes : (x : Instruction) (f : Frame M) → Executes f (handle_fork s x f)
  unfolding handle_fork
  handle_fork-Executes x f = elim (Option-cases x.branch_ids) [
    | inl missing ↦ rw (missing, handle_fork) (Triple-raise _ λ w p. p)
    | inr (ids, given) ↦
        rw (given, handle_fork)
          (Triple-bind {Q = λ branches w. (fork_branches s ids f.ctx ≡ ok branches) × Timed f w} _ _
            (Triple-lift _ (λ branches e w p. (e, p)) λ e w p. p)
            λ branches. record {
              at = λ w (e, p).
                  (Triple-bind {P = Timed f} {Q = λ results. Timed f} {R = Timed} {E = λ e. Timed f}
                      _ _
                      (run_parallel-Stays s I Fails calls listens f.step_timers ids f.ctx branches
                        (or_parallel x.mode) e)
                      λ results.
                        Triple-lift (after_fork s x f results)
                          (λ f' e' w p. same_timers f f' w (after_fork-timers x f f' results e') p)
                          λ e w p. p).at
                    w p;
            })
  ]

  exec_route-Executes : (x : Instruction) (f : Frame M) → Executes f (exec_route s x f)
  unfolding exec_route
  exec_route-Executes x f = elim (Option-cases f.pending_route) [
    | inl missing ↦ rw (missing, exec_route) (Triple-raise _ λ w p. p)
    | inr (name, pending) ↦
        rw (pending, exec_route)
          (Triple-bind {Q = λ done. Timed f} _ _ (told f.step_timers _ refl) λ done.
            Triple-bind {Q = λ ip. Timed f} _ _ (lifted f.step_timers _)
              λ ip. Triple-pure _ λ w p. p)
  ]

  steps_on :
      {A : Type 0} (f : Frame M) (m : Act W A) (g : A → Frame M)
      → Stays (Timed f) m
      → ((a : A) → (g a).step_timers ≡ f.step_timers)
      → Executes f (m >>= λ a. pure (g a))
  steps_on f m g h same =
      Triple-bind {Q = λ a. Timed f} _ _ h
        λ a. Triple-pure _ λ w p. same_timers f (g a) w (same a) p

  -- Only `CHECKPOINT` writes to the store.
  pub exec_op-Executes :
      (op : OpCode) (started : ℕ) (x : Instruction) (f : Frame M)
      → (op ≡ checkpoint → Stays (Timed f) (save_checkpoint s x f))
      → Executes f (exec_op s op started x f)
  unfolding exec_op
  exec_op-Executes emit started x f saves =
      Triple-bind {Q = I} _ _ (emit_event-Emits x f.ctx f.step_timers started)
        λ timers. Triple-pure _ λ w p. p
  exec_op-Executes checkpoint started x f saves = steps_on f _ _ (saves refl) λ done. refl
  exec_op-Executes validate_input started x f saves =
      steps_on f _ _ (lifted f.step_timers _) λ done. refl
  exec_op-Executes validate_output started x f saves =
      steps_on f _ _ (lifted f.step_timers _) λ done. refl
  exec_op-Executes call started x f saves = exec_call-Executes x f
  exec_op-Executes fork started x f saves = handle_fork-Executes x f
  exec_op-Executes join started x f saves = Triple-pure _ λ w p. p
  exec_op-Executes route started x f saves = exec_route-Executes x f
  exec_op-Executes jump started x f saves = steps_on f _ _ (lifted f.step_timers _) λ ip. refl

  pub close_spans-Triple :
      (timers : Dict ℕ) (ctx : Context M)
      → Triple (I timers) (close_spans s timers ctx) (λ done. I []) Fails
  unfolding close_spans
  close_spans-Triple [] ctx = Triple-pure _ λ w p. p
  close_spans-Triple ((id, t) ∷ timers) ctx = timed ((id, t) ∷ timers) _ λ now.
      Triple-bind _ _
        (listens.step_ends ((id, t) ∷ timers) timers id ctx (now - t) (tail-Lacks id t timers))
        λ done. close_spans-Triple timers ctx
