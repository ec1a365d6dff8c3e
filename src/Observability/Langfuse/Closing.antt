-- ===== src/Observability/Langfuse/Closing.antt =====
-- The parts of a run under the callback of observability/langfuse.py: how it begins, an instruction,
-- the handler of exceptions and how it ends.
use fluxio.Prelude.{
  ℕ, List, [], Option, none, some, Bool, true, false, ◌≡◌, ◌⊎◌, refl, sym, ap, ◌==◌, inl, inr,
  Option-cases, Bool-cases,
}
use fluxio.Prelude.Int.{pos}
use fluxio.Prelude.Dict.{Dict}
use fluxio.Errors.{Exn, ok, is_exception, ok_inj}
use fluxio.Context.{Context}
use fluxio.Bytecode.{Instruction}
use fluxio.Runtime.Act.{Act}
use fluxio.Runtime.Cell.{Cell}
use fluxio.Runtime.Types.{Session, CheckpointStore, Checkpoint}
use fluxio.Runtime.Interpreter.{Frame}
use fluxio.Runtime.Loop.{
  exec, save_checkpoint, close_spans, handle, finish, begin, resume_from, frame_at,
}
use fluxio.Runtime.Keeps.{
  Triple, Stays, Triple-pure, Triple-raise, Triple-lift, Triple-gets, Triple-if, Triple-bind,
  Triple-weaken, Triple-read, Stays-read,
}
use fluxio.Runtime.Keeps.Calls.{IsConfined, IsConfinedStore, CallsStay, call_stage-Stays}
use fluxio.Runtime.Keeps.Timers.{Listens}
use fluxio.Runtime.Keeps.Instructions.{told, exec_op-Executes, close_spans-Triple}
use fluxio.Observability.Langfuse.{Tracer, SpanKey, find_span}
use fluxio.Observability.Langfuse.Spans.{given}
use fluxio.Observability.Langfuse.Notify.{
  Never, Tracked, AllClosed, Opens, IsObserved, notify-Triple, open-Listens, failed-AllClosed,
}

module _ {M V W Span : Type 0} (s : Session M V W) (tracer : Tracer Span W)
    (spans : Cell (List (SpanKey × Span)) W) (observed : IsObserved s tracer spans)
    (confined : (v : List (SpanKey × Span)) → IsConfined (λ w. spans.read w ≡ v) s)
    (stores : (v : List (SpanKey × Span)) (store : CheckpointStore V W)
      → s.store ≡ some store
      → IsConfinedStore (λ w. spans.read w ≡ v) store) where
  abbrev pub Shut : W → Type 0
  Shut = Opens s tracer spans (AllClosed s.run_id)

  abbrev pub Closes : {A : Type 0} → A → W → Type 0
  Closes a w = Unit {0}

  abbrev pub ClosesOnError : Exn → W → Type 0
  ClosesOnError e w = (is_exception e ≡ false) ⊎ Shut w

  abbrev pub Open : Dict ℕ → W → Type 0
  Open timers = Opens s tracer spans (Tracked s.run_id timers)

  abbrev pub Timed : Frame M → W → Type 0
  Timed f = Open f.step_timers

  apart :
      {A : Type 0} (timers : Dict ℕ) (m : Act W A)
      → ((v : List (SpanKey × Span)) → Stays (λ w. spans.read w ≡ v) m)
      → Stays (Open timers) m
  apart timers m =
      Stays-read spans.read (λ l. Tracked s.run_id timers (λ k. given tracer spans (find_span k l)))
        m

  calls : (timers : Dict ℕ) → CallsStay (Open timers) s
  calls timers id fn c known =
      apart timers _ λ v. call_stage-Stays (λ w. spans.read w ≡ v) s (confined v) id fn c known

  listens : Listens s Open Never
  listens = open-Listens s tracer spans observed

  save_checkpoint-Open : (x : Instruction) (f : Frame M) → Stays (Timed f) (save_checkpoint s x f)
  unfolding save_checkpoint
  save_checkpoint-Open x f = elim (Option-cases s.store) [
    | inl absent ↦ rw (absent, save_checkpoint) (Triple-pure _ λ w p. p)
    | inr (store, present) ↦
        rw (present, save_checkpoint)
          (Triple-if s.durable _ _
            (Triple-bind {Q = λ now. Timed f} _ _ (Triple-gets _ λ w p. p) λ now.
              Triple-bind {Q = λ done. Timed f} _ _
                (apart f.step_timers _ λ v. (stores v store present).saves _)
                λ done. told s Open Never calls listens f.step_timers _ refl)
            (Triple-pure _ λ w p. p))
  ]

  pub exec-Executes :
      (started : ℕ) (x : Instruction) (f : Frame M)
      → Triple (Timed f) (exec s started x f) Timed (λ e. Timed f)
  unfolding exec
  exec-Executes started x f =
      exec_op-Executes s Open Never calls listens x.op started x f λ e. save_checkpoint-Open x f

  close_spans-Open :
      (timers : Dict ℕ) (ctx : Context M)
      → Triple (Open timers) (close_spans s timers ctx) (λ done. Open []) ClosesOnError
  close_spans-Open timers ctx =
      Triple-weaken (λ w p. p) (λ a w p. p) (λ e w never. absurd (cc))
        (close_spans-Triple s Open Never calls listens timers ctx)

  pub handle-Closes : (e : Exn) (f : Frame M) → Triple (Timed f) (handle s e f) Closes ClosesOnError
  unfolding handle
  handle-Closes e f = elim (Bool-cases (is_exception e)) [
    | inl caught ↦
        rw (caught, handle)
          (Triple-bind {Q = λ done. Open []} _ _ (close_spans-Open f.step_timers f.ctx) λ done.
            Triple-bind {Q = λ done. Opens s tracer spans (AllClosed s.run_id)} _ _
              (notify-Triple s tracer spans observed (Tracked s.run_id []) (AllClosed s.run_id) _
                λ o h. failed-AllClosed M V s.run_id o _ e h)
              λ done. Triple-raise _ λ w p. inr p)
    | inr uncaught ↦ rw (uncaught, handle) (Triple-raise _ λ w p. inl uncaught)
  ]

  deleted :
      (Q : (SpanKey → Bool) → Type 0) (store : CheckpointStore V W)
      → s.store ≡ some store
      → Triple
          (Opens s tracer spans Q)
          (store.delete s.run_id)
          (λ done. Opens s tracer spans Q)
          ClosesOnError
  deleted Q store present =
      Triple-weaken (λ w p. p) (λ a w p. p) (λ e w (uncaught, p). inl uncaught)
        (Triple-read spans.read (λ l. Q (λ k. given tracer spans (find_span k l)))
          (λ e. is_exception e ≡ false) (store.delete s.run_id)
          λ v. (stores v store present).deletes s.run_id)

  pub finish-Closes : (f : Frame M) → Triple (Timed f) (finish s f) Closes ClosesOnError
  unfolding finish
  finish-Closes f = elim (Option-cases s.store) [
    | inl absent ↦ rw (absent, finish) (Triple-pure _ λ w p. tt)
    | inr (store, present) ↦
        rw (present, finish)
          (Triple-if s.durable _ _
            (Triple-bind {Q = λ done. Timed f} _ _
              (deleted (Tracked s.run_id f.step_timers) store present)
              λ done. Triple-pure _ λ w p. tt)
            (Triple-pure _ λ w p. tt))
  ]

  resume_from-timers :
      (existing : Option (Checkpoint V)) (ctx : Context M) (f : Frame M)
      → resume_from s existing ctx ≡ ok f
      → f.step_timers ≡ []
  unfolding resume_from
  resume_from-timers none ctx f e = absurd (cc)
  resume_from-timers (some c) ctx f e =
      elim (Bool-cases (c.pipeline_version == s.compiled.version)) [
        | inl same ↦
            ap (λ (f : Frame M). f.step_timers) (sym (ok_inj (rw (resume_from, same) at e)))
        | inr other ↦ absurd (cc (rw (resume_from, other) at e))
      ]

  -- Where no span of the run is open, none lacks a timer.
  Shut-Timed : (f : Frame M) (w : W) → f.step_timers ≡ [] → Shut w → Timed f w
  Shut-Timed f w no_timers shut step opened = absurd (cc (shut (some step)))

  pub begin-Timed :
      (resume : Bool) (ctx : Context M) → Triple Shut (begin s resume ctx) Timed ClosesOnError
  unfolding begin
  begin-Timed true ctx = elim (Option-cases s.store) [
    | inl absent ↦ rw (absent, begin) (Triple-raise _ λ w p. inr p)
    | inr (store, present) ↦
        rw (present, begin)
          (Triple-bind {Q = λ existing. Shut} _ _
            (Triple-weaken (λ w p. p) (λ a w p. p) (λ e w p. inr p)
              (Stays-read spans.read
                (λ l. AllClosed s.run_id (λ k. given tracer spans (find_span k l)))
                (store.load s.run_id) λ v. (stores v store present).loads s.run_id))
            λ existing.
              Triple-lift _ (λ f e w p. Shut-Timed f w (resume_from-timers existing ctx f e) p)
                λ e w p. inr p)
  ]
  begin-Timed false ctx = elim (Option-cases s.store) [
    | inl absent ↦
        rw (absent, begin) (Triple-pure _ λ w p. Shut-Timed (frame_at s (pos 0) ctx) w refl p)
    | inr (store, present) ↦
        rw (present, begin)
          (Triple-if s.durable _ _
            (Triple-bind {Q = λ done. Shut} _ _ (deleted (AllClosed s.run_id) store present)
              λ done. Triple-pure _ λ w p. Shut-Timed (frame_at s (pos 0) ctx) w refl p)
            (Triple-pure _ λ w p. Shut-Timed (frame_at s (pos 0) ctx) w refl p))
  ]
