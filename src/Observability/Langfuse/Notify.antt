-- ===== src/Observability/Langfuse/Notify.antt =====
-- What a notice of the interpreter does to the open spans of observability/langfuse.py, and which
-- of a run's timers stand for open spans.
use mathlib.Core.Path.{fun_ext}
use fluxio.Prelude.{
  ℕ, String, List, [], ◌∷◌, Option, none, some, Bool, true, false, ◌≡◌, sym, subst, eq_refl, All,
  arith, if◌then◌else◌,
}
use fluxio.Prelude.Dict.{Dict, lookup, insert, member}
use fluxio.Errors.{Exn, is_exception}
use fluxio.Context.{Context}
use fluxio.Runtime.Act.{Act, pure, raise, catching}
use fluxio.Runtime.Cell.{Cell}
use fluxio.Runtime.Types.{
  Notice, on_pipeline_start, on_pipeline_end, on_step_start, on_step_end, on_error, Callback,
  Session,
}
use fluxio.Runtime.Interpreter.{safe_dispatch, notify}
use fluxio.Runtime.Keeps.{Triple, After, Triple-pure, Triple-catching, Triple-bind, Triple-read}
use fluxio.Runtime.Keeps.Timers.{Lacks, Listens, is_step, member-insert}
use fluxio.Observability.Langfuse.{Tracer, SpanKey, same_key, find_span, observe}
use fluxio.Observability.Langfuse.Spans.{IsObliging, is_open, given, after_notice, observe-Leaves}

-- The guard around a callback drops what this one raises.
abbrev pub Caught : {W : Type 0} → (W → Type 0) → Exn → W → Type 0
Caught R e w = (is_exception e ≡ true) × R w

module _ {W : Type 0} (R : W → Type 0) (E : Exn → W → Type 0) where
  dropped_at :
      (e : Exn) (w : W)
      → is_exception e ≡ true
      → R w
      → After (λ done. R) E ((if is_exception e then pure tt else raise e) w)
  unfolding pure
  dropped_at e w caught p = rw caught p

  guarded :
      {P : W → Type 0} (m : Act W (Unit {0}))
      → Triple P m (λ done. R) (Caught R)
      → Triple P (catching m (λ e. if is_exception e then pure tt else raise e)) (λ done. R) E
  guarded m h = Triple-catching m _ h λ e. record { at = λ w (caught, p). dropped_at e w caught p }

module _ {M V W : Type 0} (R : W → Type 0) (E : Exn → W → Type 0) where
  safe_dispatch-Triple :
      (cbs : List (Callback M V W)) (n : Notice M V)
      → All (λ (cb : Callback M V W). (n : Notice M V) → Triple R (cb n) (λ done. R) (Caught R)) cbs
      → Triple R (safe_dispatch cbs n) (λ done. R) E
  unfolding safe_dispatch
  safe_dispatch-Triple [] n h = Triple-pure tt λ w p. p
  safe_dispatch-Triple (cb ∷ cbs) n h =
      Triple-bind _ _ (guarded R E (cb n) (h.0 n)) λ done. safe_dispatch-Triple cbs n h.1

-- The guards let nothing through.
abbrev pub Never : {W : Type 0} → Exn → W → Type 0
Never e w = true ≡ false

-- Every open step span of the run has a timer.
abbrev pub Tracked : String → Dict ℕ → (SpanKey → Bool) → Type 0
Tracked run_id timers o = (step : String) → o (run_id, some step) ≡ true → member step timers ≡ true

-- No span of the run is open.
abbrev pub AllClosed : String → (SpanKey → Bool) → Type 0
AllClosed run_id o = (step : Option String) → o (run_id, step) ≡ false

module _ (M V : Type 0) (run_id : String) (o : SpanKey → Bool) where
  started-Tracked :
      (id : String) (ctx : Context M) (t : ℕ) (timers : Dict ℕ)
      → Tracked run_id timers o
      → Tracked run_id (insert id t timers) (after_notice {V = V} run_id (on_step_start id ctx) o)
  unfolding same_key
  started-Tracked id ctx t timers h step opened =
      ground (arith, member-insert id step t timers, h step, eq_refl run_id)

  ended-Tracked :
      (id : String) (ctx : Context M) (t : ℕ) (timers timers' : Dict ℕ)
      → Tracked run_id timers o
      → Lacks id timers timers'
      → Tracked run_id timers' (after_notice {V = V} run_id (on_step_end id ctx t) o)
  unfolding same_key
  ended-Tracked id ctx t timers timers' h left step opened =
      ground (arith, left step, h step, eq_refl run_id)

  other-Tracked :
      (n : Notice M V) (timers : Dict ℕ)
      → is_step n ≡ false
      → Tracked run_id timers o
      → Tracked run_id timers (after_notice run_id n o)
  unfolding same_key
  other-Tracked (on_pipeline_start ctx) timers other h step opened = ground (arith, h step)
  other-Tracked (on_pipeline_end ctx t) timers other h step opened = ground (arith, h step)
  other-Tracked (on_error id e) timers other h step opened = ground (arith, h step)
  other-Tracked (on_step_start id ctx) timers other h step opened = absurd (cc)
  other-Tracked (on_step_end id ctx t) timers other h step opened = absurd (cc)
  other-Tracked n timers other h step opened = h step opened

  pub failed-AllClosed :
      (id : String) (e : Exn)
      → Tracked run_id [] o
      → AllClosed run_id (after_notice {M = M} {V = V} run_id (on_error id e) o)
  unfolding same_key member lookup
  failed-AllClosed id e h none = ground (arith, eq_refl run_id)
  failed-AllClosed id e h (some step) = ground (arith, h step, eq_refl run_id)

module _ {M V W Span : Type 0} (s : Session M V W) (tracer : Tracer Span W)
    (spans : Cell (List (SpanKey × Span)) W) where
  -- Of the open spans, `Q` holds.
  abbrev pub Opens : ((SpanKey → Bool) → Type 0) → W → Type 0
  Opens Q w = Q (λ k. is_open tracer spans w k)

  -- A callback that does not know these spans, and raises only what the guard drops.
  abbrev pub IsApart : Callback M V W → Type 0
  IsApart cb =
      (v : List (SpanKey × Span)) (n : Notice M V)
      → Triple (λ w. spans.read w ≡ v) (cb n) (λ done w. spans.read w ≡ v)
          (Caught λ w. spans.read w ≡ v)

  -- The session's callbacks are the one of this module for its run, and others.
  pub record IsObserved : Type 0 where
    pub obliging : IsObliging tracer spans
    pub others : List (Callback M V W)
    pub callbacks : s.callbacks ≡ observe tracer spans s.run_id ∷ others
    pub apart : All IsApart others

  module _ (observed : IsObserved) where
    All-read :
        (Q : (SpanKey → Bool) → Type 0) (cbs : List (Callback M V W))
        → All IsApart cbs
        → All
            (λ (cb : Callback M V W).
              (n : Notice M V) → Triple (Opens Q) (cb n) (λ done. Opens Q) (Caught (Opens Q)))
            cbs
    All-read Q [] h = tt
    All-read Q (cb ∷ cbs) h = (
      λ n.
          Triple-read spans.read (λ l. Q (λ k. given tracer spans (find_span k l)))
            (λ e. is_exception e ≡ true) (cb n) λ v. h.0 v n,
      All-read Q cbs h.1,
    )

    observe-Triple :
        (Q Q' : (SpanKey → Bool) → Type 0) (n : Notice M V)
        → ((o : SpanKey → Bool) → Q o → Q' (after_notice s.run_id n o))
        → Triple (Opens Q) (observe tracer spans s.run_id n) (λ done. Opens Q') (Caught (Opens Q'))
    observe-Triple Q Q' n h = record {
      at = λ w q.
          let (w', done, left) = observe-Leaves tracer spans observed.obliging s.run_id n w in
          subst (After (λ done. Opens Q') (Caught (Opens Q'))) (sym done)
            (subst Q' (sym (fun_ext left)) (h (is_open tracer spans w) q));
    }

    pub notify-Triple :
        {E : Exn → W → Type 0} (Q Q' : (SpanKey → Bool) → Type 0) (n : Notice M V)
        → ((o : SpanKey → Bool) → Q o → Q' (after_notice s.run_id n o))
        → Triple (Opens Q) (notify s n) (λ done. Opens Q') E
    unfolding notify safe_dispatch
    notify-Triple Q Q' n h =
        rw (observed.callbacks, safe_dispatch)
          (Triple-bind _ _ (guarded (Opens Q') _ _ (observe-Triple Q Q' n h)) λ done.
            safe_dispatch-Triple (Opens Q') _ observed.others n
              (All-read Q' observed.others observed.apart))

    -- The timers of a run cover its open step spans at all its notices.
    pub open-Listens : Listens s (λ timers. Opens (Tracked s.run_id timers)) Never
    open-Listens = record {
      step_starts = λ timers id ctx.
          notify-Triple (Tracked s.run_id timers)
            (λ o. (t : ℕ) → Tracked s.run_id (insert id t timers) o) _
            λ o h t. started-Tracked M V s.run_id o id ctx t timers h;
      step_ends = λ timers timers' id ctx t lacks.
          notify-Triple (Tracked s.run_id timers) (Tracked s.run_id timers') _
            λ o h. ended-Tracked M V s.run_id o id ctx t timers timers' h lacks;
      others = λ timers n other.
          notify-Triple (Tracked s.run_id timers) (Tracked s.run_id timers) n
            λ o h. other-Tracked M V s.run_id o n timers other h;
      recovers = λ timers e w never. absurd (cc);
    }
