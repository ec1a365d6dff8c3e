-- ===== src/Runtime/Keeps/Steady.antt =====
-- What no callback changes: the handler of exceptions leaves it too.
use fluxio.Prelude.{List, [], ◌∷◌, All}
use fluxio.Errors.{Exn, is_exception}
use fluxio.Context.{Context}
use fluxio.Runtime.Types.{Notice, Callback, Session}
use fluxio.Runtime.Interpreter.{Frame, safe_dispatch, notify}
use fluxio.Runtime.Loop.{handle}
use fluxio.Runtime.Keeps.{
  Triple, Stays, Triple-pure, Triple-raise, Triple-if, Triple-bind, Triple-weaken, Triple-catching,
}
use fluxio.Runtime.Keeps.Calls.{CallsStay}
use fluxio.Runtime.Keeps.Timers.{Listens}
use fluxio.Runtime.Keeps.Instructions.{close_spans-Triple}

module _ {M V W : Type 0} (P : W → Type 0) where
  abbrev pub CallbackStays : Callback M V W → Type 0
  CallbackStays cb = (n : Notice M V) → Stays P (cb n)

  safe_dispatch-Stays :
      (cbs : List (Callback M V W)) (n : Notice M V)
      → All CallbackStays cbs
      → Stays P (safe_dispatch cbs n)
  unfolding safe_dispatch
  safe_dispatch-Stays [] n h = Triple-pure _ λ w p. p
  safe_dispatch-Stays (cb ∷ cbs) n h =
      Triple-bind {Q = λ done. P} _ _
        (Triple-catching {E' = λ e. P} (cb n) _ (h.0 n)
          λ e. Triple-if (is_exception e) _ _ (Triple-pure _ λ w p. p) (Triple-raise _ λ w p. p))
        λ done. safe_dispatch-Stays cbs n h.1

module _ {M V W : Type 0} (P : W → Type 0) (s : Session M V W)
    (heard : All (CallbackStays P) s.callbacks) where
  pub notify-Stays : (n : Notice M V) → Stays P (notify s n)
  unfolding notify
  notify-Stays n = safe_dispatch-Stays P s.callbacks n heard

  pub steady-Listens : Listens s (λ timers. P) (λ e. P)
  steady-Listens = record {
    step_starts =
        λ timers id ctx. Triple-weaken (λ w p. p) (λ a w p t. p) (λ e w p. p) (notify-Stays _);
    step_ends = λ timers timers' id ctx t lacks. notify-Stays _;
    others = λ timers n other. notify-Stays n;
    recovers = λ timers e w p. p;
  }

  -- The handler always raises.
  pub handle-raises :
      {Q : Context M → W → Type 0} (e : Exn) (f : Frame M)
      → CallsStay P s
      → Triple P (handle s e f) Q (λ e. P)
  unfolding handle
  handle-raises e f calls =
      Triple-if (is_exception e) _ _
        (Triple-bind {Q = λ done. P} _ _
          (close_spans-Triple s (λ timers. P) (λ e. P) (λ timers. calls) steady-Listens
            f.step_timers f.ctx)
          λ done. Triple-bind {Q = λ done. P} _ _ (notify-Stays _) λ done. Triple-raise _ λ w p. p)
        (Triple-raise _ λ w p. p)
