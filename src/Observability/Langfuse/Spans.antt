-- ===== src/Observability/Langfuse/Spans.antt =====
-- Which spans of observability/langfuse.py are open, over a client that does not raise.
use mathlib.Core.Path.{fun_ext}
use fluxio.Prelude.{
  String, List, [], ◌∷◌, Option, none, some, Bool, true, false, ◌&&◌, ◌||◌, not, ◌≡◌, refl, ap, ◌∙◌,
  if◌then◌else◌,
}
use fluxio.Errors.{ok}
use fluxio.Runtime.Act.{Act, pure, ◌>>=◌}
use fluxio.Runtime.Cell.{Cell}
use fluxio.Runtime.Types.{
  Notice, on_pipeline_start, on_pipeline_end, on_step_start, on_step_end, on_error,
}
use fluxio.Observability.Langfuse.{
  Detail, duration, failed, Tracer, SpanKey, same_key, find_span, put_span, drop_span, end_span,
  close_span, start_step, observe, find_span-put_span, find_span-drop_span,
}

-- The open spans after a notice of a run.
abbrev pub after_notice : {M V : Type 0} → String → Notice M V → (SpanKey → Bool) → SpanKey → Bool
after_notice run_id (on_pipeline_start ctx) o k = same_key (run_id, none) k || o k
after_notice run_id (on_pipeline_end ctx t) o k = not (same_key (run_id, none) k) && o k
after_notice run_id (on_step_start step ctx) o k =
    o (run_id, none) && same_key (run_id, some step) k || o k
after_notice run_id (on_step_end step ctx t) o k = not (same_key (run_id, some step) k) && o k
after_notice run_id (on_error step e) o k =
    not (same_key (run_id, none) k) && (not (same_key (run_id, some step) k) && o k)
after_notice run_id _ o k = o k

abbrev pub after_all :
    {M V : Type 0} → List (String × Notice M V) → (SpanKey → Bool) → SpanKey → Bool
after_all [] o = o
after_all ((run_id, n) ∷ ns) o = after_all ns (after_notice run_id n o)

module _ {Span W : Type 0} (tracer : Tracer Span W) (spans : Cell (List (SpanKey × Span)) W) where
  -- The client does not raise, and knows nothing of the dict of spans.
  abbrev pub Obliges : {A : Type 0} → Act W A → Type 0
  Obliges {A = A} m =
      (w : W) → (a : A) × (w' : W) × (m w ≡ (ok a, w')) × (spans.read w' ≡ spans.read w)

  pub record IsObliging : Type 0 where
    pub roots : (name : String) → Obliges (tracer.start_root name)
    pub children : (parent : Span) (name : String) → Obliges (tracer.start_child parent name)
    pub updates : (span : Span) (detail : Detail) → Obliges (tracer.update span detail)
    pub finishes : (span : Span) → Obliges (tracer.finish span)

  abbrev pub given : Option Span → Bool
  given none = false
  given (some span) = true

  abbrev pub is_open : W → SpanKey → Bool
  is_open w k = given (find_span k (spans.read w))

  unfoldable pub observe_all : {M V : Type 0} → List (String × Notice M V) → Act W (Unit {0})
  unfolding observe
  observe_all [] = pure tt
  observe_all ((run_id, n) ∷ ns) = observe tracer spans run_id n >>= λ done. observe_all ns

module _ {Span W : Type 0} (tracer : Tracer Span W) (spans : Cell (List (SpanKey × Span)) W)
    (obliging : IsObliging tracer spans) where
  -- An act that does not raise and leaves these spans open.
  abbrev pub Leaves : Act W (Unit {0}) → W → (SpanKey → Bool) → Type 0
  Leaves m w o = (w' : W) × (m w ≡ (ok tt, w')) × ((k : SpanKey) → is_open tracer spans w' k ≡ o k)

  end_span-Leaves :
      (o : Option Span) (detail : Detail) (w : W)
      → Leaves (end_span tracer spans o detail) w (is_open tracer spans w)
  unfolding end_span pure ◌>>=◌
  end_span-Leaves none detail w = (w, refl, λ k. refl)
  end_span-Leaves (some span) detail w =
      let (a, w₁, updated, same) = obliging.updates span detail w in
      let (b, w₂, finished, same') = obliging.finishes span w₁ in
      (
        w₂,
        rw (updated, finished) refl,
        λ k. ap (λ l. given tracer spans (find_span k l)) (same' ∙ same),
      )

  given-drop :
      (b : Bool) (o : Option Span)
      → given tracer spans (if b then none else o) ≡ not b && given tracer spans o
  given-drop true o = refl
  given-drop false o = refl

  given-put :
      (b : Bool) (span : Span) (o : Option Span)
      → given tracer spans (if b then some span else o) ≡ b || given tracer spans o
  given-put true span o = refl
  given-put false span o = refl

  put-is_open :
      (j k : SpanKey) (span : Span) (w : W)
      → is_open tracer spans (spans.write (put_span j span (spans.read w)) w) k
        ≡ same_key j k || is_open tracer spans w k
  put-is_open j k span w =
      ap (λ l. given tracer spans (find_span k l))
        (spans.read-write (put_span j span (spans.read w)) w)
      ∙ ap (given tracer spans) (find_span-put_span j k span (spans.read w))
      ∙ given-put (same_key j k) span (find_span k (spans.read w))

  pub close_span-Leaves :
      (j : SpanKey) (detail : Detail) (w : W)
      → Leaves
          (close_span tracer spans j detail)
          w
          (λ k. not (same_key j k) && is_open tracer spans w k)
  unfolding close_span ◌>>=◌
  close_span-Leaves j detail w =
      let popped = spans.write (drop_span j (spans.read w)) w in
      let (w', ended, left) = end_span-Leaves (find_span j (spans.read w)) detail popped in
      (
        w',
        ended,
        λ k.
            left k
            ∙ ap (λ l. given tracer spans (find_span k l))
                (spans.read-write (drop_span j (spans.read w)) w)
            ∙ ap (given tracer spans) (find_span-drop_span j k (spans.read w))
            ∙ given-drop (same_key j k) (find_span k (spans.read w)),
      )

  start_step-Leaves :
      (run_id step : String) (parent : Option Span) (w : W)
      → Leaves (start_step tracer spans run_id step parent) w (λ k.
        given tracer spans parent && same_key (run_id, some step) k || is_open tracer spans w k)
  unfolding start_step ◌>>=◌ pure
  start_step-Leaves run_id step none w = (w, refl, λ k. refl)
  start_step-Leaves run_id step (some parent) w =
      let (span, w', started, same) = obliging.children parent step w in
      (
        spans.write (put_span (run_id, some step) span (spans.read w')) w',
        rw started refl,
        λ k.
            put-is_open (run_id, some step) k span w'
            ∙ ap (λ l. same_key (run_id, some step) k || given tracer spans (find_span k l)) same,
      )

  pub observe-Leaves :
      {M V : Type 0} (run_id : String) (n : Notice M V) (w : W)
      → Leaves (observe tracer spans run_id n) w (after_notice run_id n (is_open tracer spans w))
  unfolding observe ◌>>=◌ pure
  observe-Leaves run_id (on_pipeline_start ctx) w =
      let (span, w', started, same) = obliging.roots run_id w in
      (
        spans.write (put_span (run_id, none) span (spans.read w')) w',
        rw started refl,
        λ k.
            put-is_open (run_id, none) k span w'
            ∙ ap (λ l. same_key (run_id, none) k || given tracer spans (find_span k l)) same,
      )
  observe-Leaves run_id (on_pipeline_end ctx t) w = close_span-Leaves (run_id, none) (duration t) w
  observe-Leaves run_id (on_step_start step ctx) w =
      start_step-Leaves run_id step (find_span (run_id, none) (spans.read w)) w
  observe-Leaves run_id (on_step_end step ctx t) w =
      close_span-Leaves (run_id, some step) (duration t) w
  observe-Leaves run_id (on_error step e) w =
      let (w₁, closed, left) = close_span-Leaves (run_id, some step) (failed e) w in
      let (w₂, closed', left') = close_span-Leaves (run_id, none) (failed e) w₁ in
      (
        w₂,
        rw closed closed',
        λ k. left' k ∙ ap (λ b. not (same_key (run_id, none) k) && b) (left k),
      )
  observe-Leaves run_id n w = (w, refl, λ k. refl)

  -- Over a client that does not raise, the spans that are open after any sequence of notices, of any
  -- runs in any order, are those that the notices say: a root from the start of its run to its end
  -- or error, and a step that starts under an open root to its end, or to an error in it.
  pub observe_all-Leaves :
      {M V : Type 0} (ns : List (String × Notice M V)) (w : W)
      → (w' : W) × (observe_all tracer spans ns w ≡ (ok tt, w'))
        × ((k : SpanKey) → is_open tracer spans w' k ≡ after_all ns (is_open tracer spans w) k)
  unfolding observe_all ◌>>=◌ pure
  observe_all-Leaves [] w = (w, refl, λ k. refl)
  observe_all-Leaves ((run_id, n) ∷ ns) w =
      let (w₁, done, left) = observe-Leaves run_id n w in
      let (w₂, done', left') = observe_all-Leaves ns w₁ in
      (w₂, rw done done', λ k. left' k ∙ ap (λ o. after_all ns o k) (fun_ext left))
