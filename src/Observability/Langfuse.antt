-- ===== src/Observability/Langfuse.antt =====
-- observability/langfuse.py, `LangfuseCallback`: the spans of a run in the dict `_spans`.
--
-- The client of the package `langfuse` is the parameter `Tracer`. A span's metadata are its duration
-- or the error.
pub mod Spans
pub mod Ended
pub mod Notify
pub mod Closing
pub mod Runs
use fluxio.Prelude.{
  ℕ, String, List, [], ◌∷◌, Option, none, some, Bool, true, false, ◌&&◌, ◌||◌, not, ◌≡◌, refl, ap,
  sym, subst, ◌∙◌, ◌==◌, eq_iff, eq_refl, if◌then◌else◌, inl, inr, Bool-cases, Option-cases, arith,
}
use fluxio.Errors.{Exn, Result, ok, err}
use fluxio.Runtime.Act.{Act, pure, ◌>>=◌, ◌>>◌}
use fluxio.Runtime.Cell.{Cell}
use fluxio.Runtime.Types.{
  Notice, on_pipeline_start, on_pipeline_end, on_step_start, on_step_end, on_error,
}

pub data Detail : Type 0 where
  duration : ℕ → Detail
  failed : Exn → Detail

-- `start_observation` of the client or of a span, and a span's `update` and `end`.
pub record Tracer (Span W : Type 0) : Type 0 where
  pub start_root : String → Act W Span
  pub start_child : Span → String → Act W Span
  pub update : Span → Detail → Act W (Unit {0})
  pub finish : Span → Act W (Unit {0})

-- (run_id, step), with `None` for the root
abbrev pub SpanKey : Type 0
SpanKey = String × Option String

abbrev same_step : Option String → Option String → Bool
same_step none none = true
same_step (some a) (some b) = a == b
same_step _ _ = false

unfoldable pub same_key : SpanKey → SpanKey → Bool
same_key a b = a.0 == b.0 && same_step a.1 b.1

module _ {Span : Type 0} where
  -- `_spans.get(key)`
  unfoldable pub find_span : SpanKey → List (SpanKey × Span) → Option Span
  unfolding same_key
  find_span k [] = none
  find_span k ((j, span) ∷ spans) = if same_key j k then some span else find_span k spans

  -- `_spans[key] = span`
  unfoldable pub put_span : SpanKey → Span → List (SpanKey × Span) → List (SpanKey × Span)
  unfolding same_key
  put_span k span [] = (k, span) ∷ []
  put_span k span ((j, old) ∷ spans) =
      if same_key j k then (j, span) ∷ spans else (j, old) ∷ put_span k span spans

  -- `_spans.pop(key, None)`
  unfoldable pub drop_span : SpanKey → List (SpanKey × Span) → List (SpanKey × Span)
  unfolding same_key
  drop_span k [] = []
  drop_span k ((j, old) ∷ spans) =
      let rest = drop_span k spans in if same_key j k then rest else (j, old) ∷ rest

same_key_refl : (k : SpanKey) → same_key k k ≡ true
unfolding same_key
same_key_refl (run, none) = ground (arith, eq_refl run)
same_key_refl (run, some step) = ground (arith, eq_refl run, eq_refl step)

pub same_key_eq : (j k : SpanKey) → same_key j k ≡ true → j ≡ k
unfolding same_key
same_key_eq (run, none) (run', none) h = ground (arith, eq_iff run run')
same_key_eq (run, some step) (run', some step') h =
    ground (arith, eq_iff run run', eq_iff step step')
same_key_eq (run, none) (run', some step') h = ground arith
same_key_eq (run, some step) (run', none) h = ground arith

other_key : (i k j : SpanKey) → same_key i k ≡ false → same_key k j ≡ true → same_key i j ≡ false
other_key i k j other here = subst (λ k. same_key i k ≡ false) (same_key_eq k j here) other

module _ {Span : Type 0} where
  pub find_span-put_span :
      (k j : SpanKey) (span : Span) (spans : List (SpanKey × Span))
      → find_span j (put_span k span spans)
        ≡ (if same_key k j then some span else find_span j spans)
  unfolding find_span put_span
  find_span-put_span k j span [] = refl
  find_span-put_span k j span ((i, old) ∷ spans) = elim (Bool-cases (same_key i k)) [
    | inl same ↦ rw (same_key_eq i k same, put_span, same_key_refl k) (ground arith)
    | inr other ↦
        rw (other, put_span)
          (elim (Bool-cases (same_key k j)) [
            | inl here ↦
                rw (find_span-put_span k j span spans, here, other_key i k j other here) refl
            | inr away ↦ rw (find_span-put_span k j span spans, away) refl
          ])
  ]

  pub find_span-drop_span :
      (k j : SpanKey) (spans : List (SpanKey × Span))
      → find_span j (drop_span k spans) ≡ (if same_key k j then none else find_span j spans)
  unfolding find_span drop_span
  find_span-drop_span k j [] = ground arith
  find_span-drop_span k j ((i, old) ∷ spans) = elim (Bool-cases (same_key i k)) [
    | inl same ↦
        rw (same_key_eq i k same, drop_span, same_key_refl k, find_span-drop_span k j spans)
          (ground arith)
    | inr other ↦
        rw (other, drop_span)
          (elim (Bool-cases (same_key k j)) [
            | inl here ↦ rw (find_span-drop_span k j spans, here, other_key i k j other here) refl
            | inr away ↦ rw (find_span-drop_span k j spans, away) refl
          ])
  ]

module _ {Span W : Type 0} (tracer : Tracer Span W) (spans : Cell (List (SpanKey × Span)) W) where
  abbrev look : SpanKey → Act W (Option Span)
  look k w = (ok (find_span k (spans.read w)), w)

  abbrev store_span : SpanKey → Span → Act W (Unit {0})
  store_span k span w = (ok tt, spans.write (put_span k span (spans.read w)) w)

  abbrev pop_span : SpanKey → Act W (Option Span)
  pop_span k w = (ok (find_span k (spans.read w)), spans.write (drop_span k (spans.read w)) w)

  -- `span.update(...); span.end()`, if there is a span
  unfoldable pub end_span : Option Span → Detail → Act W (Unit {0})
  end_span none detail = pure tt
  end_span (some span) detail = do tracer.update span detail; tracer.finish span

  unfoldable pub close_span : SpanKey → Detail → Act W (Unit {0})
  unfolding end_span find_span drop_span
  close_span k detail = do span ← pop_span k; end_span span detail

  unfoldable pub start_step : String → String → Option Span → Act W (Unit {0})
  unfolding put_span
  start_step run_id step none = pure tt
  start_step run_id step (some parent) = do
    span ← tracer.start_child parent step
    store_span (run_id, some step) span

  -- The methods of the callback, which are those of the base class for the other notices.
  unfoldable pub observe : {M V : Type 0} → String → Notice M V → Act W (Unit {0})
  unfolding close_span start_step
  observe run_id (on_pipeline_start ctx) = do
    span ← tracer.start_root run_id
    store_span (run_id, none) span
  observe run_id (on_pipeline_end ctx duration_ms) =
      close_span (run_id, none) (duration duration_ms)
  observe run_id (on_step_start step ctx) = do
    parent ← look (run_id, none)
    start_step run_id step parent
  observe run_id (on_step_end step ctx duration_ms) =
      close_span (run_id, some step) (duration duration_ms)
  observe run_id (on_error step error) = do
    close_span (run_id, some step) (failed error)
    close_span (run_id, none) (failed error)
  observe run_id _ = pure tt
