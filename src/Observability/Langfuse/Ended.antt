-- ===== src/Observability/Langfuse/Ended.antt =====
-- Which spans observability/langfuse.py has ended, over a client that does not raise.
use fluxio.Prelude.{String, List, [], ◌∷◌, none, some, Bool, true, false, ◌&&◌, ◌≡◌, ◌⊎◌}
use fluxio.Runtime.Act.{Act}
use fluxio.Runtime.Cell.{Cell}
use fluxio.Runtime.Types.{Notice, on_pipeline_start, on_step_start}
use fluxio.Observability.Langfuse.{Detail, Tracer, SpanKey, find_span}
use fluxio.Observability.Langfuse.Spans.{after_notice, IsObliging}

-- The notice starts a span whose key stands for an open one.
abbrev pub overwrites : {M V : Type 0} → String → Notice M V → (SpanKey → Bool) → Bool
overwrites run_id (on_pipeline_start ctx) o = o (run_id, none)
overwrites run_id (on_step_start step ctx) o = o (run_id, none) && o (run_id, some step)
overwrites run_id _ o = false

-- No run, and no step of a run, starts again while it is open.
abbrev pub NoneOverwritten : {M V : Type 0} → List (String × Notice M V) → (SpanKey → Bool) → Type 0
NoneOverwritten [] o = Unit
NoneOverwritten ((run_id, n) ∷ ns) o =
    (overwrites run_id n o ≡ false) × NoneOverwritten ns (after_notice run_id n o)

module _ {Span W : Type 0} (tracer : Tracer Span W) (spans : Cell (List (SpanKey × Span)) W)
    (ended : W → Span → Bool) where
  -- The client counts a span as ended from its `end` on.
  pub record IsEnding : Type 0 where
    pub finish_ends : (span : Span) (w : W) → ended (tracer.finish span w).1 span ≡ true
    pub roots_keep :
        (name : String) (s : Span) (w : W)
        → ended w s ≡ true
        → ended (tracer.start_root name w).1 s ≡ true
    pub children_keep :
        (parent : Span) (name : String) (s : Span) (w : W)
        → ended w s ≡ true
        → ended (tracer.start_child parent name w).1 s ≡ true
    pub updates_keep :
        (span : Span) (detail : Detail) (s : Span) (w : W)
        → ended w s ≡ true
        → ended (tracer.update span detail w).1 s ≡ true
    pub finishes_keep :
        (span : Span) (s : Span) (w : W)
        → ended w s ≡ true
        → ended (tracer.finish span w).1 s ≡ true
    pub writes_keep :
        (l : List (SpanKey × Span)) (s : Span) (w : W)
        → ended w s ≡ true
        → ended (spans.write l w) s ≡ true

module _ {Span W : Type 0} (tracer : Tracer Span W) (spans : Cell (List (SpanKey × Span)) W)
    (ended : W → Span → Bool) (obliging : IsObliging tracer spans)
    (ending : IsEnding tracer spans ended) (k : SpanKey) (span : Span) where
  -- The span is held under its key, or ended.
  Kept : W → Type 0
  Kept w = (find_span k (spans.read w) ≡ some span) ⊎ (ended w span ≡ true)
