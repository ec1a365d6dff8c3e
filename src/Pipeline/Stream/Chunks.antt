-- ===== src/Pipeline/Stream/Chunks.antt =====
-- What a stage that yields puts in the queue of `Pipeline.stream` in api/pipeline.py.
use fluxio.Prelude.{String, List, true, false, ◌≡◌}
use fluxio.Errors.{Exn}
use fluxio.Context.{Context}
use fluxio.Runtime.Act.{Act}
use fluxio.Runtime.Cell.{Cell}
use fluxio.Runtime.Types.{Stream, on_step_stream, Callback}
use fluxio.Runtime.Keeps.{Triple}

abbrev Never : {W : Type 0} → Exn → W → Type 0
Never e w = true ≡ false

module _ {V W : Type 0} (queued : Cell (List V) W) where
  abbrev Holds : List V → W → Type 0
  Holds chunks w = queued.read w ≡ chunks

module _ {M V W : Type 0} (queued : Cell (List V) W) where
  -- A callback that takes chunks without raising, and without touching the queue.
  abbrev pub TakesChunks : Callback M V W → Type 0
  TakesChunks cb =
      (id : String) (v : V) (chunks : List V)
      → Triple (Holds queued chunks) (cb (on_step_stream id v)) (λ done. Holds queued chunks) Never
