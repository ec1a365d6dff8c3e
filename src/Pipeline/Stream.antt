-- ===== src/Pipeline/Stream.antt =====
-- api/pipeline.py, `Pipeline.stream`: the run behind a stream. The queue of 32 between it and the
-- reader, with its waits and its sentinel, is the step relation of Runtime/Streaming; here the chunks
-- are appended to a cell, as where the reader keeps up.
pub mod Chunks
use fluxio.Prelude.{
  ℕ, ◌≤◌, String, List, [], ◌∷◌, ◌++◌, Option, none, some, Bool, true, false, ◌≡◌, refl, sym, ap,
  subst, ◌∙◌, length, suc,
}
use fluxio.Errors.{Exn, Result, ok, err, is_ok}
use fluxio.Context.{Context}
use fluxio.Bytecode.{Instruction}
use fluxio.Compiler.Build.{Nodes}
use fluxio.Compiler.Program.{compile}
use fluxio.Runtime.Act.{Act, pure}
use fluxio.Runtime.Cell.{Cell}
use fluxio.Runtime.Types.{Body, Schema, Notice, on_step_stream, Callback, Session}
use fluxio.Runtime.Loop.{run}
use fluxio.Runtime.Termination.{ended}
use fluxio.Runtime.Streaming.{Streaming, start, Reach, returned, raised}
use fluxio.Runtime.Streaming.Fifo.{Reach-in_order}
use fluxio.Pipeline.{Initial, or_new, acquire_run, coerce_ctx, enough_fuel}

module _ {M V W : Type 0} (queued : Cell (List V) W) where
  -- `_StreamCollector`: the chunks that it puts in the queue, in order.
  unfoldable pub stream_collector : Callback M V W
  stream_collector (on_step_stream step chunk) w =
      (ok tt, queued.write (queued.read w ++ chunk ∷ []) w)
  stream_collector _ w = (ok tt, w)

module _ {M V W : Type 0} (s : Session M V W) (active : Cell (List String) W)
    (queued : Cell (List V) W) where
  unfoldable pub with_collector : String → Session M V W
  with_collector rid = record s {
    run_id = rid;
    callbacks = s.callbacks ++ stream_collector queued ∷ [];
  }

  -- `driver`, over a new queue
  unfoldable pub drive : Initial M V → String → W → Option (Result (Context M) × W)
  unfolding stream_collector
  drive initial_ctx rid w =
      run (with_collector rid) (enough_fuel s active) false (coerce_ctx s active initial_ctx)
        (queued.write [] w)
