-- ===== src/Pipeline/Construct.antt =====
-- api/pipeline.py, `Pipeline.__init__`.
--
-- The thread pool of the scheduler is left out.
use fluxio.Prelude.{String, List, Option, none, some, Bool, if◌then◌else◌}
use fluxio.Prelude.Dict.{Dict}
use fluxio.Errors.{Result, ok, ◌>>=◌}
use fluxio.Context.{Pmap}
use fluxio.Bytecode.{Instruction, CompiledPipeline}
use fluxio.Compiler.Build.{Nodes}
use fluxio.Compiler.Program.{compile}
use fluxio.Runtime.Cell.{Cell}
use fluxio.Runtime.Types.{
  Body, Schema, Middleware, Callback, Services, Checkpoint, CheckpointStore, Session,
}
use fluxio.Store.{memory_store}

-- The keyword arguments; `None` for a list is the empty list.
pub record Options (M V W : Type 0) : Type 0 where
  pub middleware : List (Middleware M V W)
  pub callbacks : List (Callback M V W)
  pub checkpoint_store : Option (CheckpointStore V W)
  pub durable : Bool
  pub auto_parallel : Bool

module _ {V W : Type 0} where
  -- `checkpoint_store or (InMemoryStore() if durable else None)`, with the cell of a new store
  unfoldable pub or_memory :
      Option (CheckpointStore V W)
      → Bool
      → Cell (Dict (Checkpoint V)) W
      → Option (CheckpointStore V W)
  or_memory (some store) durable cell = some store
  or_memory none durable cell = if durable then some (memory_store cell) else none

module _ {M V W : Type 0} (pmap : Pmap M V) (services : Services M V W)
    (version : List Instruction → String) (cell : Cell (Dict (Checkpoint V)) W) where
  -- The object's fields; the run's id comes with each run.
  unfoldable pub session_of :
      Options M V W → CompiledPipeline (Body M V W) (Schema V) → Session M V W
  unfolding or_memory
  session_of o compiled = record {
    pmap = pmap;
    services = services;
    middlewares = o.middleware;
    compiled = compiled;
    run_id = "";
    callbacks = o.callbacks;
    store = or_memory o.checkpoint_store o.durable cell;
    durable = o.durable;
  }

  unfoldable pub construct : Options M V W → Nodes (Body M V W) (Schema V) → Result (Session M V W)
  unfolding session_of
  construct o nodes = do
    compiled ← compile version o.auto_parallel nodes
    ok (session_of o compiled)
