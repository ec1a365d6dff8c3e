-- ===== src/Lib.antt =====
-- fluxio: pipelines of stages over an immutable context, compiled to instructions and interpreted.
--
-- A user writes a list of stages, `Parallel` blocks and routers with their routes. The compiler
-- turns it into a flat list of instructions and a table of the stages; the interpreter runs these,
-- calling each stage through a chain of middlewares, forking and merging contexts, saving
-- checkpoints and notifying callbacks.
--
-- Which file models which part: Errors       src/fluxio/errors.py, and the exception classes of
-- the other modules Context      src/fluxio/context/context.py. `pyrsistent.PMap` is the interface
-- `Pmap`. Merge, Progress and Laws hold the proofs; `merge` keeps the local variables of the
-- method in the record `Merging` Stage        src/fluxio/api/primitives.py, api/parallel.py and
-- api/stage.py: `stage` with the choice of a node type Bytecode
-- src/fluxio/compiler/bytecode.py Compiler     src/fluxio/compiler/compiler.py: Naming
-- (`_node_id`), Grouping (`_auto_parallelize`, `_independent`), Build (`_compile_stage`,
-- `_compile_parallel`, `_register`, `_check_write_conflicts`), Program (`_compile_router_block`,
-- `compile`); the tables that the methods share and extend are the record `Build`. Order,
-- Declared, Targets, Sound and Routers hold the proofs Runtime      src/fluxio/runtime: Executor
-- (executor.py, scheduler.py and the chain of middleware.py), Interpreter and Loop
-- (interpreter.py), with the local variables of `run` in the record `Frame`. Act is the monad of
-- coroutines, which act on a world and may raise; Lands, Termination, Chain and Typed hold the
-- proofs. Keeps has the rules for what a coroutine leaves behind, which Calls, Timers, Forks,
-- Instructions and Steady apply to a stage's call, the notices of steps, the branches, the
-- instructions and the handler of exceptions. Streaming is the queue of `_run_stream`, and of
-- `stream` in api/pipeline.py: a step relation of a producer and a consumer that interleave;
-- Queue, Fifo, Progress and Deadlock hold its proofs Middleware   src/fluxio/runtime/middleware.py
-- and cache.py, a module for each middleware; the child of each holds its proofs Store
-- src/fluxio/store/memory.py; the interface of store/base.py is in Runtime/Types; Store/Redis is
-- store/redis.py. Resumable, with Attempts, is the interpreter over the in-memory store Pipeline
-- src/fluxio/api/pipeline.py: `invoke`, the lock on run ids and `_find_step_ip`; Construct has
-- `__init__`, Operations `run_step` and `replay`, Diff `diff`, Explain `explain`, Stream the run
-- behind `stream`; Stream/Chunks, Lock, Steps and Replay hold proofs Observability
-- src/fluxio/observability: Logging (logging.py) and Langfuse (langfuse.py), with its proofs in
-- Spans, Ended, Notify, Closing and Runs: the last three put the callback under the interpreter.
-- Notices, which stand for the methods of base.py, are in Runtime/Types Testing
-- src/fluxio/testing: the harness for one stage, and `make_ctx` Meaning      what a pipeline means
-- without instructions, as a reference for compiler and interpreter: stages in sequence, blocks,
-- routes. Machine, Instructions and Forks say what single instructions do; Tables, Parts, Stages,
-- Blocks, Pairs, Patches, Routes, Routers and RouterBlocks what the code of each node does;
-- Program is whole pipelines. Objects says that a stage is the object of its identity Prelude
-- dicts, sets, lists, decimal numerals and Boolean tests Tests        concrete pipelines, stores
-- and middlewares
--
-- Stage bodies, middlewares of the user, callbacks, schemas, stores, clocks, `asyncio.sleep`,
-- `asyncio.timeout`, `random.uniform`, `json.dumps`, `copy.deepcopy`, the clients of Redis and
-- Langfuse, the logger, `repr` and SHA-256 are parameters, over a type of worlds that the model
-- does not look into.
--
-- Conventions. Times are natural numbers of milliseconds and a rate is a fraction. Values are
-- immutable, and a deep copy has equal values under the same keys. Sets of names are lists without
-- repetition, and a dict keeps the order of insertion. An object's identity is a number. Messages
-- of exceptions are left out, except for the names and keys in them.
--
-- Fuel. The search for a free suffix has one round for each entry of the symbol table, which is
-- enough since the numbered names differ. The interpreter's loop has one round for each
-- instruction and one more, which is enough since in compiled code every instruction leads forward.
--
-- Not modelled. In the interpreter the branches of a fork run one after the other, to their ends
-- also where one raises, and a generator runs ahead of its reader; the interleaving of generator
-- and reader, with the queue, the cancellation and the deadlock, is the subject of
-- Runtime/Streaming alone, so a run of the interpreter cannot hang there. The lock that `stream`
-- holds while its tasks run is left out. A deep copy that raises, or with values that do not equal
-- their originals, is left out. The thread pool is not distinguished from the event loop, and
-- shutting it down is left out, as are the log records of other classes than the logging callback
-- and the lazy imports of __init__.py.
pub mod Prelude
pub mod Errors
pub mod Context
pub mod Stage
pub mod Bytecode
pub mod Compiler
pub mod Runtime
pub mod Middleware
pub mod Store
pub mod Pipeline
pub mod Observability
pub mod Testing
pub mod Meaning
pub mod Tests
