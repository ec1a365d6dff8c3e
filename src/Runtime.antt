-- ===== src/Runtime.antt =====
-- runtime/: executing compiled pipelines.
pub mod Act
pub mod Cell
pub mod Types
pub mod Executor
pub mod Interpreter
pub mod Loop
pub mod Lands
pub mod Keeps
pub mod Termination
pub mod Chain
pub mod Typed
pub mod Streaming
