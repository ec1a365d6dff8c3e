-- ===== src/Tests.antt =====
-- Concrete pipelines and runs of the code, on which the theorems are applied.
mod Fixtures
mod Contexts
mod Compiling
mod Running
mod Middlewares
mod Meanings
mod Streams
mod Operations
mod Observing
mod Failing
mod Resuming
mod Streaming
