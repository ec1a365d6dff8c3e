-- ===== src/Observability.antt =====
-- observability/: callbacks that are told what the interpreter does.
pub mod Langfuse
pub mod Logging
