-- ===== src/Compiler.antt =====
-- compiler/compiler.py: from a list of nodes to a compiled pipeline.
pub mod Naming
pub mod Grouping
pub mod Build
pub mod Program
pub mod Order
pub mod Declared
pub mod Targets
pub mod Sound
pub mod Routers
