-- ===== src/Testing.antt =====
-- testing/harness.py and testing/fixtures.py: running one stage in a test.
pub mod Harness
