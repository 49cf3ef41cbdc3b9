-- ===== src/MemoryTree/Apply.antt =====
-- applyTransaction: all or nothing, against the versions in the tree, and the last write wins.
pub mod Checks
pub mod Writes
pub mod Versions
