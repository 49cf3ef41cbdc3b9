-- ===== src/MemoryTree/Delete.antt =====
-- deleteNode: its loop ends, it takes the node and all that the node owns, and nothing else.
pub mod Rounds
pub mod Descendants
pub mod Exact
pub mod Frame
