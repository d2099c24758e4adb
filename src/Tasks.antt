-- ===== src/Tasks.antt =====
-- The task queue.
pub mod Queue
pub mod Enqueue
pub mod Claims
pub mod Steps
pub mod Recovery
