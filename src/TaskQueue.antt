-- ===== src/TaskQueue.antt =====
-- internal/taskqueue: the tasks that the workers run. `Actions` reads a rule's actions, `Conflicts`
-- chooses among the pending ones.
pub mod Actions
pub mod Conflicts
pub mod Tasks
