-- ===== src/Automation.antt =====
-- internal/automation: the evaluation of conditions, the extraction of times, and the update of a
-- device's state.
pub mod Evaluator
pub mod TimeExtractor
pub mod Executor
pub mod Updater
