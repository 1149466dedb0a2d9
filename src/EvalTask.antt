-- ===== src/EvalTask.antt =====
-- The EvalTask controller (internal/controller/evaltask/evaltask_controller.go): the Job that it
-- builds, its handlers, and what is proved of them.
pub mod Job
pub mod Controller
pub mod Writes
pub mod Calls
pub mod Phases
pub mod History
pub mod Cleanup
mod Tests
