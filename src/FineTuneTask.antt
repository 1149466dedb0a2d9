-- ===== src/FineTuneTask.antt =====
-- The FineTuneTask controller (internal/controller/finetunetask): the job and the web UI that it
-- builds, its handlers, and what is proved of them.
pub mod Job
pub mod WebUi
pub mod Controller
pub mod Writes
pub mod Calls
pub mod Phases
pub mod History
pub mod Cleanup
mod Tests
