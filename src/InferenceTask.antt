-- ===== src/InferenceTask.antt =====
-- The InferenceTask controller (internal/controller/inference).
pub mod Model
pub mod Deployment
pub mod Service
pub mod Gateway
pub mod Route
pub mod State
pub mod Controller
pub mod Writes
pub mod Calls
pub mod Quiet
pub mod Phases
pub mod Objects
pub mod Engine
pub mod Reachable
pub mod Cleanup
pub mod Started
pub mod Awake
pub mod History
pub mod Samples
mod ObjectTests
mod Tests
