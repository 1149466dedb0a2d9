-- ===== src/DevTask.antt =====
-- The DevTask controller (internal/controller/devtask): its frameworks and names, the address of its
-- gateway, the objects that it builds, its handlers, and what is proved of them.
pub mod Framework
pub mod Gateway
pub mod Url
pub mod Route
pub mod Deployment
pub mod State
pub mod Controller
pub mod Writes
pub mod Calls
pub mod Quiet
pub mod Steps
pub mod Phases
pub mod Objects
pub mod Routing
pub mod Cleanup
pub mod Reachable
pub mod Settling
pub mod Started
pub mod Awake
pub mod History
mod Samples
mod Tests
