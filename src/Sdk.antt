-- ===== src/Sdk.antt =====
-- The client library (sdk): the loops that wait for a task.
pub mod Wait
pub mod Waiting
pub mod Client
pub mod Kinds
pub mod Seen
pub mod Requests
pub mod Build
mod Tests
mod ClientTests
