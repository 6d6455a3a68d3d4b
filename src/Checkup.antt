-- ===== src/Checkup.antt =====
-- pkg/internal/checkup: the objects that a checkup creates, its state, the requests that it makes of
-- the cluster, and its life from `Setup` over `Run` to `Teardown`.
pub mod Instances
pub mod ConfigMaps
pub mod State
pub mod Requests
pub mod Lifecycle
pub mod Frame
pub mod Outcome
pub mod Cleanup
pub mod Readiness
pub mod Waits
pub mod Verdict
pub mod Steps
pub mod Deletion
pub mod Progress
pub mod Removal
pub mod Samples
mod Tests
