-- ===== src/Upgrade.antt =====
-- private/upgrade: the steps of a major version upgrade.
pub mod Frame
pub mod Jobs
pub mod Logs
pub mod Pods
pub mod Preupgrade
pub mod PreupgradeSync
pub mod Scaledown
pub mod Primary
pub mod Streamer
pub mod Secondaries
pub mod PrimaryMove
pub mod Postupgrade
pub mod Steps
pub mod Order
pub mod Transitions
pub mod Version
pub mod Progress
pub mod Gates
pub mod PrimaryGates
pub mod Members
pub mod Copies
pub mod Ports
