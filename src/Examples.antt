-- ===== src/Examples.antt =====
-- Small inputs, and the theorems at them: two services, of which the second waits for the first.
pub mod Worlds
mod Services
mod Protocol
pub mod Control
mod Gates
pub mod Settings
mod Registration
mod Sequences
mod Mounts
mod Statuses
mod Exec
pub mod Dispatch
mod Client
mod Boot
