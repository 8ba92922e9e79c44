-- ===== src/Service.antt =====
-- internal/nmplugin: the VPN service as threads that share its state. `State` has the state,
-- `Prompts` the prompts, `Locked` the sections under the lock, `Program`, `Phases` and `Exec`
-- the threads.
pub mod State
pub mod Prompts
pub mod Locked
pub mod Program
pub mod Phases
pub mod Exec
pub mod System
pub mod Threads
pub mod Rely
pub mod Lifecycle
pub mod Shared
pub mod Steps
pub mod Slot
pub mod Clients
pub mod Stale
pub mod Cancelled
pub mod Monitor
pub mod Expiry
pub mod Success
pub mod Activated
pub mod Channels
pub mod Answered
pub mod Queries
