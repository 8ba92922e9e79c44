-- ===== src/Witnesses.antt =====
-- Concrete inputs at which the theorems apply, and tests, for internal/netbird, internal/nmplugin and
-- internal/nmauthdialog.
pub mod Profiles
pub mod Lifecycle
pub mod Machine
pub mod Helper
pub mod Names
pub mod Iterations
pub mod Input
pub mod Activations
pub mod Agreement
pub mod Dialing
pub mod Starting
pub mod Gateways
