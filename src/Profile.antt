-- ===== src/Profile.antt =====
-- internal/netbird/profile/profile.go: which daemon profile an activation uses.
pub mod Defs
pub mod Fill
pub mod Safety
pub mod Creation
pub mod Follows
pub mod Honour
