-- ===== src/Settings.antt =====
-- internal/nmplugin/settings.go: what NetworkManager's connection settings ask the daemon for.
pub mod Values
pub mod Normal
pub mod Flatten
pub mod Identity
pub mod Parse
pub mod Precedence
pub mod Names
pub mod SameValue
pub mod Iteration
