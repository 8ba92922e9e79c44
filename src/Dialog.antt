-- ===== src/Dialog.antt =====
-- internal/nmauthdialog/dialog.go: the helper that NetworkManager starts to ask for secrets.
pub mod Protocol
pub mod Keyfile
pub mod Args
pub mod Run
pub mod Hints
pub mod Response
pub mod Iteration
pub mod Agreement
