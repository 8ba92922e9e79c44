-- ===== src/Grpc.antt =====
-- internal/netbird/daemonclient/grpc.go: the factory that dials the daemon, and the calls of the client.
pub mod Configure
pub mod Dial
pub mod Calls
pub mod Stable
pub mod Leaks
pub mod Wait
