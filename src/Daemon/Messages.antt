-- ===== src/Daemon/Messages.antt =====
-- internal/netbird/daemonclient/types.go, the requests and answers of the daemon, and errors.
-- `StatusResponse` and `FullStatus` are generated elsewhere: a record here holds what their getters
-- return, and a nil message is `none`.
use network_manager_vpn_plug.Prelude.{Bool, List, Option, Text}

pub record Features : Type 0 where
  pub disable_profiles : Bool
  pub disable_update_settings : Bool
  pub disable_networks : Bool

-- `Profile`, an entry of `ListProfiles`.
pub record Profile : Type 0 where
  pub id : Text
  pub name : Text
  pub is_active : Bool

pub record LoginResponse : Type 0 where
  pub needs_sso_login : Bool
  pub user_code : Text
  pub verification_uri : Text
  pub verification_uri_complete : Text

-- An error of a call, as `daemonError` returns it: `authentication_required` says whether it wraps
-- `ErrAuthenticationRequired`.
pub record RpcError : Type 0 where
  pub operation : Text
  pub authentication_required : Bool

pub data Severity : Type 0 where
  info warning error critical : Severity

pub record SystemEvent : Type 0 where
  pub severity : Severity
  pub user_message : Text
  pub message : Text

pub record Relay : Type 0 where
  pub uri : Text
  pub error : Text

pub record FullStatus : Type 0 where
  pub management_connected : Bool
  pub management_error : Text
  pub signal_connected : Bool
  pub signal_error : Text
  pub local_peer_ip : Text
  pub relays : List Relay
  pub dns_errors : List Text
  pub events : List SystemEvent

pub record StatusResponse : Type 0 where
  pub status : Text
  pub full_status : Option FullStatus
  pub daemon_version : Text
