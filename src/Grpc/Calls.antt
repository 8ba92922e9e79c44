-- ===== src/Grpc/Calls.antt =====
-- internal/netbird/daemonclient/grpc.go: the calls of `grpcClient`, over the stub that is generated
-- from the daemon's protocol. A call of the stub takes the deadline of its context, and fails with or
-- without the code `Unauthenticated`. A record here holds the fields of a message; `none` is nil.
use network_manager_vpn_plug.Prelude.{
  Bool, true, false, List, [], ◌∷◌, Option, none, some, if◌then◌else◌, Text, codes, Result, ok, err,
}
use network_manager_vpn_plug.Go.Decimal.{ℤ}
use network_manager_vpn_plug.Daemon.{ProfileRef, empty, handle, config_handle}
use network_manager_vpn_plug.Daemon.Messages.{
  Features, Profile, LoginResponse, RpcError, StatusResponse,
}
use network_manager_vpn_plug.Settings.Parse.{LoginRequest, UpdateProfileRequest}
use network_manager_vpn_plug.Grpc.Dial.{Deadline, is_positive}
use network_manager_vpn_plug.Profile.Defs.{Client}

-- `proto.LoginRequest`.
pub record LoginMessage : Type 0 where
  pub setup_key : Text
  pub management_url : Text
  pub admin_url : Text
  pub hostname : Text
  pub is_unix_desktop_client : Bool
  pub interface_name : Option Text
  pub optional_pre_shared_key : Option Text
  pub profile_name : Option Text
  pub username : Option Text

-- `proto.SetConfigRequest`.
pub record SetConfigMessage : Type 0 where
  pub username : Text
  pub profile_name : Text
  pub management_url : Text
  pub admin_url : Text
  pub interface_name : Option Text
  pub optional_pre_shared_key : Option Text

-- `proto.SwitchProfileRequest` and `proto.UpRequest`.
pub record ProfileMessage : Type 0 where
  pub profile_name : Option Text
  pub username : Option Text

-- `proto.GetConfigRequest` and `proto.AddProfileRequest`.
pub record NamedMessage : Type 0 where
  pub profile_name : Text
  pub username : Text

-- `proto.StatusRequest`.
pub record StatusMessage : Type 0 where
  pub get_full_peer_status : Bool
  pub should_run_probes : Bool
  pub wait_for_ready : Option Bool

pub record StatusOptions : Type 0 where
  pub get_full_peer_status : Bool
  pub should_run_probes : Bool
  pub wait_for_ready : Bool

-- What the getters of `proto.GetConfigResponse` return.
pub record ConfigResponse : Type 0 where
  pub interface_name : Text
  pub management_url : Text
  pub admin_url : Text

-- An error of the stub: whether its code is `Unauthenticated`.
pub record CallError : Type 0 where
  pub unauthenticated : Bool

-- `proto.DaemonServiceClient`, as far as it is called.
pub record Stub : Type 1 where
  pub World : Type 0
  pub login : Deadline → LoginMessage → World → Result CallError LoginResponse × World
  pub wait_sso_login : Deadline → Text → Text → World → Result CallError Text × World
  pub switch_profile : Deadline → ProfileMessage → World → Result CallError Text × World
  pub add_profile : Deadline → NamedMessage → World → Result CallError Text × World
  pub set_config : Deadline → SetConfigMessage → World → Result CallError (Unit {0}) × World
  pub up : Deadline → ProfileMessage → World → Result CallError (Unit {0}) × World
  pub down : Deadline → World → Result CallError (Unit {0}) × World
  pub status : Deadline → StatusMessage → World → Result CallError (Option StatusResponse) × World
  pub get_config :
      Deadline → NamedMessage → World → Result CallError (Option ConfigResponse) × World
  pub get_features : Deadline → World → Result CallError Features × World
  pub get_active_profile : Deadline → World → Result CallError ProfileRef × World
  pub list_profiles : Deadline → Text → World → Result CallError (List Profile) × World

-- `if value != "" { field = new(value) }`.
abbrev pub optional : Text → Option Text
optional [] = none
optional (c ∷ s) = some (c ∷ s)

-- `callContext`: the deadline of a call under a context with this one.
unfoldable pub call_context : ℤ → Deadline → Deadline
call_context rpc_timeout (some left) = some left
call_context rpc_timeout none = if is_positive rpc_timeout then some rpc_timeout else none

-- `daemonError`.
unfoldable pub daemon_error : Text → CallError → RpcError
daemon_error operation e = record {
  operation = operation;
  authentication_required = e.unauthenticated;
}

-- The answer of a call of the stub, with its error wrapped.
abbrev pub answered :
    {W A B : Type 0} → Text → (A → B) → Result CallError A × W → Result RpcError B × W
answered operation f (ok a, w) = (ok (f a), w)
answered operation f (err e, w) = (err (daemon_error operation e), w)

-- `if id := resp.GetId(); id != "" { profile.ID = id }`.
unfoldable pub with_id : ProfileRef → Text → ProfileRef
with_id profile [] = profile
with_id profile (c ∷ s) = record profile { id = c ∷ s }

unfoldable pub login_message : LoginRequest → LoginMessage
login_message r = record {
  setup_key = r.setup_key;
  management_url = r.management_url;
  admin_url = r.admin_url;
  hostname = r.hostname;
  is_unix_desktop_client = true;
  interface_name = optional r.interface_name;
  optional_pre_shared_key = optional r.pre_shared_key;
  profile_name = optional (handle r.profile);
  username = optional r.profile.username;
}

unfoldable pub set_config_message : UpdateProfileRequest → SetConfigMessage
set_config_message r = record {
  username = r.profile.username;
  profile_name = config_handle r.profile;
  management_url = r.management_url;
  admin_url = r.admin_url;
  interface_name = optional r.interface_name;
  optional_pre_shared_key = optional r.pre_shared_key;
}

abbrev pub profile_message : ProfileRef → ProfileMessage
profile_message profile = record {
  profile_name = optional (handle profile);
  username = optional profile.username;
}

module _ (stub : Stub) (rpc_timeout : ℤ) (deadline : Deadline) where
  open stub use {World}

  abbrev limit : Deadline
  limit = call_context rpc_timeout deadline

  unfoldable pub login : LoginRequest → World → Result RpcError LoginResponse × World
  unfolding login_message
  login request w = answered (codes "login") (λ r. r) (stub.login limit (login_message request) w)

  unfoldable pub wait_sso_login : Text → Text → World → Result RpcError Text × World
  wait_sso_login user_code hostname w =
      answered (codes "wait sso login") (λ email. email)
        (stub.wait_sso_login limit user_code hostname w)

  unfoldable pub switch_profile : ProfileRef → World → Result RpcError ProfileRef × World
  unfolding with_id
  switch_profile profile w =
      if empty profile
      then (ok profile, w)
      else answered (codes "switch profile") (with_id profile)
          (stub.switch_profile limit (profile_message profile) w)

  unfoldable pub add_profile : ProfileRef → World → Result RpcError ProfileRef × World
  unfolding with_id
  add_profile profile w = answered (codes "add profile") (with_id profile) (
      stub.add_profile limit
        (record { profile_name = profile.profile_name; username = profile.username }) w)

  unfoldable pub update_profile : UpdateProfileRequest → World → Result RpcError (Unit {0}) × World
  unfolding set_config_message
  update_profile request w =
      answered (codes "update profile") (λ r. r)
        (stub.set_config limit (set_config_message request) w)

  unfoldable pub up : ProfileRef → World → Result RpcError (Unit {0}) × World
  up profile w = answered (codes "up") (λ r. r) (stub.up limit (profile_message profile) w)

  unfoldable pub down : World → Result RpcError (Unit {0}) × World
  down w = answered (codes "down") (λ r. r) (stub.down limit w)

  unfoldable pub status : StatusOptions → World → Result RpcError (Option StatusResponse) × World
  status options w =
      answered (codes "status") (λ r. r)
        (stub.status limit
          (record {
            get_full_peer_status = options.get_full_peer_status;
            should_run_probes = options.should_run_probes;
            wait_for_ready = if options.wait_for_ready then some true else none;
          })
          w)

  unfoldable pub get_config : ProfileRef → World → Result RpcError (Option ConfigResponse) × World
  get_config profile w =
      answered (codes "get config") (λ r. r)
        (stub.get_config limit
          (record { profile_name = config_handle profile; username = profile.username }) w)

  unfoldable pub get_features : World → Result RpcError Features × World
  get_features w = answered (codes "get features") (λ r. r) (stub.get_features limit w)

  unfoldable pub get_active_profile : World → Result RpcError ProfileRef × World
  get_active_profile w =
      answered (codes "get active profile") (λ r. r) (stub.get_active_profile limit w)

  unfoldable pub list_profiles : Text → World → Result RpcError (List Profile) × World
  list_profiles username w =
      answered (codes "list profiles") (λ r. r) (stub.list_profiles limit username w)

  -- The status calls of profile.go and service.go.
  abbrev pub full_status : StatusOptions
  full_status = record {
    get_full_peer_status = true;
    should_run_probes = false;
    wait_for_ready = false;
  }

  -- The client as internal/netbird/profile takes it.
  abbrev pub profile_client : Client
  profile_client = record {
    World = World;
    get_features = get_features;
    get_active_profile = get_active_profile;
    list_profiles = list_profiles;
    add_profile = add_profile;
    status = status full_status;
  }
