-- ===== src/Activation.antt =====
-- internal/nmplugin/service.go: the calls of the daemon that one step of an activation makes, with the
-- client of internal/netbird/daemonclient/grpc.go. The name of the process's user is a parameter.
pub mod Names
pub mod Prepared
use network_manager_vpn_plug.Prelude.{
  Bool, true, false, not, ◌&&◌, Option, none, some, if◌then◌else◌, Text, is_empty, Result, ok, err,
}
use network_manager_vpn_plug.Go.Decimal.{ℤ}
use network_manager_vpn_plug.Go.Unicode.{Tables}
use network_manager_vpn_plug.Daemon.{ProfileRef, handle}
use network_manager_vpn_plug.Daemon.Messages.{Features, RpcError}
use network_manager_vpn_plug.Grpc.Calls.{
  Stub, get_features, profile_client, switch_profile, update_profile,
}
use network_manager_vpn_plug.Grpc.Dial.{Deadline}
use network_manager_vpn_plug.Profile.Defs.{ProfileError, ensure_exists, prepare_activation}
use network_manager_vpn_plug.Settings.Parse.{
  ActivationSettings, daemon_update_profile_request, should_update_profile,
}

pub data PrepareError : Type 0 where
  profile_failed : ProfileError → PrepareError
  switch_failed : RpcError → PrepareError

pub data UpdateError : Type 0 where
  support_unknown update_failed : RpcError → UpdateError

-- The user of the process stands in where a profile is named and no user.
unfoldable pub with_process_user : Text → ProfileRef → ProfileRef
with_process_user current p =
    if not (is_empty p.profile_name) && is_empty p.username
    then record p { username = current }
    else p

module _ (stub : Stub) (rpc_timeout : ℤ) (deadline : Deadline) where
  open stub use {World}

  abbrev pub switched : Result RpcError ProfileRef × World → Result PrepareError ProfileRef × World
  switched (ok p, w) = (ok p, w)
  switched (err e, w) = (err (switch_failed e), w)

  unfoldable pub switch_daemon_profile : ProfileRef → World → Result PrepareError ProfileRef × World
  switch_daemon_profile p w =
      if is_empty (handle p)
      then (ok p, w)
      else switched (switch_profile stub rpc_timeout deadline p w)

  -- The steps of `prepareDaemonProfile`, each behind the answer of the one before.
  abbrev pub then_switched :
      Result ProfileError ProfileRef × World → Result PrepareError ProfileRef × World
  then_switched (ok p, w) = switch_daemon_profile p w
  then_switched (err e, w) = (err (profile_failed e), w)

  abbrev pub then_ensured :
      Tables → Result ProfileError ProfileRef × World → Result PrepareError ProfileRef × World
  then_ensured tables (ok p, w) =
      then_switched (ensure_exists tables (profile_client stub rpc_timeout deadline) p w)
  then_ensured tables (err e, w) = (err (profile_failed e), w)

  -- `prepareDaemonProfile`: the profile of the settings that it returns.
  unfoldable pub prepare_daemon_profile :
      Tables → Text → ProfileRef → World → Result PrepareError ProfileRef × World
  prepare_daemon_profile tables current p w = then_ensured tables (
      prepare_activation tables (profile_client stub rpc_timeout deadline)
        (with_process_user current p) w)

  abbrev updated : Result RpcError (Unit {0}) × World → Result UpdateError (Unit {0}) × World
  updated (ok _, w) = (ok tt, w)
  updated (err e, w) = (err (update_failed e), w)

  abbrev pub with_features :
      ActivationSettings → Result RpcError Features × World → Result UpdateError (Unit {0}) × World
  with_features s (err e, w) = (err (support_unknown e), w)
  with_features s (ok f, w) =
      if f.disable_update_settings
      then (ok tt, w)
      else updated (update_profile stub rpc_timeout deadline (daemon_update_profile_request s) w)

  unfoldable pub update_daemon_profile :
      ActivationSettings → World → Result UpdateError (Unit {0}) × World
  update_daemon_profile s w =
      if not (should_update_profile s)
      then (ok tt, w)
      else with_features s (get_features stub rpc_timeout deadline w)
