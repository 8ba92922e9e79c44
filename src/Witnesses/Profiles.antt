-- ===== src/Witnesses/Profiles.antt =====
-- internal/netbird: a status answer of each kind, and a daemon that lists three profiles.
use network_manager_vpn_plug.Prelude.{
  ℕ, suc, true, false, not, ◌&&◌, ◌||◌, List, [], ◌∷◌, some, ◌≡◌, refl, Text, text_eq, codes,
  if◌then◌else◌, ◌==◌, ok, err, arith,
}
use network_manager_vpn_plug.Go.Strings.{trim_space}
use network_manager_vpn_plug.Daemon.{ProfileRef, empty, matches_desired}
use network_manager_vpn_plug.Daemon.Messages.{
  Features, Profile, critical, FullStatus, StatusResponse,
}
use network_manager_vpn_plug.Status.{
  is_connected, is_failed, is_unknown, ready, has_failed, full_status_failure, map_status,
  management_failure_message, signal_failure_message, relay_failure_message, dns_failure_message,
  system_event_failure_message,
}
use network_manager_vpn_plug.Status.Failures.{reports_failure}
use network_manager_vpn_plug.Status.Ready.{
  fully_connected, word, map_status-ready, map_status-has_failed,
}
use network_manager_vpn_plug.Status.Words.{ascii_only, map_status_string}
use network_manager_vpn_plug.Profile.Creation.{
  count_named, creates_missing, ensure_exists_ambiguous,
}
use network_manager_vpn_plug.Profile.Defs.{
  Client, ambiguous, conflict, trim_profile_ref, check_running_conflict,
  fill_missing_profile_fields, prepare_activation, ensure_exists, resolve,
}
use network_manager_vpn_plug.Profile.Follows.{Follows}
use network_manager_vpn_plug.Profile.Honour.{resolve-Follows}
use network_manager_vpn_plug.Profile.Safety.{running_conflict, stopped_switch}

abbrev ref : Text → Text → Text → ProfileRef
ref id name user = record { id = id; profile_name = name; username = user }

abbrev work_of_ann : ProfileRef
work_of_ann = ref (codes "7f") (codes "work") (codes "ann")

abbrev home_of_ann : ProfileRef
home_of_ann = ref [] (codes " home") (codes "ann ")

abbrev office_of_ann : ProfileRef
office_of_ann = ref [] (codes "office") (codes "ann")

abbrev full : FullStatus
full = record {
  management_connected = true;
  management_error = [];
  signal_connected = true;
  signal_error = [];
  local_peer_ip = codes "100.64.0.2";
  relays = [];
  dns_errors = [];
  events =
      record { severity = critical; user_message = codes " "; message = codes "no route" } ∷ [];
}

abbrev answer : Text → StatusResponse
answer text = record { status = text; full_status = some full; daemon_version = codes "0.60.0" }

map_status-ready_example : ready (map_status ascii_only (some (answer (codes "Connected")))) ≡ (
    is_connected (word ascii_only (answer (codes "Connected")))
    || (is_unknown (word ascii_only (answer (codes "Connected")))
        && not (reports_failure (some full))
        && fully_connected (some full)))
map_status-ready_example = map_status-ready ascii_only (answer (codes "Connected"))

map_status-has_failed_example :
    has_failed (map_status ascii_only (some (answer (codes "Idle")))) ≡ (
      is_failed (word ascii_only (answer (codes "Idle")))
      || (reports_failure (some full)
          && not (is_connected (word ascii_only (answer (codes "Idle"))))))
map_status-has_failed_example = map_status-has_failed ascii_only (answer (codes "Idle"))

abbrev features_on : Features
features_on = record {
  disable_profiles = false;
  disable_update_settings = false;
  disable_networks = false;
}

abbrev listed_profile : Text → Text → Profile
listed_profile id name = record { id = id; name = name; is_active = false }

abbrev profiles : List Profile
profiles =
    listed_profile (codes "1") (codes "home")
    ∷ listed_profile (codes "2") (codes "office")
    ∷ listed_profile (codes "3") (codes " office")
    ∷ []

-- A daemon that counts its calls; it says the text when it is asked for its status.
abbrev daemon : Text → Client
daemon text = record {
  World = ℕ;
  get_features = λ w. (ok features_on, suc w);
  get_active_profile = λ w. (ok work_of_ann, suc w);
  list_profiles = λ user w. (ok profiles, suc w);
  add_profile = λ wanted w. (ok wanted, suc w);
  status = λ w. (ok (some (answer text)), suc w);
}

running_conflict_example :
    (prepare_activation ascii_only (daemon (codes "Connected")) home_of_ann 0
      ≡ (err (conflict (trim_profile_ref work_of_ann) (trim_profile_ref home_of_ann)), 3))
    × (resolve ascii_only (daemon (codes "Connected")) home_of_ann 0
        ≡ (err (conflict (trim_profile_ref work_of_ann) (trim_profile_ref home_of_ann)), 3))
unfolding map_status map_status_string empty matches_desired full_status_failure
    management_failure_message signal_failure_message relay_failure_message dns_failure_message
    system_event_failure_message
running_conflict_example =
    running_conflict ascii_only (daemon (codes "Connected")) home_of_ann 0 features_on 1 work_of_ann
      2 refl refl refl refl refl refl refl

stopped_switch_example :
    prepare_activation ascii_only (daemon (codes "LoginFailed")) home_of_ann 0
    ≡ (ok (trim_profile_ref home_of_ann), 3)
unfolding map_status map_status_string empty matches_desired full_status_failure
    management_failure_message signal_failure_message relay_failure_message dns_failure_message
    system_event_failure_message
stopped_switch_example =
    stopped_switch ascii_only (daemon (codes "LoginFailed")) home_of_ann 0 features_on 1 work_of_ann
      2 refl refl refl refl refl refl refl

creates_missing_example :
    (ensure_exists ascii_only (daemon []) home_of_ann 0).1
    ≡ (if count_named profiles (codes " home") == 0 then 3 else 2)
unfolding trim_space
creates_missing_example =
    creates_missing ascii_only (daemon []) home_of_ann 0 features_on 1 profiles 2 refl refl refl
      refl refl

ensure_exists_ambiguous_example :
    ensure_exists ascii_only (daemon []) office_of_ann 0
    ≡ (err (ambiguous (trim_profile_ref office_of_ann) 2), 2)
unfolding trim_space text_eq
ensure_exists_ambiguous_example =
    ensure_exists_ambiguous ascii_only (daemon []) office_of_ann 0 features_on 1 profiles 2 refl
      refl refl refl refl (omega arith)

resolve-Follows_example : Follows (trim_profile_ref work_of_ann) (ref [] (codes "work") [])
unfolding resolve empty trim_space trim_profile_ref check_running_conflict matches_desired text_eq
    fill_missing_profile_fields
resolve-Follows_example =
    resolve-Follows ascii_only (daemon []) (ref [] (codes "work") []) 0 {v = 1} {u = 2} refl refl
      refl
