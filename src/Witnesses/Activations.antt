-- ===== src/Witnesses/Activations.antt =====
-- internal/nmplugin/service.go: a daemon that lists no profile, and an activation that has expired.
use network_manager_vpn_plug.Prelude.{
  ℕ, suc, true, false, [], ◌∷◌, ◌≡◌, refl, arith, none, some, text_eq, codes, ok,
}
use network_manager_vpn_plug.Go.Decimal.{pos}
use network_manager_vpn_plug.Go.Strings.{trim_space}
use network_manager_vpn_plug.Daemon.{ProfileRef, empty, handle, matches_desired, no_profile}
use network_manager_vpn_plug.Daemon.Messages.{Features, LoginResponse}
use network_manager_vpn_plug.Grpc.Calls.{
  Stub, add_profile, get_active_profile, get_features, list_profiles, profile_client,
  switch_profile, with_id,
}
use network_manager_vpn_plug.Activation.{
  prepare_daemon_profile, switch_daemon_profile, with_process_user,
}
use network_manager_vpn_plug.Activation.Names.{Names, ProfilesEnabled}
use network_manager_vpn_plug.Activation.Prepared.{prepared-Names}
use network_manager_vpn_plug.Profile.Defs.{
  check_running_conflict, create_missing, created_ref, ensure_exists, fill_missing_profile_fields,
  matching_profiles_by_id, matching_profiles_by_name, only_match, prepare_activation,
  resolve_existing_profile, trim_profile_ref,
}
use network_manager_vpn_plug.Service.Expiry.{expire, expire_ends}
use network_manager_vpn_plug.Service.Program.{ActivationAttempt, begin}
use network_manager_vpn_plug.Service.State.{World}
use network_manager_vpn_plug.Service.System.{new_world}
use network_manager_vpn_plug.Status.Words.{ascii_only}

abbrev features : Features
features = record {
  disable_profiles = false;
  disable_update_settings = false;
  disable_networks = false;
}

abbrev no_login : LoginResponse
no_login = record {
  needs_sso_login = false;
  user_code = [];
  verification_uri = [];
  verification_uri_complete = [];
}

-- It counts its calls.
abbrev stub : Stub
stub = record {
  World = ℕ;
  login = λ d m w. (ok no_login, suc w);
  wait_sso_login = λ d code host w. (ok [], suc w);
  switch_profile = λ d m w. (ok (codes "7f"), suc w);
  add_profile = λ d m w. (ok (codes "7f"), suc w);
  set_config = λ d m w. (ok tt, suc w);
  up = λ d m w. (ok tt, suc w);
  down = λ d w. (ok tt, suc w);
  status = λ d m w. (ok none, suc w);
  get_config = λ d m w. (ok none, suc w);
  get_features = λ d w. (ok features, suc w);
  get_active_profile = λ d w. (ok no_profile, suc w);
  list_profiles = λ d user w. (ok [], suc w);
}

abbrev work : ProfileRef
work = record { id = []; profile_name = codes "work"; username = [] }

abbrev work_of_ann : ProfileRef
work_of_ann = record { id = codes "7f"; profile_name = codes "work"; username = codes "ann" }

enabled : ProfilesEnabled (profile_client stub (pos 15) none)
unfolding get_features
enabled w v f h = cc

prepared-Names_example : Names work_of_ann (with_process_user (codes "ann") work)
unfolding prepare_daemon_profile prepare_activation get_features empty trim_space trim_profile_ref
    with_process_user get_active_profile check_running_conflict ensure_exists
    fill_missing_profile_fields create_missing resolve_existing_profile handle list_profiles
    only_match matching_profiles_by_name matching_profiles_by_id switch_daemon_profile
    switch_profile matches_desired add_profile with_id created_ref text_eq
prepared-Names_example =
    prepared-Names stub (pos 15) none ascii_only (codes "ann") work 0 6 {r = work_of_ann} enabled
      refl

abbrev attempt : ActivationAttempt
attempt = record { id = 1; context = 0; connection = []; details = []; interactive = true }

-- The activation is under way, with its slot taken.
abbrev activating : World
activating = record new_world { activating = true; activation_cancel = some 0; next_context = 1 }

expire_ends_example :
    ((expire ascii_only 12 (begin attempt ∷ []) activating).0 ≡ [])
    × ((expire ascii_only 12 (begin attempt ∷ []) activating).1.activating ≡ false)
expire_ends_example =
    expire_ends ascii_only 12 (begin attempt ∷ []) activating (omega arith, tt) refl (omega arith)
