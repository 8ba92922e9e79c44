-- ===== src/Witnesses/Machine.antt =====
-- internal/nmplugin: a run of the service as a trace of its lifecycle, and a whole activation.
use network_manager_vpn_plug.Prelude.{
  true, false, ◌≡◌, List, [], ◌∷◌, none, some, refl, codes, text_eq,
}
use network_manager_vpn_plug.Daemon.{no_profile}
use network_manager_vpn_plug.Daemon.Messages.{LoginResponse, StatusResponse}
use network_manager_vpn_plug.Go.Maps.{lookup, sort_keys}
use network_manager_vpn_plug.Settings.Parse.{
  ActivationSettings, is_auth_mode_valid, merge_details, needs_setup_key_secret,
  parse_activation_settings,
}
use network_manager_vpn_plug.Service.Activated.{all_succeed, begin-Done}
use network_manager_vpn_plug.Service.Activated.Login.{IsUsable, settings_of}
use network_manager_vpn_plug.Go.Strings.{trim_space}
use network_manager_vpn_plug.Service.Answered.{asking, asking_thread, prompt_answered, reached}
use network_manager_vpn_plug.Service.Exec.{exec}
use network_manager_vpn_plug.Service.Locked.{new_secrets_locked, reserve_activation}
use network_manager_vpn_plug.Service.Prompts.{format_activation_id, merge_prompt_settings}
use network_manager_vpn_plug.Service.Lifecycle.{IsTrace, idle}
use network_manager_vpn_plug.Service.Lifecycle.History.{history}
use network_manager_vpn_plug.Service.Lifecycle.Refines.{history-IsTrace}
use network_manager_vpn_plug.Service.Monitor.{alone}
use network_manager_vpn_plug.Service.Program.{ActivationAttempt, Op, proceed, begin, login}
use network_manager_vpn_plug.Service.State.{next_u64, World, member}
use network_manager_vpn_plug.Service.Success.{Done}
use network_manager_vpn_plug.Service.System.{
  Event, connect_interactive, disconnect_call, called, stepped, new_service, new_world, run,
}
use network_manager_vpn_plug.Status.{full_status_failure, map_status}
use network_manager_vpn_plug.Status.Words.{ascii_only, map_status_string}

-- An activation begins, and is cancelled by `Disconnect`.
abbrev interrupted : List Event
interrupted =
    called (connect_interactive [] [])
    ∷ stepped 0 proceed
    ∷ stepped 1 proceed
    ∷ called disconnect_call
    ∷ stepped 0 proceed
    ∷ []

history-IsTrace_example : IsTrace idle (history ascii_only new_service interrupted)
history-IsTrace_example = history-IsTrace ascii_only interrupted

abbrev attempt : ActivationAttempt
attempt = record { context = 0; id = 1; connection = []; details = []; interactive = true }

-- The slot is taken for the attempt.
abbrev reserved : World
reserved = record new_world {
  activating = true;
  activation_cancel = some 0;
  activation_id = 1;
  next_context = 1;
}

usable : IsUsable ascii_only attempt (settings_of ascii_only attempt)
unfolding is_auth_mode_valid text_eq merge_details parse_activation_settings lookup sort_keys
    needs_setup_key_secret
usable = record { valid = refl; interactive = refl; has_key = refl }

abbrev sso_answer : LoginResponse
sso_answer = record {
  needs_sso_login = true;
  user_code = codes "AB-12";
  verification_uri = codes "https://sso";
  verification_uri_complete = [];
}

abbrev idle_answer : StatusResponse
idle_answer = record { status = codes "Connecting"; full_status = none; daemon_version = [] }

abbrev connected_answer : StatusResponse
connected_answer = record { status = codes "Connected"; full_status = none; daemon_version = [] }

begin-Done_example : Done ascii_only attempt 0 no_profile reserved (
    alone ascii_only
      (begin attempt ∷ [])
      (all_succeed ascii_only attempt no_profile sso_answer no_profile
        (some idle_answer ∷ none ∷ [])
        (some connected_answer))
      reserved)
unfolding map_status map_status_string full_status_failure member
begin-Done_example =
    begin-Done ascii_only attempt no_profile sso_answer no_profile (some idle_answer ∷ none ∷ [])
      (some connected_answer) reserved usable refl refl refl (λ _. refl)
      ((refl, refl), ((refl, refl), tt)) refl

-- The activation 1 is under way, with settings that need a setup key.
abbrev under_way : List Event
under_way = called (connect_interactive [] []) ∷ stepped 0 proceed ∷ []

abbrev keyless : ActivationSettings
keyless = record {
  profile = no_profile;
  setup_key = [];
  management_url = [];
  admin_url = [];
  hostname = [];
  interface_name = [];
  pre_shared_key = [];
  auth_mode = codes "setup-key";
  prompt_activation_id = [];
  sso_requested = false;
  sso_verification_uri = [];
  sso_verification_uri_complete = [];
  sso_user_code = [];
  sso_continue = false;
  sso_cancel = false;
}

abbrev with_key : ActivationSettings
with_key = record keyless { setup_key = codes "A1B2"; prompt_activation_id = codes "1" }

abbrev asker : List Op × World
asker = asking_thread ascii_only attempt keyless 0 (reached ascii_only attempt keyless 0 under_way)

prompt_answered_example :
    (asker.1.messages
      ≡ asking ascii_only attempt keyless 0
        ∷ (reached ascii_only attempt keyless 0 under_way).messages)
    × (asker.1.delivered ≡ (reached ascii_only attempt keyless 0 under_way).delivered)
    × (alone ascii_only asker.0 (proceed ∷ []) (new_secrets_locked with_key asker.1) ≡ (
      login attempt (merge_prompt_settings keyless with_key) 0 ∷ [],
      record asker.1 { prompt = none },
    ))
unfolding run exec reserve_activation needs_setup_key_secret text_eq trim_space
    merge_prompt_settings format_activation_id next_u64
prompt_answered_example =
    prompt_answered ascii_only attempt keyless 0 under_way with_key refl refl refl refl refl refl
