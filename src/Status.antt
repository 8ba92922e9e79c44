-- ===== src/Status.antt =====
-- internal/netbird/status/status.go: the state of the daemon's engine, read from a status answer
-- whose status text is free-form and whose full status may be missing.
pub mod Words
pub mod Failures
pub mod Ready
use network_manager_vpn_plug.Prelude.{
  ℕ, Bool, true, false, ◌&&◌, ◌||◌, List, [], ◌∷◌, ◌++◌, Option, none, some, if◌then◌else◌, Text,
  codes, is_empty, not,
}
use network_manager_vpn_plug.Go.Unicode.{Tables}
use network_manager_vpn_plug.Go.Strings.{trim_space}
use network_manager_vpn_plug.Daemon.Messages.{
  Severity, info, warning, error, critical, SystemEvent, Relay, FullStatus, StatusResponse,
}
use Words.{State, unknown, disconnected, connecting, connected, failed, map_status_string}

-- `State.String`.
pub state_name : State → Text
state_name disconnected = codes "disconnected"
state_name connecting = codes "connecting"
state_name connected = codes "connected"
state_name failed = codes "failed"
state_name unknown = codes "unknown"

pub record Mapping : Type 0 where
  pub state : State
  pub message : Text
  pub daemon_version : Text

abbrev pub is_connected : State → Bool
is_connected connected = true
is_connected _ = false

abbrev pub is_failed : State → Bool
is_failed failed = true
is_failed _ = false

abbrev pub is_unknown : State → Bool
is_unknown unknown = true
is_unknown _ = false

-- `Mapping.Ready` and `Mapping.Failed`.
abbrev pub ready : Mapping → Bool
ready m = is_connected m.state

abbrev pub has_failed : Mapping → Bool
has_failed m = is_failed m.state

-- `prefix` before a message that is not blank; an empty text stands for no failure.
abbrev labelled : Text → Text → Text
labelled label [] = []
labelled label (c ∷ s) = label ++ (c ∷ s)

unfoldable pub management_failure_message : FullStatus → Text
management_failure_message full =
    labelled (codes "management connection error: ") (trim_space full.management_error)

unfoldable pub signal_failure_message : FullStatus → Text
signal_failure_message full =
    labelled (codes "signal connection error: ") (trim_space full.signal_error)

unfoldable pub relay_failure_message : List Relay → Text
relay_failure_message [] = []
relay_failure_message (relay ∷ rest) =
    if is_empty (trim_space relay.error)
    then relay_failure_message rest
    else codes "relay " ++ (relay.uri ++ (codes " error: " ++ trim_space relay.error))

unfoldable pub dns_failure_message : List Text → Text
dns_failure_message [] = []
dns_failure_message (message ∷ rest) =
    if is_empty (trim_space message)
    then dns_failure_message rest
    else codes "dns server error: " ++ trim_space message

abbrev pub is_failure_event : Severity → Bool
is_failure_event error = true
is_failure_event critical = true
is_failure_event _ = false

unfoldable pub system_event_failure_message : List SystemEvent → Text
system_event_failure_message [] = []
system_event_failure_message (event ∷ rest) =
    let later = system_event_failure_message rest in
    if not (is_failure_event event.severity)
    then later
    else if not (is_empty (trim_space event.user_message))
    then trim_space event.user_message
    else if not (is_empty (trim_space event.message))
    then trim_space event.message
    else later

-- The returns of `fullStatusFailure`: the first message that is not empty, with `true`.
abbrev pub first_failure : List Text → Text × Bool
first_failure [] = ([], false)
first_failure (message ∷ rest) =
    if not (is_empty message) then (message, true) else first_failure rest

-- The five sources are asked in this order.
unfoldable pub full_status_failure : Option FullStatus → Text × Bool
full_status_failure none = ([], false)
full_status_failure (some full) = first_failure (
    management_failure_message full
    ∷ signal_failure_message full
    ∷ relay_failure_message full.relays
    ∷ dns_failure_message full.dns_errors
    ∷ system_event_failure_message full.events
    ∷ [])

unfoldable pub map_full_status : Option FullStatus → Text → State × Text
map_full_status none fallback = (unknown, fallback)
map_full_status (some full) fallback =
    let local_peer = not (is_empty (trim_space full.local_peer_ip)) in
    if full.management_connected && full.signal_connected && local_peer
    then (connected, codes "daemon full status is connected")
    else if full.management_connected || full.signal_connected || local_peer
    then (connecting, codes "daemon full status is partially connected")
    else (disconnected, fallback)

-- `Map` behind the test for a nil answer, on the state that the status text names.
unfoldable pub map_response : StatusResponse → Text → State → Mapping
map_response resp raw mapped =
    let message = if is_empty raw then state_name mapped else raw in
    let failure = full_status_failure resp.full_status in
    let full = map_full_status resp.full_status message in
    if failure.1 && not (is_connected mapped)
    then record { state = failed; message = failure.0; daemon_version = resp.daemon_version }
    else if is_unknown mapped
    then record { state = full.0; message = full.1; daemon_version = resp.daemon_version }
    else record { state = mapped; message = message; daemon_version = resp.daemon_version }

-- `Map`.
unfoldable pub map_status : Tables → Option StatusResponse → Mapping
unfolding map_response
map_status tables none = record {
  state = unknown;
  message = codes "daemon returned no status";
  daemon_version = [];
}
map_status tables (some resp) =
    map_response resp (trim_space resp.status) (map_status_string tables (trim_space resp.status))
