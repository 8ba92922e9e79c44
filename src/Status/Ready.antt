-- ===== src/Status/Ready.antt =====
-- internal/netbird/status/status.go: when a status answer is `Ready` and when it has `Failed`.
use network_manager_vpn_plug.Prelude.{
  Bool, true, false, not, ◌&&◌, ◌||◌, [], ◌∷◌, Option, none, some, ◌≡◌, refl, arith, Text, is_empty,
  if◌then◌else◌,
}
use network_manager_vpn_plug.Go.Unicode.{Tables}
use network_manager_vpn_plug.Go.Strings.{trim_space}
use network_manager_vpn_plug.Daemon.Messages.{FullStatus, StatusResponse}
use network_manager_vpn_plug.Status.{
  state_name, is_connected, is_failed, is_unknown, ready, has_failed, map_full_status, map_response,
  map_status,
}
use network_manager_vpn_plug.Status.Failures.{is_blank, reports_failure, full_status_failure_exact}
use network_manager_vpn_plug.Status.Words.{State, unknown, map_status_string, normalize}

-- Management and signal are connected and the local peer has an address.
abbrev pub fully_connected : Option FullStatus → Bool
fully_connected none = false
fully_connected (some full) =
    full.management_connected && full.signal_connected && not (is_blank full.local_peer_ip)

map_full_status-ready :
    (full : Option FullStatus) (message : Text)
    → is_connected (map_full_status full message).0 ≡ fully_connected full
unfolding map_full_status
map_full_status-ready none message = refl
map_full_status-ready (some full) message = ground arith

map_full_status_not_failed :
    (full : Option FullStatus) (message : Text) → is_failed (map_full_status full message).0 ≡ false
unfolding map_full_status
map_full_status_not_failed none message = refl
map_full_status_not_failed (some full) message = ground arith

module _ (resp : StatusResponse) (raw : Text) where
  map_response-ready :
      (m : State)
      → ready (map_response resp raw m) ≡ (
          is_connected m
          || (is_unknown m
              && not (reports_failure resp.full_status)
              && fully_connected resp.full_status))
  unfolding map_response
  map_response-ready unknown = ground (
    arith,
    full_status_failure_exact resp.full_status,
    map_full_status-ready resp.full_status (if is_empty raw then state_name unknown else raw),
  )
  map_response-ready _ = ground (arith, full_status_failure_exact resp.full_status)

  map_response-has_failed :
      (m : State)
      → has_failed (map_response resp raw m)
        ≡ (is_failed m || (reports_failure resp.full_status && not (is_connected m)))
  unfolding map_response
  map_response-has_failed unknown = ground (
    arith,
    full_status_failure_exact resp.full_status,
    map_full_status_not_failed resp.full_status (if is_empty raw then state_name unknown else raw),
  )
  map_response-has_failed _ = ground (arith, full_status_failure_exact resp.full_status)

  -- A failure is reported with a message, if the status text that names one is not empty.
  map_response_message :
      (m : State)
      → (is_failed m ≡ true → is_empty raw ≡ false)
      → has_failed (map_response resp raw m) ≡ true
      → is_empty (map_response resp raw m).message ≡ false
  unfolding map_response
  map_response_message unknown h f = ground (
    arith,
    full_status_failure_exact resp.full_status,
    map_full_status_not_failed resp.full_status (if is_empty raw then state_name unknown else raw),
  )
  map_response_message _ h f = ground (arith, full_status_failure_exact resp.full_status)

map_status_string-nil : (tables : Tables) → map_status_string tables [] ≡ unknown
unfolding map_status_string normalize
map_status_string-nil tables = refl

module _ (tables : Tables) (resp : StatusResponse) where
  abbrev pub word : State
  word = map_status_string tables (trim_space resp.status)

  -- A status answer is ready exactly if its text says connected, or its text says nothing known, no
  -- part reports an error, and management, signal and the local address are all up.
  pub map_status-ready : ready (map_status tables (some resp)) ≡ (
      is_connected word
      || (is_unknown word
          && not (reports_failure resp.full_status)
          && fully_connected resp.full_status))
  unfolding map_status
  map_status-ready = map_response-ready resp (trim_space resp.status) word

  -- A status answer has failed exactly if its text says so, or some part reports an error while the
  -- text does not say connected.
  pub map_status-has_failed :
      has_failed (map_status tables (some resp))
      ≡ (is_failed word || (reports_failure resp.full_status && not (is_connected word)))
  unfolding map_status
  map_status-has_failed = map_response-has_failed resp (trim_space resp.status) word

  word_failed :
      (raw : Text) → is_failed (map_status_string tables raw) ≡ true → is_empty raw ≡ false
  word_failed [] h = ground (arith, map_status_string-nil tables)
  word_failed (c ∷ s) h = refl

  -- A status answer that has failed always carries a message.
  map_status_message :
      has_failed (map_status tables (some resp)) ≡ true
      → is_empty (map_status tables (some resp)).message ≡ false
  unfolding map_status
  map_status_message =
      map_response_message resp (trim_space resp.status) word (word_failed (trim_space resp.status))
