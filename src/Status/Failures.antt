-- ===== src/Status/Failures.antt =====
-- internal/netbird/status/status.go: when a full status counts as a failure.
use network_manager_vpn_plug.Prelude.{
  Bool, false, not, ◌&&◌, ◌||◌, List, [], ◌∷◌, Option, none, some, ◌≡◌, refl, arith, Text, is_empty,
}
use network_manager_vpn_plug.Go.Strings.{trim_space}
use network_manager_vpn_plug.Daemon.Messages.{SystemEvent, Relay, FullStatus}
use network_manager_vpn_plug.Status.{
  is_failure_event, management_failure_message, signal_failure_message, relay_failure_message,
  dns_failure_message, system_event_failure_message, full_status_failure,
}

abbrev pub is_blank : Text → Bool
is_blank s = is_empty (trim_space s)

abbrev pub any_relay : List Relay → Bool
any_relay [] = false
any_relay (relay ∷ rest) = not (is_blank relay.error) || any_relay rest

abbrev pub any_text : List Text → Bool
any_text [] = false
any_text (t ∷ rest) = not (is_blank t) || any_text rest

-- An event counts if it is an error or critical and says something.
abbrev pub any_event : List SystemEvent → Bool
any_event [] = false
any_event (event ∷ rest) =
    (is_failure_event event.severity && not (is_blank event.user_message && is_blank event.message))
    || any_event rest

-- Some part of the full status carries an error text that is not blank.
abbrev pub reports_failure : Option FullStatus → Bool
reports_failure none = false
reports_failure (some full) =
    not (is_blank full.management_error)
    || not (is_blank full.signal_error)
    || any_relay full.relays
    || any_text full.dns_errors
    || any_event full.events

management-is_empty :
    (full : FullStatus)
    → is_empty (management_failure_message full) ≡ is_blank full.management_error
unfolding management_failure_message
management-is_empty full = ground arith

signal-is_empty :
    (full : FullStatus) → is_empty (signal_failure_message full) ≡ is_blank full.signal_error
unfolding signal_failure_message
signal-is_empty full = ground arith

relay-is_empty : (rs : List Relay) → is_empty (relay_failure_message rs) ≡ not (any_relay rs)
unfolding relay_failure_message
relay-is_empty [] = refl
relay-is_empty (r ∷ rs) = ground (arith, relay-is_empty rs)

dns-is_empty : (ts : List Text) → is_empty (dns_failure_message ts) ≡ not (any_text ts)
unfolding dns_failure_message
dns-is_empty [] = refl
dns-is_empty (t ∷ ts) = ground (arith, dns-is_empty ts)

event-is_empty :
    (es : List SystemEvent) → is_empty (system_event_failure_message es) ≡ not (any_event es)
unfolding system_event_failure_message
event-is_empty [] = refl
event-is_empty (e ∷ es) = ground (arith, event-is_empty es)

-- A full status is a failure exactly when some part of it carries an error text that is not blank,
-- and the message then says something; otherwise the message is empty.
pub full_status_failure_exact :
    (full : Option FullStatus)
    → ((full_status_failure full).1 ≡ reports_failure full)
      × (is_empty (full_status_failure full).0 ≡ not (reports_failure full))
unfolding full_status_failure
full_status_failure_exact none = (refl, refl)
full_status_failure_exact (some full) = (
  ground (
    arith,
    management-is_empty full,
    signal-is_empty full,
    relay-is_empty full.relays,
    dns-is_empty full.dns_errors,
    event-is_empty full.events,
  ),
  ground (
    arith,
    management-is_empty full,
    signal-is_empty full,
    relay-is_empty full.relays,
    dns-is_empty full.dns_errors,
    event-is_empty full.events,
  ),
)
