-- ===== src/Service/Lifecycle/History.antt =====
-- internal/nmplugin/service.go: the operations that a run of the service makes, with the phase that
-- each leaves.
use network_manager_vpn_plug.Prelude.{List, [], ◌∷◌, Option, none, some}
use network_manager_vpn_plug.Go.Unicode.{Tables}
use network_manager_vpn_plug.Service.Lifecycle.{Phase, phase}
use network_manager_vpn_plug.Service.Program.{Op}
use network_manager_vpn_plug.Service.System.{System, Event, called, stepped, thread_at, step}

abbrev pub first_of : List Op → Option Op
first_of [] = none
first_of (op ∷ ops) = some op

-- The operation that an event makes, if it makes one.
abbrev made_by : System → Event → Option Op
made_by s (called c) = none
made_by s (stepped i r) = first_of (thread_at s.threads i)

abbrev pub noted : Option Op → Phase → List (Op × Phase) → List (Op × Phase)
noted none x h = h
noted (some op) x h = (op, x) ∷ h

module _ (tables : Tables) where
  unfoldable pub history : System → List Event → List (Op × Phase)
  history s [] = []
  history s (e ∷ es) =
      noted (made_by s e) (phase (step tables s e).world) (history (step tables s e) es)
