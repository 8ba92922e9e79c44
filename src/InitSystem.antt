-- ===== src/InitSystem.antt =====
-- internal/initsystem/initsystem.go, and the names of cmd/nm-netbird-service/main.go: how the daemon is
-- started. The search for a command and its run are parameters.
use network_manager_vpn_plug.Prelude.{
  Bool, [], ◌∷◌, Option, none, some, ◌||◌, if◌then◌else◌, Text, codes, text_eq, is_empty, Result,
  ok, err,
}
use network_manager_vpn_plug.Go.Strings.{to_lower, trim_space}
use network_manager_vpn_plug.Go.Unicode.{Tables}

-- `AutoStarter`, and `SystemdStarter` with its path of systemctl.
pub data Starter : Type 0 where
  auto_starter : Starter
  systemd_starter : Text → Starter

-- With what `systemctl` said, if that is not blank.
pub data StartError : Type 0 where
  no_init_system empty_service : StartError
  systemd_failed : Text → Option Text → StartError

-- `exec.LookPath` and `exec.CommandContext(…, command, "start", service).CombinedOutput`, which says
-- whether the command failed and what it wrote.
pub record Commands : Type 1 where
  pub World : Type 0
  pub look_path : Text → World → Bool
  pub run_start : Text → Text → World → (Bool × Text) × World

abbrev pub said : Text → Option Text
said [] = none
said (c ∷ s) = some (c ∷ s)

module _ (tables : Tables) where
  -- `initsystem.normalize`, and `normalizedBusName` of main.go.
  unfoldable pub normalize_name : Text → Text
  unfolding to_lower trim_space
  normalize_name name = to_lower tables (trim_space name)

  unfoldable pub new_starter : Text → Option Starter
  unfolding normalize_name text_eq
  new_starter name =
      let n = normalize_name name in
      if is_empty n || text_eq n (codes "auto")
      then some auto_starter
      else if text_eq n (codes "systemd")
      then some (systemd_starter [])
      else none

module _ (commands : Commands) where
  open commands use {World}

  abbrev started : Text → (Bool × Text) × World → Result StartError (Unit {0}) × World
  started service ((failed, output), w) =
      (if failed then err (systemd_failed service (said (trim_space output))) else ok tt, w)

  -- `SystemdStarter.Start`.
  unfoldable pub systemd_start : Text → Text → World → Result StartError (Unit {0}) × World
  unfolding trim_space
  systemd_start path service w =
      let name = trim_space service in
      let systemctl = trim_space path in
      if is_empty name
      then (err empty_service, w)
      else started name
          (commands.run_start (if is_empty systemctl then codes "systemctl" else systemctl) name w)

  -- `detectStarter`.
  unfoldable pub detect_starter : World → Option Starter
  detect_starter w =
      if commands.look_path (codes "systemctl") w then some (systemd_starter []) else none

  -- `AutoStarter.Start`, whose starter is never an `AutoStarter` again.
  unfoldable pub auto_start : Option Starter → Text → World → Result StartError (Unit {0}) × World
  unfolding systemd_start
  auto_start (some (systemd_starter path)) service w = systemd_start path service w
  auto_start _ service w = (err no_init_system, w)

  -- `Starter.Start`.
  unfoldable pub start : Starter → Text → World → Result StartError (Unit {0}) × World
  unfolding auto_start detect_starter
  start auto_starter service w = auto_start (detect_starter w) service w
  start (systemd_starter path) service w = systemd_start path service w
