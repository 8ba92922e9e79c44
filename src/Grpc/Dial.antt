-- ===== src/Grpc/Dial.antt =====
-- internal/netbird/daemonclient/grpc.go: dialing, and starting the daemon if that fails. The network,
-- the init system and the clock are a parameter: each call takes their state to an answer and a new
-- state.
use network_manager_vpn_plug.Prelude.{
  ℕ, zero, suc, Bool, true, false, not, Option, none, some, if◌then◌else◌, ltb, Text, Result, ok,
  err,
}
use network_manager_vpn_plug.Go.Decimal.{ℤ, pos, negsuc}
use network_manager_vpn_plug.Grpc.Configure.{Options, normalize_address, normalize_options}

-- `connectivity.State`.
pub data ConnectionState : Type 0 where
  idle connecting ready transient_failure shutdown : ConnectionState

-- The errors of `waitForReady`.
pub data WaitError : Type 0 where
  connection_shutdown context_done not_changed out_of_fuel : WaitError

pub data DialError : Type 0 where
  cannot_create : Text → DialError
  not_ready : Text → WaitError → DialError

-- The errors of `NewClient`.
pub data FactoryError : Type 0 where
  dial_failed : DialError → FactoryError
  no_starter : Text → DialError → FactoryError
  start_failed : Text → DialError → FactoryError
  still_down : Text → DialError → FactoryError

-- A context with or without a deadline, as nanoseconds from now.
abbrev pub Deadline : Type 0
Deadline = Option ℤ

-- The calls of gRPC, contexts and `Starter`. A connection is a number. `starter` says whether one is
-- configured; `start` and `new_connection` say whether they succeed.
pub record Network : Type 1 where
  pub World : Type 0
  pub new_connection : Text → World → Option ℕ × World
  pub connect : ℕ → World → World
  pub get_state : ℕ → World → ConnectionState × World
  pub wait_for_state_change : Deadline → ℕ → ConnectionState → World → Bool × World
  pub is_done : Deadline → World → Bool × World
  pub close : ℕ → World → World
  pub starter : Bool
  pub start : Deadline → Text → World → Bool × World

-- `grpcClient`.
pub record GrpcClient : Type 0 where
  pub connection : ℕ
  pub rpc_timeout : ℤ

-- `context.WithTimeout`: the earlier of the two deadlines.
unfoldable pub earlier : ℤ → ℤ → ℤ
earlier (pos a) (pos b) = if ltb a b then pos a else pos b
earlier (pos a) (negsuc b) = negsuc b
earlier (negsuc a) (pos b) = negsuc a
earlier (negsuc a) (negsuc b) = if ltb b a then negsuc a else negsuc b

unfoldable pub with_timeout : Deadline → ℤ → Deadline
unfolding earlier
with_timeout none timeout = some timeout
with_timeout (some left) timeout = some (earlier left timeout)

abbrev pub is_positive : ℤ → Bool
is_positive (pos (suc n)) = true
is_positive _ = false

module _ (network : Network) where
  open network use {
    World, new_connection, connect, get_state, wait_for_state_change, is_done, close, starter,
    start,
  }

  -- `waitForReady` behind a wait that has ended.
  unfoldable pub not_changed_error : Bool × World → Result WaitError (Unit {0}) × World
  not_changed_error (done, w) = (err (if done then context_done else not_changed), w)

  -- The loop of `waitForReady`, with the rounds that it may still take.
  unfoldable pub wait_rounds : ℕ → Deadline → ℕ → World → Result WaitError (Unit {0}) × World
  unfolding not_changed_error
  wait_rounds zero deadline connection w = (err out_of_fuel, w)
  wait_rounds (suc fuel) deadline connection w =
      let (state, v) = get_state connection w in
      let (changed, u) = wait_for_state_change deadline connection state v in
      elim state [
        | ready ↦ (ok tt, v)
        | shutdown ↦ (err connection_shutdown, v)
        | _ ↦ elim changed [
          | true ↦ wait_rounds fuel deadline connection u
          | false ↦ not_changed_error (is_done deadline u)
        ]
      ]

  unfoldable pub wait_for_ready : ℕ → Deadline → ℕ → World → Result WaitError (Unit {0}) × World
  unfolding wait_rounds
  wait_for_ready fuel deadline connection w =
      wait_rounds fuel deadline connection (connect connection w)

  -- `dial` behind `waitForReady`.
  unfoldable pub dialed :
      Options → Text → ℕ → Result WaitError (Unit {0}) × World → Result DialError GrpcClient × World
  dialed options address connection (ok _, w) =
      (ok (record { connection = connection; rpc_timeout = options.rpc_timeout }), w)
  dialed options address connection (err e, w) = (err (not_ready address e), close connection w)

  unfoldable pub dial_connection :
      ℕ → Deadline → Options → Text → Option ℕ × World → Result DialError GrpcClient × World
  unfolding wait_for_ready dialed
  dial_connection fuel deadline options address (none, w) = (err (cannot_create address), w)
  dial_connection fuel deadline options address (some connection, w) =
      dialed options address connection (wait_for_ready fuel deadline connection w)

  unfoldable pub dial : ℕ → Deadline → Options → World → Result DialError GrpcClient × World
  unfolding normalize_options with_timeout dial_connection normalize_address
  dial fuel deadline options w =
      let o = normalize_options options in
      let address = normalize_address o.address in
      dial_connection fuel
        (if is_positive o.dial_timeout then with_timeout deadline o.dial_timeout else deadline) o
        address (new_connection address w)

  -- The second `dial` of `NewClient`.
  unfoldable pub retried :
      Options → Result DialError GrpcClient × World → Result FactoryError GrpcClient × World
  retried options (ok client, w) = (ok client, w)
  retried options (err e, w) = (err (still_down options.daemon_service e), w)

  unfoldable pub after_start :
      ℕ → Deadline → Options → DialError → Bool × World → Result FactoryError GrpcClient × World
  unfolding retried
  after_start fuel deadline options e (false, w) = (err (start_failed options.daemon_service e), w)
  after_start fuel deadline options e (true, w) = retried options (dial fuel deadline options w)

  -- `NewClient` behind its first `dial`.
  unfoldable pub after_dial :
      ℕ
      → Deadline
      → Options
      → Result DialError GrpcClient × World
      → Result FactoryError GrpcClient × World
  unfolding after_start
  after_dial fuel deadline options (ok client, w) = (ok client, w)
  after_dial fuel deadline options (err e, w) =
      if not options.start_daemon
      then (err (dial_failed e), w)
      else if not starter
      then (err (no_starter (normalize_address options.address) e), w)
      else after_start fuel deadline options e (start deadline options.daemon_service w)

  -- `NewFactory` and `GRPCFactory.NewClient`.
  unfoldable pub new_client :
      ℕ → Deadline → Options → World → Result FactoryError GrpcClient × World
  unfolding dial after_dial normalize_options
  new_client fuel deadline options w =
      let o = normalize_options options in after_dial fuel deadline o (dial fuel deadline o w)

  -- `grpcClient.Close`; `none` is a nil client.
  unfoldable pub close_client : Option GrpcClient → World → World
  close_client none w = w
  close_client (some client) w = close client.connection w
