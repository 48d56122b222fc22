-- ===== src/Core/Server.antt =====
-- pkg/core/server.go, type Server. A service is its name, what its Start returns, and how long its
-- Stop takes and what it returns. What is logged is kept as a list, and the goroutines that log
-- stand in the order of their services.
pub mod Stopping
mod Tests
use Prim.Native.String.{◌++◌}
use mathlib.Core.List.{◌++◌ as ◌append◌}
use pin_go.Base.{
  ℕ, String, Bool, true, false, List, [], ◌∷◌, Option, none, some, ℤ, pos, ltb_ℤ, leb_ℤ, ◌*ℤ◌,
  Duration, second, ◌||◌, ◌&&◌, not, if◌then◌else◌,
}
use pin_go.Errors.{Error, Cause, timeout_error, internal_error, error_text, new, or_err}

-- `takes` is `none` for a Stop that never returns.
pub record Stop : Type 0 where
  pub takes : Option Duration
  pub outcome : Option Error

pub record Service : Type 0 where
  pub name : String
  pub start : Option Error
  pub stop : Stop

pub record ServerConfig : Type 0 where
  pub graceful_shutdown_timeout : Duration
  pub pid_file : String
  pub daemon : Bool
  pub upgrade_socket : String
  pub workers : ℤ

-- `shut` tells whether `shutdownChan` is closed.
pub record Server : Type 0 where
  pub services : List Service
  pub shut : Bool

-- The configuration is not kept.
unfoldable pub new_server : Option ServerConfig → Server
new_server config = record { services = []; shut = false }

unfoldable pub add_service : Server → Service → Server
add_service s service = record s { services = s.services append (service ∷ []) }

unfoldable pub add_services : Server → List Service → Server
add_services s services = record s { services = s.services append services }

abbrev pub bootstrap : Server → Option Error
bootstrap s = none

-- A second Shutdown closes the channel again and panics, which is `none`.
unfoldable pub shutdown : Server → Option Server
shutdown s = if s.shut then none else some (record s { shut = true })

abbrev pub log_failure : String → String → Option Error → List String
log_failure name what none = []
log_failure name what (some e) = ("Service " ++ (name ++ (what ++ error_text e))) ∷ []

-- The loop of `RunForever`: what the failed ones of the services log.
unfoldable pub start_all : List Service → List String
start_all [] = []
start_all (s ∷ ss) = log_failure s.name " failed to start: " s.start append start_all ss

abbrev pub grace : Duration
grace = pos 30 *ℤ second

-- The time at which the last Stop has returned; `none` if one never does.
pub later_of : Option Duration → Option Duration → Option Duration
later_of none b = none
later_of (some a) none = none
later_of (some a) (some b) = some (if ltb_ℤ a b then b else a)

pub all_stopped : List Service → Option Duration
unfolding later_of
all_stopped [] = some (pos 0)
all_stopped (s ∷ ss) = later_of s.stop.takes (all_stopped ss)

abbrev pub grace_over : Error
grace_over = new timeout_error "graceful shutdown timeout"

-- The `select` takes what is ready first; where both are at once, `pick` says which one it takes.
pub awaited : Bool → Option Duration → Option Error
awaited pick none = some grace_over
awaited pick (some d) = if ltb_ℤ d grace || (leb_ℤ d grace && pick) then none else some grace_over

unfoldable pub graceful_shutdown : Bool → List Service → Option Error
unfolding awaited all_stopped
graceful_shutdown pick services = awaited pick (all_stopped services)

-- A signal ends the wait of `RunForever`, or a closed `shutdownChan` does.
pub data Wakes : Type 0 where
  signal : String → Wakes
  shutdown_requested : Wakes

abbrev pub log_wake : Wakes → String
log_wake (signal name) = "Received signal " ++ (name ++ ", shutting down gracefully...")
log_wake shutdown_requested = "Shutdown requested"

-- `RunForever`: what it logs until the shutdown and what it returns.
unfoldable pub run_forever : Bool → Server → Wakes → List String × Option Error
unfolding start_all graceful_shutdown
run_forever pick s wakes =
    (start_all s.services append (log_wake wakes ∷ []), graceful_shutdown pick s.services)

-- HTTPServiceBuilder and the service that it builds; a handler is the number that names it.
pub record HttpServiceBuilder : Type 0 where
  pub name : String
  pub handlers : List (String × ℕ)

-- `listener` is what the Close of the listener returns, if the service has one.
pub record HttpService : Type 0 where
  pub name : String
  pub handlers : List (String × ℕ)
  pub listener : Option Cause

abbrev pub new_http_service_builder : String → HttpServiceBuilder
new_http_service_builder name = record { name = name; handlers = [] }

abbrev pub build : HttpServiceBuilder → HttpService
build b = record { name = b.name; handlers = b.handlers; listener = none }

abbrev pub start : HttpService → Option Error
start s = none

unfoldable pub stop : HttpService → Option Error
unfolding or_err
stop s = elim s.listener [
  | none ↦ none
  | some closed ↦ or_err closed internal_error "failed to close listener"
]
