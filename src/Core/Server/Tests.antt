-- ===== src/Core/Server/Tests.antt =====
-- pkg/core/server.go, type Server, at concrete inputs.
use pin_go.Base.{◌≡◌, refl, ◌⊎◌, true, false, [], ◌∷◌, none, some, pos, ◌*ℤ◌, ◌-ℤ◌}
use pin_go.Errors.{internal_error, new, or_err, error_text, new_with_cause}
use pin_go.Core.Server.{
  Service, new_server, add_service, add_services, shutdown, grace, grace_over, graceful_shutdown,
  run_forever, signal, stop, build, new_http_service_builder,
}
use pin_go.Core.Server.Stopping.{AllStop, graceful_shutdown-AllStop}
use pin_go.Core.Peer.{new_http_peer, set_http_version}

program : Unit {0}
unfolding new_server add_service add_services shutdown graceful_shutdown run_forever stop new or_err
    new_with_cause error_text new_http_peer ◌*ℤ◌ ◌-ℤ◌
program = tt

abbrev quick : Service
quick = record { name = "q"; start = none; stop = record { takes = some (pos 5); outcome = none } }

abbrev stuck : Service
stuck = record {
  name = "s";
  start = some (new internal_error "no port");
  stop = record { takes = none; outcome = none };
}

in_order :
    (add_services (add_service (new_server none) quick) (stuck ∷ [])).services ≡ quick ∷ stuck ∷ []
unfolding program
in_order = refl

second_time : shutdown (record { services = []; shut = true }) ≡ none
unfolding program
second_time = refl

all_in_time : graceful_shutdown false (quick ∷ quick ∷ []) ≡ none
unfolding program
all_in_time = refl

one_hangs : graceful_shutdown true (quick ∷ stuck ∷ []) ≡ some grace_over
unfolding program
one_hangs = refl

logs :
    (run_forever true
      (record { services = quick ∷ stuck ∷ []; shut = false })
      (signal "interrupt")).0
    ≡ "Service s failed to start: InternalError: no port"
      ∷ "Received signal interrupt, shutting down gracefully..." ∷ []
unfolding program
logs = refl

stops_without_listener : stop (build (new_http_service_builder "h")) ≡ none
unfolding program
stops_without_listener = refl

prefers :
    (set_http_version (new_http_peer "a:80" false "").options (pos 0) (pos 1)).http_version.http2
    ≡ pos 0
unfolding program
prefers = refl

graceful_shutdown-AllStop_example :
    ((graceful_shutdown true (quick ∷ stuck ∷ []) ≡ none) × AllStop grace (quick ∷ stuck ∷ []))
    ⊎ ((graceful_shutdown true (quick ∷ stuck ∷ []) ≡ some grace_over)
        × (AllStop (grace -ℤ pos 1) (quick ∷ stuck ∷ []) → ⊥))
graceful_shutdown-AllStop_example = graceful_shutdown-AllStop true (quick ∷ stuck ∷ [])
