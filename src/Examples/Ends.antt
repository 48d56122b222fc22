-- ===== src/Examples/Ends.antt =====
-- internal/examples/examples.go: how the three examples end.
use mathlib.Core.List.{◌++◌ as ◌append◌}
use mathlib.Core.Path.{subst}
use pin_go.Base.{
  ℕ, String, Bool, ◌≡◌, refl, ap, sym, ◌∙◌, ◌⊎◌, inl, inr, List, [], ◌∷◌, none, ◌-ℤ◌, pos,
}
use pin_go.Errors.{Error, foreign, connection_error, new_with_cause}
use pin_go.Core.Server.{
  Wakes, Service, grace, grace_over, log_wake, log_failure, start_all, graceful_shutdown,
  new_server, add_service, run_forever,
}
use pin_go.Core.Server.Stopping.{StopsIn, graceful_shutdown-AllStop}
use pin_go.LoadBalancing.Random.{Generator}
use pin_go.Proxy.Service.{
  Listened, listening, refused, unknown_method, choose_balancer, with_balancer, with_upstreams,
  new_proxy_service, add_listener, start,
}
use pin_go.Programs.{Ended, died, returned, after_server}
use pin_go.Examples.{
  Stopping, dead, ran, echo_as_service, proxy_as_service, echo_server_example,
  load_balancer_example, multi_service_example,
}
use pin_go.Examples.Echo
use pin_go.Examples.Echo.{EchoService, new_echo_service}

abbrev pub cannot_listen : String → String → Error
cannot_listen message text = new_with_cause connection_error message (foreign text)

-- The end of a server whose only service starts.
abbrev pub Serves : Wakes → Stopping → List String × Ended → Type 0
Serves wakes how r =
    ((r ≡ (log_wake wakes ∷ [], returned)) × StopsIn grace how.takes)
    ⊎ ((r ≡ (log_wake wakes ∷ [], died "Server failed" grace_over))
        × (StopsIn (grace -ℤ pos 1) how.takes → ⊥))

-- The end of an example with one service, by what net.Listen returns.
abbrev pub Ends : Listened → Wakes → Stopping → List String × Ended → Type 0
Ends (refused text) wakes how r =
    r ≡ dead "Failed to add TCP listener" (cannot_listen "failed to listen on :8080" text)
Ends (listening l) wakes how r = Serves wakes how r

run_one :
    (pick : Bool) (wakes : Wakes) (s : Service)
    → s.start ≡ none
    → ran (run_forever pick (add_service (new_server none) s) wakes)
      ≡ (log_wake wakes ∷ [], after_server (graceful_shutdown pick (s ∷ [])))
unfolding run_forever start_all new_server add_service
run_one pick wakes s e =
    ap
      (λ o. (
        log_failure s.name " failed to start: " o append [] append log_wake wakes ∷ [],
        after_server (graceful_shutdown pick (s ∷ [])),
      ))
      e

run_one-Serves :
    (pick : Bool) (wakes : Wakes) (s : Service) (how : Stopping)
    → s.start ≡ none
    → s.stop.takes ≡ how.takes
    → Serves wakes how (ran (run_forever pick (add_service (new_server none) s) wakes))
unfolding after_server
run_one-Serves pick wakes s how e f = elim (graceful_shutdown-AllStop pick (s ∷ [])) [
  | inl (g, h) ↦ inl (
    run_one pick wakes s e ∙ ap (λ x. (log_wake wakes ∷ [], after_server x)) g,
    subst (StopsIn grace) f h.0,
  )
  | inr (g, h) ↦ inr (
    run_one pick wakes s e ∙ ap (λ x. (log_wake wakes ∷ [], after_server x)) g,
    λ t. h (subst (StopsIn (grace -ℤ pos 1)) (sym f) t, tt),
  )
]

-- EchoServerExample and LoadBalancerExample end by log.Fatalf if net.Listen fails. Else their one
-- service starts without a failure and is served until the wake of the server; then they return if its
-- Stop ends within 30 seconds, and end by log.Fatalf with the error of the timeout if it does not end
-- before.
pub example-Ends :
    (pick : Bool) (wakes : Wakes) (gen : Generator) (rand : gen.Rand) (l : Listened)
    (how : Stopping)
    → Ends l wakes how (echo_server_example pick wakes l how)
      × Ends l wakes how (load_balancer_example pick wakes gen rand l how)
unfolding echo_server_example load_balancer_example new_echo_service new_proxy_service
    Echo.add_listener Echo.start add_listener start echo_as_service proxy_as_service choose_balancer
    with_balancer with_upstreams
example-Ends pick wakes gen rand (refused text) how = (refl, refl)
example-Ends pick wakes gen rand (listening l) how =
    (run_one-Serves pick wakes _ how refl refl, run_one-Serves pick wakes _ how refl refl)

-- What MultiServiceExample comes to, by what net.Listen returns for the two echo services.
pub data Dies : Listened → Listened → List String × Ended → Type 0 where
  no_first :
      (text : String) (second : Listened)
      → Dies (refused text) second (
          dead "Failed to add TCP listener for echo-1"
            (cannot_listen "failed to listen on :8080" text))
  no_second :
      (l : ℕ) (text : String)
      → Dies (listening l) (refused text) (
          dead "Failed to add TCP listener for echo-2"
            (cannot_listen "failed to listen on :8081" text))
  no_method :
      (l k : ℕ)
      → Dies (listening l) (listening k) (dead "Failed to create proxy service" (unknown_method ""))

-- MultiServiceExample always ends by log.Fatalf before it makes a server: with the error of the first
-- of its two echo services that cannot listen, or else with the unknown method of load balancing,
-- since its configuration of the proxy names none.
pub multi_service_example-Dies :
    (pick : Bool) (wakes : Wakes) (first second third : Listened) (stop1 stop2 stop3 : Stopping)
    (gen : Generator) (rand : gen.Rand)
    → Dies first second
        (multi_service_example pick wakes first second third stop1 stop2 stop3 gen rand)
unfolding multi_service_example new_echo_service new_proxy_service Echo.add_listener choose_balancer
    with_balancer with_upstreams
multi_service_example-Dies pick wakes (refused text) second third stop1 stop2 stop3 gen rand =
    no_first text second
multi_service_example-Dies pick wakes (listening l) (refused text) third stop1 stop2 stop3 gen
      rand =
    no_second l text
multi_service_example-Dies pick wakes (listening l) (listening k) third stop1 stop2 stop3 gen rand =
    no_method l k
