-- ===== src/Examples/Tests.antt =====
-- internal/examples/examples.go and cmd/examples/main.go, at concrete inputs.
use Prim.Native.Nat.{◌%◌}
use pin_go.Base.{ℕ, ◌+◌, ◌<◌, ◌≡◌, refl, [], ◌∷◌, none, some, pos, true, ◌*ℤ◌, arith}
use pin_go.Examples.Echo.{new_echo_service}
use pin_go.Examples.Echo
use pin_go.Core.Server.{new_server, add_service, run_forever, signal, shutdown_requested}
use pin_go.LoadBalancing.Random.{Generator}
use pin_go.Proxy.Service.{
  listening, unknown_method, new_proxy_service, with_upstreams, with_balancer, choose_balancer,
}
use pin_go.Programs.{returned, after_server}
use pin_go.Examples.{
  Stopping, echo_as_service, multi, usage, choose, dead, echo_server_example, multi_service_example,
}
use pin_go.Examples.Ends.{Dies, multi_service_example-Dies}

multi_chosen : choose ("multi" ∷ []) ≡ multi
unfolding choose
multi_chosen = refl

unknown_chosen : choose ("proxy" ∷ []) ≡ usage
unfolding choose
unknown_chosen = refl

counter_lt : (n s : ℕ) → 0 < n → s % n < n
counter_lt n s h = omega arith

abbrev counter : Generator
counter = record { Rand = ℕ; intn = λ n s. (s % n, s + 1); intn_lt = counter_lt }

abbrev quick : Stopping
quick = record { takes = some (pos 5); problem = none }

echo_returns :
    echo_server_example true (signal "interrupt") (listening 1) quick
    ≡ ("Received signal interrupt, shutting down gracefully..." ∷ [], returned)
unfolding echo_server_example Echo.add_listener Echo.start new_echo_service run_forever after_server
    add_service new_server echo_as_service ◌*ℤ◌
echo_returns = refl

dies_at_the_proxy :
    multi_service_example true shutdown_requested
      (listening 1)
      (listening 2)
      (listening 3)
      quick
      quick
      quick
      counter
      0
    ≡ dead "Failed to create proxy service" (unknown_method "")
unfolding multi_service_example Echo.add_listener new_echo_service new_proxy_service with_upstreams
    with_balancer choose_balancer
dies_at_the_proxy = refl

multi_service_example-Dies_example : Dies (listening 1) (listening 2) (
    multi_service_example true shutdown_requested
      (listening 1)
      (listening 2)
      (listening 3)
      quick
      quick
      quick
      counter
      0)
multi_service_example-Dies_example =
    multi_service_example-Dies true shutdown_requested (listening 1) (listening 2) (listening 3)
      quick quick quick counter 0
