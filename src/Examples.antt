-- ===== src/Examples.antt =====
-- internal/examples/examples.go and cmd/examples/main.go: the example programs. What is printed is
-- left out; the log of the server and the end of the program are the result.
pub mod Echo
mod Ends
mod Tests
use pin_go.Base.{
  String, str_eq, Bool, List, [], ◌∷◌, Option, none, some, Duration, pos, if◌then◌else◌,
}
use pin_go.Errors.{Error}
use pin_go.Core.Server.{Wakes, Server, Service, new_server, add_service, add_services, run_forever}
use pin_go.LoadBalancing.Random.{Generator}
use pin_go.Proxy.Service.{
  ProxyService, ProxyConfig, Created, created, rejected, new_proxy_service, Listened, add_listener,
}
use pin_go.Proxy.Service as Proxying
use pin_go.Programs.{Ended, died, after_server}
use pin_go.Examples.Echo.{EchoService, new_echo_service, add_tcp}
use pin_go.Examples.Echo

-- How the Stop of a service goes: the time that it takes, and the error of the Shutdown in it.
pub record Stopping : Type 0 where
  pub takes : Option Duration
  pub problem : Option String

-- The two types of services as `core.Service`: RunForever calls Start and later Stop.
unfoldable pub echo_as_service : EchoService → Stopping → Service
echo_as_service e how =
    let (e', error) = Echo.start e in
    record {
      name = e.name;
      start = error;
      stop = record { takes = how.takes; outcome = Echo.stop_outcome e' how.problem };
    }

unfoldable pub proxy_as_service : ProxyService → Stopping → Service
proxy_as_service p how =
    let (p', error) = Proxying.start p in
    record {
      name = p.name;
      start = error;
      stop = record { takes = how.takes; outcome = (Proxying.stop p' how.problem).1 };
    }

-- The log of the server with the end of the program.
abbrev pub ran : List String × Option Error → List String × Ended
ran (log, error) = (log, after_server error)

abbrev pub dead : String → Error → List String × Ended
dead text e = ([], died text e)

-- A configuration that names upstreams and a method only.
abbrev pub config : List String → String → ProxyConfig
config upstreams name = record {
  upstreams = upstreams;
  load_balancing_method = name;
  health_check_interval = pos 0;
  connect_timeout = pos 0;
  response_timeout = pos 0;
  max_idle_conns = pos 0;
  max_conns_per_host = pos 0;
  keep_alive = pos 0;
}

abbrev pub balanced_config : ProxyConfig
balanced_config =
    config ("httpbin.org:80" ∷ "httpbingo.org:80" ∷ "postman-echo.com:80" ∷ []) "round_robin"

abbrev pub multi_config : ProxyConfig
multi_config = config ("httpbin.org:80" ∷ []) ""

-- `pick` and `wakes` are those of RunForever.
module _ (pick : Bool) (wakes : Wakes) where
  abbrev pub run_server : List Service → List String × Ended
  run_server services = ran (run_forever pick (add_services (new_server none) services) wakes)

  abbrev run_one : Service → List String × Ended
  run_one s = ran (run_forever pick (add_service (new_server none) s) wakes)

  echo_listened : Stopping → EchoService × Option Error → List String × Ended
  echo_listened how (e, none) = run_one (echo_as_service e how)
  echo_listened how (e, some error) = dead "Failed to add TCP listener" error

  unfoldable pub echo_server_example : Listened → Stopping → List String × Ended
  unfolding echo_listened
  echo_server_example l how = echo_listened how (add_tcp (new_echo_service "echo-server") ":8080" l)

  proxy_listened : Stopping → ProxyService × Option Error → List String × Ended
  proxy_listened how (p, none) = run_one (proxy_as_service p how)
  proxy_listened how (p, some error) = dead "Failed to add TCP listener" error

  balancer_created : Listened → Stopping → Created → List String × Ended
  unfolding proxy_listened
  balancer_created l how (rejected error) = dead "Failed to create proxy service" error
  balancer_created l how (created p) = proxy_listened how (add_listener p ":8080" l)

  unfoldable pub load_balancer_example :
      (gen : Generator) → gen.Rand → Listened → Stopping → List String × Ended
  unfolding balancer_created
  load_balancer_example gen rand l how =
      balancer_created l how (new_proxy_service gen rand "load-balancer" (some balanced_config))

-- What the three listen calls bring in their order, and how the services stop.
module _ (pick : Bool) (wakes : Wakes) (first second third : Listened)
    (stop1 stop2 stop3 : Stopping) where
  multi_run : EchoService → EchoService → ProxyService × Option Error → List String × Ended
  multi_run e1 e2 (p, some error) = dead "Failed to add TCP listener for proxy" error
  multi_run e1 e2 (p, none) =
      run_server pick wakes
        (echo_as_service e1 stop1 ∷ echo_as_service e2 stop2 ∷ proxy_as_service p stop3 ∷ [])

  multi_created : EchoService → EchoService → Created → List String × Ended
  unfolding multi_run
  multi_created e1 e2 (rejected error) = dead "Failed to create proxy service" error
  multi_created e1 e2 (created p) = multi_run e1 e2 (add_listener p ":8082" third)

  multi_second : Created → EchoService → EchoService × Option Error → List String × Ended
  unfolding multi_created
  multi_second c e1 (e2, some error) = dead "Failed to add TCP listener for echo-2" error
  multi_second c e1 (e2, none) = multi_created e1 e2 c

  multi_first : Created → EchoService × Option Error → List String × Ended
  unfolding multi_second
  multi_first c (e1, some error) = dead "Failed to add TCP listener for echo-1" error
  multi_first c (e1, none) = multi_second c e1 (add_tcp (new_echo_service "echo-2") ":8081" second)

  unfoldable pub multi_service_example : (gen : Generator) → gen.Rand → List String × Ended
  unfolding multi_first
  multi_service_example gen rand =
      multi_first (new_proxy_service gen rand "proxy" (some multi_config))
        (add_tcp (new_echo_service "echo-1") ":8080" first)

-- `main` of cmd/examples; `usage` ends with the status 1.
pub data Choice : Type 0 where
  echo loadbalancer multi usage : Choice

unfoldable pub choice : String → Choice
choice arg =
    if str_eq arg "echo"
    then echo
    else if str_eq arg "loadbalancer"
    then loadbalancer
    else if str_eq arg "multi"
    then multi
    else usage

unfoldable pub choose : List String → Choice
unfolding choice
choose [] = usage
choose (arg ∷ args) = choice arg
