-- ===== src/Proxy/Service/Tests.antt =====
-- pkg/proxy/proxy.go, type ProxyService, at concrete inputs.
use Prim.Native.Nat.{◌%◌}
use pin_go.Base.{
  ℕ, ◌+◌, ◌<◌, String, ◌≡◌, refl, true, if◌then◌else◌, List, [], ◌∷◌, none, some, pos, length,
  arith,
}
use pin_go.Errors.{new}
use pin_go.LoadBalancing.Random.{Generator}
use pin_go.LoadBalancing.LeastConnection.Answering.{least_connection}
use pin_go.LoadBalancing.Backends.{make_backends}
use pin_go.Proxy.Forwarding.{Network, Request, parsed, malformed, unreachable}
use pin_go.Proxy.Service.{
  ProxyService, default_config, pool_config, no_upstreams, rejected, new_proxy_service,
  with_upstreams, listening, add_listener, start, start_on, stop, stop_server, no_listeners,
  handle_request,
}
use pin_go.LoadBalancing.Backends.{Backend}
use pin_go.LoadBalancing.RoundRobin.{RoundRobin, select_backend}
use pin_go.LoadBalancing.RoundRobin.Turns.{after_turns}
use pin_go.Proxy.Forwarding.{Writer, proxy_request}
use pin_go.Proxy.Service.{handled, panicked, answer_error}
use pin_go.Proxy.Service.Turns.{balanced_by, after_requests, handle_request_fair}
use pin_go.Proxy.Service.Handling.{Handles, handle_request-Handles}
use pin_go.Proxy.Service.Creation.{Makes, new_proxy_service-Makes}

program : Unit {0}
unfolding least_connection new_proxy_service with_upstreams add_listener start start_on stop
    stop_server new
program = tt

counter_lt : (n s : ℕ) → 0 < n → s % n < n
counter_lt n s h = omega arith

abbrev counter : Generator
counter = record { Rand = ℕ; intn = λ n s. (s % n, s + 1); intn_lt = counter_lt }

abbrev net : Network
net = record {
  canonical = λ name. name;
  order = record { range = λ m. m; lookup-range = λ k m. refl; range-Distinct = λ m d. d };
  parse_url = λ s. malformed "down";
  new_request = λ method url. parsed url;
  split_host = λ s. s;
  send = λ out. unreachable "down";
}

abbrev request : Request
request = record {
  method = "GET";
  path = "/";
  raw_query = "";
  host = "shop";
  remote_addr = "10.0.0.1:99";
  tls = true;
  header = [];
  body = 0;
}

abbrev proxy : List String → ProxyService
unfolding least_connection
proxy addresses = record {
  name = "p";
  upstreams = addresses;
  load_balancer = record {
    interface = least_connection;
    state = record { backends = make_backends addresses };
  };
  conn_pool = pool_config default_config;
  listeners = [];
  server = none;
}

needs_upstreams : new_proxy_service counter 0 "p" none ≡ rejected no_upstreams
unfolding program
needs_upstreams = refl

nothing_to_serve : (start (proxy [])).1 ≡ some no_listeners
unfolding program
nothing_to_serve = refl

serves_both :
    (start
      (add_listener (add_listener (proxy []) "a" (listening 1)).0 "b" (listening 2)).0).0.server
    ≡ some (1 ∷ 2 ∷ [])
unfolding program
serves_both = refl

closes_all : (stop (record (proxy []) { listeners = 1 ∷ 2 ∷ [] }) none).0 ≡ 1 ∷ 2 ∷ []
unfolding program
closes_all = refl

keeps_open :
    (stop (record (proxy []) { listeners = 1 ∷ []; server = some (1 ∷ []) }) (some "late")).0 ≡ []
unfolding program
keeps_open = refl

handle_request-Handles_example :
    Handles net
      (proxy ("a:80" ∷ []))
      (record { header = []; calls = [] })
      request
      (handle_request net (proxy ("a:80" ∷ [])) (record { header = []; calls = [] }) request)
handle_request-Handles_example =
    handle_request-Handles net (proxy ("a:80" ∷ [])) (record { header = []; calls = [] }) request

new_proxy_service-Makes_example :
    Makes "p"
      (record default_config { upstreams = "a:80" ∷ [] })
      (new_proxy_service counter 0 "p" (some (record default_config { upstreams = "a:80" ∷ [] })))
new_proxy_service-Makes_example =
    new_proxy_service-Makes counter 0 "p" (some (record default_config { upstreams = "a:80" ∷ [] }))

-- The second of two backends, where the counter is at the first.
abbrev second : Backend
second = record { address = "b:80"; healthy = true; weight = pos 1; connections = pos 0 }

abbrev turns : RoundRobin
turns = record { backends = record second { address = "a:80" } ∷ second ∷ []; current = 4 }

handle_request_fair_example :
    (k : ℕ) × (k < 2)
    × ((rs : List (Writer × Request)) (w : Writer) (r : Request)
        → length rs ≡ k
        → let q = proxy_request net w r "b:80" in
          handle_request net (after_requests net (balanced_by (proxy []) turns) rs) w r ≡ (
            let p' = balanced_by (proxy []) (select_backend (after_turns k turns)).0 in
            if q.panicked then panicked p' else handled p' (answer_error q q.error)))
handle_request_fair_example = handle_request_fair net (proxy []) turns 1 second refl (omega arith)
