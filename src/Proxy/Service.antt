-- ===== src/Proxy/Service.antt =====
-- pkg/proxy/proxy.go, type ProxyService. A listener is the number that names it, and the connection
-- pool is its configuration, since the http.Client in it is net/http's.
mod Handling
mod Turns
pub mod Creation
mod Tests
use Prim.Native.String.{◌++◌}
use mathlib.Core.List.{◌++◌ as ◌append◌}
use pin_go.Base.{
  ℕ, String, str_eq, Bool, false, List, [], ◌∷◌, map, Option, none, some, ℤ, pos, ◌*ℤ◌, Duration,
  second, if◌then◌else◌,
}
use pin_go.Errors.{
  Error, foreign, proxy_error, load_balancing_error, connection_error, internal_error,
  http_status_code, new, new_with_cause,
}
use pin_go.LoadBalancing.Contract.{LoadBalancer, Selection, selected, failed, crashed}
use pin_go.LoadBalancing.RoundRobin.{new_round_robin}
use pin_go.LoadBalancing.RoundRobin.Turns.{round_robin}
use pin_go.LoadBalancing.Random.{Generator, new_random}
use pin_go.LoadBalancing.Random.Draws.{random}
use pin_go.LoadBalancing.LeastConnection.{new_least_connection}
use pin_go.LoadBalancing.LeastConnection.Answering.{least_connection}
use pin_go.Pool.{PoolConfig}
use pin_go.Proxy.Forwarding.{Network, Request, Writer, Proxied, error_page, proxy_request}

-- A value of the interface LoadBalancer: the implementation and its state.
pub record Balancing : Type 1 where
  pub interface : LoadBalancer
  pub state : interface.Balancer

-- `server` is the list of listeners that the http.Server of the last Start serves.
pub record ProxyService : Type 1 where
  pub name : String
  pub upstreams : List String
  pub load_balancer : Balancing
  pub conn_pool : PoolConfig
  pub listeners : List ℕ
  pub server : Option (List ℕ)

pub record ProxyConfig : Type 0 where
  pub upstreams : List String
  pub load_balancing_method : String
  pub health_check_interval : Duration
  pub connect_timeout : Duration
  pub response_timeout : Duration
  pub max_idle_conns : ℤ
  pub max_conns_per_host : ℤ
  pub keep_alive : Duration

-- The configuration of a call without one.
abbrev pub default_config : ProxyConfig
default_config = record {
  upstreams = [];
  load_balancing_method = "round_robin";
  health_check_interval = pos 30 *ℤ second;
  connect_timeout = pos 10 *ℤ second;
  response_timeout = pos 30 *ℤ second;
  max_idle_conns = pos 100;
  max_conns_per_host = pos 10;
  keep_alive = pos 30 *ℤ second;
}

abbrev pub or_default_config : Option ProxyConfig → ProxyConfig
or_default_config none = default_config
or_default_config (some c) = c

abbrev pub no_upstreams : Error
no_upstreams = new proxy_error "at least one upstream is required"

abbrev pub unknown_method : String → Error
unknown_method name = new load_balancing_error ("unknown load balancing method: " ++ name)

-- The `PoolConfig` literal, which leaves IdleTimeout at 0.
abbrev pub pool_config : ProxyConfig → PoolConfig
pool_config c = record {
  max_idle_conns = c.max_idle_conns;
  max_conns_per_host = c.max_conns_per_host;
  keep_alive = c.keep_alive;
  connect_timeout = c.connect_timeout;
  idle_timeout = pos 0;
}

pub data Created : Type 1 where
  created : ProxyService → Created
  rejected : Error → Created

-- math/rand and the state that the random balancer starts with.
module _ (gen : Generator) (rand : gen.Rand) where
  -- The `switch` on the method.
  unfoldable pub choose_balancer : String → List String → Option Balancing
  unfolding round_robin random least_connection
  choose_balancer name upstreams =
      if str_eq name "round_robin"
      then some (record { interface = round_robin; state = new_round_robin upstreams })
      else if str_eq name "random"
      then some (record { interface = random gen; state = new_random gen upstreams rand })
      else if str_eq name "least_conn"
      then some (record { interface = least_connection; state = new_least_connection upstreams })
      else none

  unfoldable pub with_balancer : String → ProxyConfig → Option Balancing → Created
  with_balancer name c none = rejected (unknown_method c.load_balancing_method)
  with_balancer name c (some b) = created (record {
    name = name;
    upstreams = c.upstreams;
    load_balancer = b;
    conn_pool = pool_config c;
    listeners = [];
    server = none;
  })

  unfoldable pub with_upstreams : String → ProxyConfig → List String → Created
  unfolding choose_balancer with_balancer
  with_upstreams name c [] = rejected no_upstreams
  with_upstreams name c (u ∷ us) =
      with_balancer name c (choose_balancer c.load_balancing_method (u ∷ us))

  unfoldable pub new_proxy_service : String → Option ProxyConfig → Created
  unfolding with_upstreams
  new_proxy_service name config =
      let c = or_default_config config in with_upstreams name c c.upstreams

-- What net.Listen returns.
pub data Listened : Type 0 where
  listening : ℕ → Listened
  refused : String → Listened

-- `addListener`, which AddTCP and AddUDS call for their network.
unfoldable pub add_listener : ProxyService → String → Listened → ProxyService × Option Error
add_listener p addr (refused text) =
    (p, some (new_with_cause connection_error ("failed to listen on " ++ addr) (foreign text)))
add_listener p addr (listening l) = (record p { listeners = p.listeners append (l ∷ []) }, none)

abbrev pub add_tls : ProxyService → ProxyService × Option Error
add_tls p = (p, some (new internal_error "TLS not implemented yet"))

abbrev pub no_listeners : Error
no_listeners = new proxy_error "no listeners configured"

start_on : ProxyService → List ℕ → ProxyService × Option Error
start_on p [] = (p, some no_listeners)
start_on p (l ∷ ls) = (record p { server = some (l ∷ ls) }, none)

unfoldable pub start : ProxyService → ProxyService × Option Error
unfolding start_on
start p = start_on p p.listeners

-- `Stop`: the listeners that it closes, where `problem` is the error of Shutdown. The errors of the
-- Close calls are only logged.
stop_server : ProxyService → Option (List ℕ) → Option String → List ℕ × Option Error
stop_server p none problem = (p.listeners, none)
stop_server p (some served) none = (p.listeners, none)
stop_server p (some served) (some text) =
    ([], some (new_with_cause proxy_error "failed to shutdown server" (foreign text)))

unfoldable pub stop : ProxyService → Option String → List ℕ × Option Error
unfolding stop_server
stop p problem = stop_server p p.server problem

pub data Handled : Type 1 where
  handled : ProxyService → Proxied → Handled
  panicked : ProxyService → Handled

-- `http.Error`, on the writer of a result.
abbrev pub with_page : String → ℤ → Writer → Writer
with_page text status w = record w { calls = w.calls append (error_page text status ∷ []) }

-- The end of `handleRequest`. An http.Error behind a WriteHeader changes the status no more.
pub answer_error : Proxied → Option Error → Proxied
answer_error q none = q
answer_error q (some e) = record q {
  writer = with_page "Proxy error" (http_status_code e) q.writer;
}

module _ (net : Network) where
  pub after_selection : ProxyService → Writer → Request → Selection → Handled
  unfolding answer_error
  after_selection p w r (failed e) = handled p (record {
    writer = with_page "No available upstream" (pos 502) w;
    sent = none;
    error = none;
    panicked = false;
  })
  after_selection p w r (selected upstream) =
      let q = proxy_request net w r upstream in
      if q.panicked then panicked p else handled p (answer_error q q.error)
  after_selection p w r crashed = panicked p

  abbrev pub with_state : (p : ProxyService) → p.load_balancer.interface.Balancer → ProxyService
  with_state p b = record p {
    load_balancer = record { interface = p.load_balancer.interface; state = b };
  }

  unfoldable pub handle_request : ProxyService → Writer → Request → Handled
  unfolding after_selection
  handle_request p w r =
      let (b, selection) = p.load_balancer.interface.select_backend p.load_balancer.state in
      after_selection (with_state p b) w r selection
