-- ===== src/Proxy/Simple.antt =====
-- pkg/proxy/proxy.go, SimpleProxyService.
use pin_go.Base.{String, [], ◌∷◌, Option, none, some, pos}
use pin_go.Errors.{Error}
use pin_go.LoadBalancing.Random.{Generator}
use pin_go.Proxy.Service.{
  ProxyService, ProxyConfig, Created, created, rejected, new_proxy_service, Listened, add_listener,
}

-- What SimpleProxyService comes to: a service, or log.Fatalf with a message and an error.
pub data Simple : Type 1 where
  service : ProxyService → Simple
  fatal : String → Error → Simple

abbrev pub simple_config : String → ProxyConfig
simple_config upstream_addr = record {
  upstreams = upstream_addr ∷ [];
  load_balancing_method = "";
  health_check_interval = pos 0;
  connect_timeout = pos 0;
  response_timeout = pos 0;
  max_idle_conns = pos 0;
  max_conns_per_host = pos 0;
  keep_alive = pos 0;
}

unfoldable pub listen_or_die : ProxyService → Option Error → Simple
listen_or_die p none = service p
listen_or_die p (some e) = fatal "Failed to add TCP listener" e

unfoldable pub simple_from : String → Listened → Created → Simple
unfolding listen_or_die
simple_from listen_addr l (rejected e) = fatal "Failed to create proxy service" e
simple_from listen_addr l (created p) =
    let (p', error) = add_listener p listen_addr l in listen_or_die p' error

unfoldable pub simple_proxy_service :
    (gen : Generator) → gen.Rand → String → String → Listened → Simple
unfolding simple_from
simple_proxy_service gen rand listen_addr upstream_addr l =
    simple_from listen_addr l
      (new_proxy_service gen rand "simple-proxy" (some (simple_config upstream_addr)))
