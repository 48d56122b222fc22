-- ===== src/Cmd/Ends.antt =====
-- cmd/pingora/main.go, runProxy: how it ends.
use pin_go.Base.{String, ◌≡◌, ap, Bool}
use pin_go.Core.Server.{Wakes, Service}
use pin_go.LoadBalancing.Random.{Generator}
use pin_go.Proxy.Service.{ProxyService, Listened, unknown_method}
use pin_go.Proxy.Service.Creation.{simple_proxy_service-fatal}
use pin_go.Programs.{died}
use pin_go.Cmd.{get_env, serve, run_proxy}

-- The command `proxy` always ends by log.Fatalf before it runs a server, whatever the environment,
-- the listener and the signals are: SimpleProxyService names no method of load balancing, and the
-- empty one is unknown.
pub run_proxy-died :
    (gen : Generator) (rand : gen.Rand) (env : String → String) (l : Listened)
    (as_service : ProxyService → Service) (pick : Bool) (wakes : Wakes)
    → run_proxy gen rand env l as_service pick wakes
      ≡ died "Failed to create proxy service" (unknown_method "")
unfolding run_proxy serve
run_proxy-died gen rand env l as_service pick wakes = ap (serve as_service pick wakes) (
    simple_proxy_service-fatal gen rand (get_env env "LISTEN" ":8080")
      (get_env env "TARGET" "httpbin.org:80") l)
