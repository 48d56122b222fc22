-- ===== src/Proxy/Filters.antt =====
-- pkg/proxy/proxy.go, type ProxyHTTP and the interface HTTPProxy. Of the http.Client, which no method
-- uses, the settings are modelled.
mod Tests
use pin_go.Base.{String, Option, none, ℤ, pos, ◌*ℤ◌, Duration, second}
use pin_go.Errors.{Error}
use pin_go.Http.Request.{RequestHeader}
use pin_go.Http.Response.{ResponseHeader}

-- The interface HTTPProxy: a filter may change the header that it is given.
pub record HttpProxy : Type 1 where
  pub Proxy : Type 0
  pub request_filter : Proxy → RequestHeader → RequestHeader × Option Error
  pub response_filter : Proxy → ResponseHeader → ResponseHeader × Option Error
  pub upstream_peer : Proxy → String

pub record ClientSettings : Type 0 where
  pub timeout : Duration
  pub dial_timeout : Duration
  pub keep_alive : Duration
  pub max_idle_conns : ℤ
  pub idle_conn_timeout : Duration
  pub tls_handshake_timeout : Duration

pub record ProxyHttp : Type 0 where
  pub upstream_addr : String
  pub client : ClientSettings

unfoldable pub new_proxy_http : String → ProxyHttp
new_proxy_http upstream_addr = record {
  upstream_addr = upstream_addr;
  client = record {
    timeout = pos 30 *ℤ second;
    dial_timeout = pos 10 *ℤ second;
    keep_alive = pos 30 *ℤ second;
    max_idle_conns = pos 100;
    idle_conn_timeout = pos 90 *ℤ second;
    tls_handshake_timeout = pos 10 *ℤ second;
  };
}

abbrev pub request_filter : ProxyHttp → RequestHeader → RequestHeader × Option Error
request_filter p req = (req, none)

abbrev pub response_filter : ProxyHttp → ResponseHeader → ResponseHeader × Option Error
response_filter p resp = (resp, none)

abbrev pub upstream_peer : ProxyHttp → String
upstream_peer p = p.upstream_addr

-- ProxyHTTP as an HTTPProxy.
abbrev pub proxy_http : HttpProxy
proxy_http = record {
  Proxy = ProxyHttp;
  request_filter = request_filter;
  response_filter = response_filter;
  upstream_peer = upstream_peer;
}
