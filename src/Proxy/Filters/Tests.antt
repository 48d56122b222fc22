-- ===== src/Proxy/Filters/Tests.antt =====
-- pkg/proxy/proxy.go, type ProxyHTTP, at concrete inputs.
use pin_go.Base.{◌≡◌, refl, [], none, some}
use pin_go.Http.Request.{RequestHeader}
use pin_go.Proxy.Filters.{new_proxy_http, proxy_http}

peer : proxy_http.upstream_peer (new_proxy_http "a:80") ≡ "a:80"
unfolding new_proxy_http
peer = refl

abbrev request : RequestHeader
request = record { method = "GET"; uri = "/"; version = "HTTP/1.1"; headers = some [] }

unchanged : proxy_http.request_filter (new_proxy_http "a:80") request ≡ (request, none)
unchanged = refl
