-- ===== src/Http/Response/Tests.antt =====
-- pkg/http/headers.go, type ResponseHeader, at concrete inputs.
use pin_go.Base.{String, ◌≡◌, refl, none, pos}
use pin_go.Base.Dict.{lookup, insert}
use pin_go.Http.Headers.{add, assign, value_of, headers_text}
use pin_go.Http.Response.{ResponseHeader, insert_header, set_header, get_header, response_text}

program : Unit {0}
unfolding insert_header set_header get_header response_text headers_text add assign value_of lookup
    insert
program = tt

abbrev canonical : String → String
canonical name = name

abbrev response : ResponseHeader
response = record { version = "HTTP/1.1"; status_code = pos 200; status = "OK"; headers = none }

made_on_demand : get_header canonical (insert_header canonical response "Age" "1").0 "Age" ≡ "1"
unfolding program
made_on_demand = refl

nil_headers : get_header canonical response "Age" ≡ ""
unfolding program
nil_headers = refl

prints :
    response_text (λ ks. ks) (λ n. "200") (set_header canonical response "Age" "1").0
    ≡ "HTTP/1.1 200 OK\r\nAge: 1\r\n\r\n"
unfolding program
prints = refl
