-- ===== src/Cmd/Tests.antt =====
-- cmd/pingora/main.go, at concrete inputs.
use Prim.Native.Nat.{◌%◌}
use pin_go.Base.{ℕ, ◌+◌, ◌<◌, ◌≡◌, refl, [], ◌∷◌, none, true, arith}
use pin_go.Http.Headers.{Values}
use pin_go.Base.Dict.{RangeOrder}
use pin_go.Core.Server.{Service, signal}
use pin_go.LoadBalancing.Random.{Generator}
use pin_go.Proxy.Service.{ProxyService, listening, unknown_method}
use pin_go.Cmd.Ends.{run_proxy-died}
use pin_go.Base.{some, pos}
use pin_go.Programs.{died}
use pin_go.Cmd.{
  fetched, unreachable, run_server, run_client, run_proxy, usage, proxy, dispatch, command, get_env,
  echo_text,
}

program : Unit {0}
unfolding dispatch command get_env echo_text
program = tt

abbrev in_order : RangeOrder Values
in_order = record { range = λ m. m; lookup-range = λ k m. refl; range-Distinct = λ m d. d }

runs : dispatch ("proxy" ∷ []) ≡ proxy
unfolding program
runs = refl

explains : dispatch [] ≡ usage
unfolding program
explains = refl

default_address : get_env (λ key. "") "LISTEN" ":8080" ≡ ":8080"
unfolding program
default_address = refl

echoes :
    echo_text in_order "GET" "/" (("A", "1" ∷ "2" ∷ []) ∷ []) "10.0.0.1:9"
    ≡ "{\n  \"method\": \"GET\",\n  \"path\": \"/\",\n  \"headers\": {\n    \"A\": \"1\",\n    \"A\": \"2\"\n  },\n  \"remote_addr\": \"10.0.0.1:9\"\n}"
unfolding program
echoes = refl

counter_lt : (n s : ℕ) → 0 < n → s % n < n
counter_lt n s h = omega arith

abbrev counter : Generator
counter = record { Rand = ℕ; intn = λ n s. (s % n, s + 1); intn_lt = counter_lt }

abbrev as_service : ProxyService → Service
as_service p = record {
  name = p.name;
  start = none;
  stop = record { takes = some (pos 0); outcome = none };
}

run_proxy-died_example :
    run_proxy counter 0 (λ key. "") (listening 1) as_service true (signal "interrupt")
    ≡ died "Failed to create proxy service" (unknown_method "")
run_proxy-died_example =
    run_proxy-died counter 0 (λ key. "") (listening 1) as_service true (signal "interrupt")

lists_headers :
    run_client in_order (λ key. "") (λ url. fetched "200 OK" (("A", "1" ∷ "2" ∷ []) ∷ [])) ≡ (
      "Making request to http://httpbin.org/get" ∷ "Status: 200 OK" ∷ "Headers:" ∷ "  A: 1"
          ∷ "  A: 2" ∷ [],
      none,
    )
unfolding run_client get_env
lists_headers = refl

no_answer :
    run_client in_order (λ key. "u") (λ url. unreachable "timeout")
    ≡ ("Making request to u" ∷ [], some "Request failed: timeout")
unfolding run_client get_env
no_answer = refl

serves_on : (run_server (λ key. ":1") "in use").0.addr ≡ ":1"
unfolding run_server get_env
serves_on = refl
