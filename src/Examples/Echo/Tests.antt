-- ===== src/Examples/Echo/Tests.antt =====
-- internal/examples/examples.go, type EchoService, at concrete inputs.
use pin_go.Base.{◌≡◌, ◌≢◌, ◌⊎◌, refl, List, [], ◌∷◌, none, some}
use pin_go.Base.Dict.{RangeOrder}
use pin_go.Http.Headers.{Values}
use pin_go.Proxy.Service.{listening, refused}
use pin_go.Examples.Echo.{no_listeners, new_echo_service, start, stop, echo_handler, health_handler}
use pin_go.Examples.Echo.Lifecycle.{Call, tcp, uds, tls, run, opened, Serves, run-Serves}

abbrev in_order : RangeOrder Values
in_order = record { range = λ m. m; lookup-range = λ k m. refl; range-Distinct = λ m d. d }

abbrev calls : List Call
calls =
    tcp ":80" (listening 1) ∷ uds "/tmp/s" (refused "in use") ∷ tls ∷ tcp ":81" (listening 2) ∷ []

two_listeners : (run (new_echo_service "e") calls).listeners ≡ 1 ∷ 2 ∷ []
unfolding run new_echo_service
two_listeners = refl

logged : stop (start (run (new_echo_service "e") calls)).0 none (λ l. some "closed") ≡ (
  1 ∷ 2 ∷ [],
  "Failed to close listener: closed" ∷ "Failed to close listener: closed" ∷ [],
  none,
)
unfolding run new_echo_service start stop
logged = refl

healthy :
    (health_handler (new_echo_service "e") "now").body
    ≡ "{\"status\": \"ok\", \"service\": \"e\", \"timestamp\": \"now\"}"
unfolding health_handler new_echo_service
healthy = refl

-- A quotation mark in a value is not escaped.
bare_quote :
    (echo_handler in_order
      (new_echo_service "e")
      "GET"
      "/"
      ""
      (("Etag", "\"x\"" ∷ []) ∷ [])
      "a"
      "b").body
    ≡ "{\n  \"method\": \"GET\",\n  \"path\": \"/\",\n  \"query\": \"\",\n  \"headers\": {\n    \"Etag\": \"\"x\"\"\n  },\n  \"remote_addr\": \"a\",\n  \"timestamp\": \"b\"\n}"
unfolding echo_handler new_echo_service
bare_quote = refl

run-Serves_example :
    (opened calls ≡ [])
      × (start (run (new_echo_service "e") calls)
          ≡ (run (new_echo_service "e") calls, some no_listeners))
    ⊎ (opened calls ≢ []) × Serves (run (new_echo_service "e") calls) (1 ∷ 2 ∷ [])
run-Serves_example = run-Serves "e" calls
