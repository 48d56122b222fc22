-- ===== src/Examples/Echo.antt =====
-- internal/examples/examples.go, type EchoService. A listener is the number that names it. What
-- net.Listen, Shutdown and the Close of a listener bring is an argument, and so is the text of the
-- present time.
mod Lifecycle
mod Tests
use Prim.Native.String.{◌++◌}
use mathlib.Core.List.{◌++◌ as ◌append◌}
use pin_go.Base.{ℕ, String, true, List, [], ◌∷◌, Option, none, some, pos, ◌*ℤ◌, Duration, second}
use pin_go.Base.Dict.{Entries, RangeOrder}
use pin_go.Errors.{Error, foreign, connection_error, internal_error, new, new_with_cause}
use pin_go.Http.Headers.{Values}
use pin_go.Proxy.Service.{Listened, listening, refused}
use pin_go.Programs.{echo_headers}

-- The `http.Server` literal of Start, with the listeners that it serves.
pub record HttpServer : Type 0 where
  pub read_timeout : Duration
  pub write_timeout : Duration
  pub idle_timeout : Duration
  pub serves : List ℕ

pub record EchoService : Type 0 where
  pub name : String
  pub listeners : List ℕ
  pub server : Option HttpServer

unfoldable pub new_echo_service : String → EchoService
new_echo_service name = record { name = name; listeners = []; server = none }

-- The end of AddTCP and of AddUDS, which differ in the network that they listen on.
unfoldable pub add_listener : EchoService → String → Listened → EchoService × Option Error
add_listener e addr (refused text) =
    (e, some (new_with_cause connection_error ("failed to listen on " ++ addr) (foreign text)))
add_listener e addr (listening l) = (record e { listeners = e.listeners append (l ∷ []) }, none)

abbrev pub add_tcp : EchoService → String → Listened → EchoService × Option Error
add_tcp = add_listener

abbrev pub add_uds : EchoService → String → Listened → EchoService × Option Error
add_uds = add_listener

abbrev pub add_tls : EchoService → EchoService × Option Error
add_tls e = (e, some (new internal_error "TLS not implemented in echo service"))

abbrev pub no_listeners : Error
no_listeners = new internal_error "no listeners configured"

start_on : EchoService → List ℕ → EchoService × Option Error
start_on e [] = (e, some no_listeners)
start_on e (l ∷ ls) = (
  record e {
    server = some (record {
      read_timeout = pos 30 *ℤ second;
      write_timeout = pos 30 *ℤ second;
      idle_timeout = pos 60 *ℤ second;
      serves = l ∷ ls;
    });
  },
  none,
)

unfoldable pub start : EchoService → EchoService × Option Error
unfolding start_on
start e = start_on e e.listeners

abbrev pub no_shutdown : String → Error
no_shutdown text = new_with_cause internal_error "failed to shutdown server" (foreign text)

-- What Stop returns, where `problem` is the error of Shutdown.
stopped : Option HttpServer → Option String → Option Error
stopped none problem = none
stopped (some server) none = none
stopped (some server) (some text) = some (no_shutdown text)

unfoldable pub stop_outcome : EchoService → Option String → Option Error
unfolding stopped
stop_outcome e problem = stopped e.server problem

abbrev log_close : Option String → List String
log_close none = []
log_close (some text) = ("Failed to close listener: " ++ text) ∷ []

-- The loop over the listeners, as what it logs.
close_all : (ℕ → Option String) → List ℕ → List String
close_all closing [] = []
close_all closing (l ∷ ls) = log_close (closing l) append close_all closing ls

-- `Stop`: the listeners that it closes, what it logs and what it returns.
stop_after : (ℕ → Option String) → List ℕ → Option Error → List ℕ × List String × Option Error
unfolding close_all
stop_after closing ls none = (ls, close_all closing ls, none)
stop_after closing ls (some e) = ([], [], some e)

unfoldable pub stop :
    EchoService → Option String → (ℕ → Option String) → List ℕ × List String × Option Error
unfolding stop_after stop_outcome
stop e problem closing = stop_after closing e.listeners (stop_outcome e problem)

-- The headers that a handler sets and the body that it writes.
pub record Page : Type 0 where
  pub header : Entries String
  pub body : String

-- `time.Now().Format(time.RFC3339)` is `now`.
unfoldable pub echo_handler :
    RangeOrder Values
    → EchoService
    → String
    → String
    → String
    → Entries Values
    → String
    → String
    → Page
unfolding echo_headers
echo_handler order e method path query header remote_addr now = record {
  header = ("Content-Type", "application/json") ∷ ("X-Service", e.name) ∷ [];
  body =
      "{\n  \"method\": \""
      ++ (method
          ++ ("\",\n  \"path\": \""
              ++ (path
                  ++ ("\",\n  \"query\": \""
                      ++ (query
                          ++ ("\",\n  \"headers\": {"
                              ++ (echo_headers (order.range header) true
                                  ++ ("\n  },\n  \"remote_addr\": \""
                                      ++ (remote_addr
                                          ++ ("\",\n  \"timestamp\": \""
                                              ++ (now ++ "\"\n}")))))))))));
}

unfoldable pub health_handler : EchoService → String → Page
health_handler e now = record {
  header = ("Content-Type", "application/json") ∷ [];
  body =
      "{\"status\": \"ok\", \"service\": \""
      ++ (e.name ++ ("\", \"timestamp\": \"" ++ (now ++ "\"}")));
}
