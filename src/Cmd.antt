-- ===== src/Cmd.antt =====
-- cmd/pingora/main.go: the command, its environment and the handlers of its echo server. What is
-- printed is left out; the end of the program is the result.
mod Ends
mod Tests
use Prim.Native.String.{◌++◌}
use mathlib.Core.List.{◌++◌ as ◌append◌}
use pin_go.Base.{
  ℕ, String, str_eq, Bool, true, false, List, [], ◌∷◌, Option, none, some, if◌then◌else◌,
}
use pin_go.Base.Dict.{Entries, RangeOrder}
use pin_go.Errors.{Error}
use pin_go.Core.Server.{Wakes, Service, Server, new_server, add_service, run_forever}
use pin_go.LoadBalancing.Random.{Generator}
use pin_go.Http.Headers.{Values}
use pin_go.Programs.{Ended, died, after_server, echo_headers}
use pin_go.Proxy.Service.{ProxyService, Listened}
use pin_go.Proxy.Simple.{Simple, service, fatal, simple_proxy_service}

-- `os.Getenv`, which is empty for a variable that is not set.
unfoldable pub get_env : (String → String) → String → String → String
get_env env key default_value =
    let value = env key in if str_eq value "" then default_value else value

pub data Command : Type 0 where
  proxy server client usage : Command

unfoldable pub command : String → Command
command arg =
    if str_eq arg "proxy"
    then proxy
    else if str_eq arg "server"
    then server
    else if str_eq arg "client"
    then client
    else usage

-- The command of the arguments behind the name of the program; `usage` ends with the status 1.
unfoldable pub dispatch : List String → Command
unfolding command
dispatch [] = usage
dispatch (arg ∷ args) = command arg

-- What the proxy service is for the server, its Start and Stop, is an argument.
pub serve : (ProxyService → Service) → Bool → Wakes → Simple → Ended
unfolding after_server
serve as_service pick wakes (fatal text e) = died text e
serve as_service pick wakes (service p) =
    after_server (run_forever pick (add_service (new_server none) (as_service p)) wakes).1

unfoldable pub run_proxy :
    (gen : Generator)
    → gen.Rand
    → (String → String)
    → Listened
    → (ProxyService → Service)
    → Bool
    → Wakes
    → Ended
unfolding serve get_env
run_proxy gen rand env l as_service pick wakes =
    let listen_addr = get_env env "LISTEN" ":8080" in
    let target_addr = get_env env "TARGET" "httpbin.org:80" in
    serve as_service pick wakes (simple_proxy_service gen rand listen_addr target_addr l)

-- `runServer`: the address and the routes of its http.Server. It ends by log.Fatal with the error of
-- ListenAndServe.
pub data Handler : Type 0 where
  echo_page health_page : Handler

pub record WebServer : Type 0 where
  pub addr : String
  pub routes : List (String × Handler)

unfoldable pub run_server : (String → String) → String → WebServer × String
unfolding get_env
run_server env problem = (
  record {
    addr = get_env env "LISTEN" ":8080";
    routes = ("/", echo_page) ∷ ("/health", health_page) ∷ [];
  },
  problem,
)

-- What http.Get returns: a response with its status line and its header, or an error.
pub data Fetched : Type 0 where
  fetched : String → Entries Values → Fetched
  unreachable : String → Fetched

-- The loops that print the header of a response.
client_values : String → Values → List String
client_values key [] = []
client_values key (v ∷ vs) = ("  " ++ (key ++ (": " ++ v))) ∷ client_values key vs

client_headers : Entries Values → List String
unfolding client_values
client_headers [] = []
client_headers ((key, vs) ∷ header) = client_values key vs append client_headers header

client_report : RangeOrder Values → Fetched → List String × Option String
unfolding client_headers
client_report order (unreachable text) = ([], some ("Request failed: " ++ text))
client_report order (fetched status header) =
    (("Status: " ++ status) ∷ "Headers:" ∷ client_headers (order.range header), none)

-- `runClient`: the lines that it prints, and the text that log.Fatalf ends it with, where `get` is
-- http.Get.
unfoldable pub run_client :
    RangeOrder Values → (String → String) → (String → Fetched) → List String × Option String
unfolding client_report get_env
run_client order env get =
    let target_url = get_env env "URL" "http://httpbin.org/get" in
    let (lines, fatal_text) = client_report order (get target_url) in
    (("Making request to " ++ target_url) ∷ lines, fatal_text)

-- The body that `echoHandler` writes.
unfoldable pub echo_text : RangeOrder Values → String → String → Entries Values → String → String
unfolding echo_headers
echo_text order method path header remote_addr =
    "{\n  \"method\": \""
    ++ (method
        ++ ("\",\n  \"path\": \""
            ++ (path
                ++ ("\",\n  \"headers\": {"
                    ++ (echo_headers (order.range header) true
                        ++ ("\n  },\n  \"remote_addr\": \"" ++ (remote_addr ++ "\"\n}")))))))

abbrev pub health_text : String
health_text = "{\"status\": \"ok\", \"service\": \"pinGo\"}"
