-- ===== src/Examples/Echo/Lifecycle.antt =====
-- internal/examples/examples.go, type EchoService: a service from its first listener to its Stop.
use mathlib.Core.List.{◌++◌}
use pin_go.Base.{
  ℕ, String, ◌≡◌, ◌≢◌, refl, ap, sym, ◌∙◌, ◌⊎◌, inl, inr, List, [], ◌∷◌, Option, none, some,
}
use mathlib.Core.List.{append_assoc, append-nil, nil≢cons}
use pin_go.Proxy.Service.{Listened, listening, refused}
use pin_go.Examples.Echo.{
  EchoService, HttpServer, new_echo_service, add_listener, add_tcp, add_uds, add_tls, start_on,
  start, stop, stop_outcome, stop_after, no_listeners, no_shutdown,
}

-- A call that adds a listener, with what net.Listen returns.
pub data Call : Type 0 where
  tcp uds : String → Listened → Call
  tls : Call

unfoldable pub step : EchoService → Call → EchoService
unfolding add_listener
step e (tcp addr l) = (add_tcp e addr l).0
step e (uds path l) = (add_uds e path l).0
step e tls = (add_tls e).0

unfoldable pub run : EchoService → List Call → EchoService
unfolding step
run e [] = e
run e (c ∷ cs) = run (step e c) cs

abbrev brought : Listened → List ℕ
brought (listening l) = l ∷ []
brought (refused text) = []

abbrev opened_by : Call → List ℕ
opened_by (tcp addr l) = brought l
opened_by (uds path l) = brought l
opened_by tls = []

-- The listeners that net.Listen returned, in their order.
abbrev pub opened : List Call → List ℕ
opened [] = []
opened (c ∷ cs) = opened_by c ++ opened cs

-- The service with further listeners.
abbrev with_listeners : EchoService → List ℕ → EchoService
with_listeners e ls = record e { listeners = e.listeners ++ ls }

unchanged : (e : EchoService) → e ≡ with_listeners e []
unchanged e = ap (λ ls. record e { listeners = ls }) (sym (append-nil e.listeners))

add_listener_lem :
    (e : EchoService) (addr : String) (l : Listened)
    → (add_listener e addr l).0 ≡ with_listeners e (brought l)
unfolding add_listener
add_listener_lem e addr (listening l) = refl
add_listener_lem e addr (refused text) = unchanged e

step_lem : (e : EchoService) (c : Call) → step e c ≡ with_listeners e (opened_by c)
unfolding step
step_lem e (tcp addr l) = add_listener_lem e addr l
step_lem e (uds path l) = add_listener_lem e path l
step_lem e tls = unchanged e

run_lem : (e : EchoService) (cs : List Call) → run e cs ≡ with_listeners e (opened cs)
unfolding run
run_lem e [] = unchanged e
run_lem e (c ∷ cs) =
    ap (λ x. run x cs) (step_lem e c)
    ∙ run_lem (with_listeners e (opened_by c)) cs
    ∙ ap (λ ls. record e { listeners = ls }) (append_assoc e.listeners (opened_by c) (opened cs))

-- What Start and Stop do to a service with these listeners: its server serves all of them, and
-- Stop closes them after a Shutdown without an error.
abbrev pub Serves : EchoService → List ℕ → Type 0
Serves e ls =
    ((start e).1 ≡ none)
    × ((server : HttpServer) × ((start e).0.server ≡ some server) × (server.serves ≡ ls))
    × ((closing : ℕ → Option String)
        → ((stop (start e).0 none closing).0 ≡ ls) × ((stop (start e).0 none closing).2 ≡ none))
    × ((text : String) (closing : ℕ → Option String)
        → stop (start e).0 (some text) closing ≡ ([], [], some (no_shutdown text)))

start-Serves :
    (name : String) (ls : List ℕ)
    → ls ≢ []
    → Serves (record { name = name; listeners = ls; server = none }) ls
unfolding start start_on stop stop_outcome stop_after
start-Serves name [] n = absurd (n refl)
start-Serves name (l ∷ ls) n =
    (refl, (_, refl, refl), (λ closing. (refl, refl)), λ text closing. refl)

by_listeners :
    (name : String) (ls : List ℕ)
    → let e : EchoService = record { name = name; listeners = ls; server = none } in
      (ls ≡ []) × (start e ≡ (e, some no_listeners)) ⊎ (ls ≢ []) × Serves e ls
unfolding start start_on
by_listeners name [] = inl (refl, refl)
by_listeners name (l ∷ ls) =
    inr (λ e. nil≢cons (sym e), start-Serves name (l ∷ ls) (λ e. nil≢cons (sym e)))

-- After any calls of AddTCP, AddUDS and AddTLS on a new service, Start fails, and changes nothing,
-- exactly if no net.Listen has succeeded; else its server serves the listeners of those that have, in
-- their order. A Stop then closes the same listeners and returns nil, whatever closing one brings, or
-- returns the error of the Shutdown and closes none itself.
pub run-Serves :
    (name : String) (cs : List Call)
    → let e = run (new_echo_service name) cs in
      (opened cs ≡ []) × (start e ≡ (e, some no_listeners))
      ⊎ (opened cs ≢ []) × Serves e (opened cs)
unfolding new_echo_service
run-Serves name cs = rw (run_lem (new_echo_service name) cs) (by_listeners name (opened cs))
