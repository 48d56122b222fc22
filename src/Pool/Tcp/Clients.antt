-- ===== src/Pool/Tcp/Clients.antt =====
-- pkg/pool/pool.go, type hostPool, with the connections that the callers of GetConnection and
-- ReleaseConnection hold.
use pin_go.Base.{
  ℕ, zero, suc, ◌+◌, ◌==◌, ◌≡◌, List, [], ◌∷◌, Option, none, some, get_elem?, if◌then◌else◌,
}
use pin_go.Errors.{Cause}
use pin_go.Pool.{Dialed, dialed, refused, Connected, connection, failed, crashed}
use pin_go.Pool.Tcp.{HostPool, get_from, put_back}

-- A pool for one address with the connections that clients hold.
pub record Shared : Type 0 where
  pub host : HostPool
  pub held : List ℕ

-- A client asks for a connection, or gives back the one that stands at this place of the held ones.
pub data Act : Type 0 where
  gets : Dialed → Act
  gives : ℕ → Cause → Act

unfoldable pub remove_at : ℕ → List ℕ → List ℕ
remove_at i [] = []
remove_at zero (c ∷ cs) = cs
remove_at (suc i) (c ∷ cs) = c ∷ remove_at i cs

unfoldable pub hand_out : List ℕ → HostPool × Connected → Shared
hand_out held (h, connection c) = record { host = h; held = c ∷ held }
hand_out held (h, failed e) = record { host = h; held = held }
hand_out held (h, crashed) = record { host = h; held = held }

unfoldable pub hand_in : Shared → ℕ → Cause → Option ℕ → Shared
hand_in s i closed none = s
hand_in s i closed (some c) = record {
  host = (put_back s.host c closed).0;
  held = remove_at i s.held;
}

unfoldable pub act : Shared → Act → Shared
unfolding hand_out hand_in
act s (gets d) = hand_out s.held (get_from s.host d)
act s (gives i closed) = hand_in s i closed (get_elem? s.held i)

unfoldable pub run : Shared → List Act → Shared
run s [] = s
run s (a ∷ rest) = run (act s a) rest

-- How often a connection stands in a list.
abbrev pub count : ℕ → List ℕ → ℕ
count c [] = 0
count c (x ∷ xs) = (if x == c then 1 else 0) + count c xs

-- A dial makes a connection that is neither idle nor held.
abbrev pub FreshDial : Shared → Act → Type 0
FreshDial s (gets (dialed c)) = count c s.host.connections + count c s.held ≡ 0
FreshDial s (gets (refused text)) = Unit {0}
FreshDial s (gives i closed) = Unit {0}

abbrev pub Fresh : Shared → List Act → Type 0
Fresh s [] = Unit {0}
Fresh s (a ∷ rest) = FreshDial s a × Fresh (act s a) rest
