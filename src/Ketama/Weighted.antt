-- ===== src/Ketama/Weighted.antt =====
-- pkg/ketama/ketama.go, type WeightedKetamaBalancer.
mod Answers
mod Tests
use Prim.Native.Char.{Char, code}
use Prim.Native.String.{◌++◌}
use pin_go.Base.{
  ℕ, zero, suc, String, ◌==◌, Bool, Option, none, some, ℤ, pos, pos_part, leb_ℤ, List, [],
  if◌then◌else◌,
}
use pin_go.Base.Dict.{Entries, lookup, insert, delete}
use pin_go.LoadBalancing.Contract.{Selection, selected, failed, crashed}
use pin_go.Ketama.Sorting.{SortPackage}
use pin_go.Ketama.Ring.{Ring, new_ring, add_node, remove_node, get_node}
use pin_go.Ketama.Balancer.{or_160}

pub record Weighted : Type 0 where
  pub ring : Ring
  pub weights : Entries ℤ

unfoldable pub new_weighted : ℤ → Weighted
new_weighted replicas = record { ring = new_ring (or_160 replicas); weights = [] }

abbrev pub or_one : ℤ → ℤ
or_one weight = if leb_ℤ weight (pos 0) then pos 1 else weight

-- One more character at the front of a text.
abbrev pub onto : Char → Option String → Option String
onto c none = none
onto c (some s) = some (String.◌∷◌ c s)

abbrev pub or_here : Bool → Option String → Option String
or_here b (some s) = some s
or_here b none = if b then some "" else none

-- `node[:i]` for the last index of a dash.
unfoldable pub before_dash : String → Option String
before_dash String.[] = none
before_dash (String.◌∷◌ c s) = or_here (code c == b'-') (onto c (before_dash s))

abbrev pub or_whole : String → Option String → String
or_whole node none = node
or_whole node (some s) = s

-- The end of `SelectBackend`, for the node of the ring.
unfoldable pub backend_of : String → String
unfolding before_dash
backend_of node = or_whole node (before_dash node)

pub of_selection : Selection → Selection
unfolding backend_of
of_selection (selected node) = selected (backend_of node)
of_selection (failed e) = failed e
of_selection crashed = crashed

module _ (go : SortPackage) (digest : String → ℕ → ℕ) (decimal : ℕ → String) where
  abbrev pub virtual_node : String → ℕ → String
  virtual_node backend i = backend ++ ("-" ++ decimal i)

  -- The loop of `AddBackend` from `i` on, with `n` nodes left.
  pub add_virtual : ℕ → ℕ → String → Ring → Ring
  add_virtual zero i backend r = r
  add_virtual (suc n) i backend r =
      add_virtual n (suc i) backend (add_node go digest decimal r (virtual_node backend i))

  unfoldable pub add_backend : Weighted → String → ℤ → Weighted
  unfolding add_virtual
  add_backend w backend weight = record {
    ring = add_virtual (pos_part (or_one weight)) 0 backend w.ring;
    weights = insert backend (or_one weight) w.weights;
  }

  remove_virtual : ℕ → ℕ → String → Ring → Ring
  remove_virtual zero i backend r = r
  remove_virtual (suc n) i backend r =
      remove_virtual n (suc i) backend (remove_node go digest decimal r (virtual_node backend i))

  remove_weighted : Weighted → String → Option ℤ → Weighted
  unfolding remove_virtual
  remove_weighted w backend none = w
  remove_weighted w backend (some weight) = record {
    ring = remove_virtual (pos_part weight) 0 backend w.ring;
    weights = delete backend w.weights;
  }

  unfoldable pub remove_backend : Weighted → String → Weighted
  unfolding remove_weighted
  remove_backend w backend = remove_weighted w backend (lookup backend w.weights)

  unfoldable pub select_backend : Weighted → String → Selection
  unfolding of_selection
  select_backend w key = of_selection (get_node go digest decimal w.ring key)

-- `GetStats`, a copy of the weights.
abbrev pub get_stats : Weighted → Entries ℤ
get_stats w = w.weights
