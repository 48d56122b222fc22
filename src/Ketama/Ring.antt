-- ===== src/Ketama/Ring.antt =====
-- pkg/ketama/ketama.go, type Ring. The map of the nodes is a list of keys with their nodes. The
-- bytes of the MD5 digest of a text, by their index, the decimal text of a number and the package
-- sort are parameters.
pub mod Valid
pub mod Keys
pub mod Successor
pub mod Removal
pub mod Addition
pub mod Tests
use Prim.Native.String.{◌++◌}
use mathlib.Core.List.{◌++◌ as ◌append◌}
use pin_go.Base.{
  ℕ, zero, suc, ◌+◌, ◌*◌, ◌^◌, String, ◌==◌, ltb, leb, Bool, true, false, not, List, [], ◌∷◌,
  Option, none, some, ℤ, pos_part, filter, map, length, get_elem?, if◌then◌else◌,
}
use pin_go.Errors.{Error, load_balancing_error, new}
use pin_go.LoadBalancing.Contract.{Selection, selected, failed, crashed}
use pin_go.Ketama.Sorting.{SortPackage}

pub record Ring : Type 0 where
  pub nodes : List (ℕ × String)
  pub sorted_keys : List ℕ
  pub replicas : ℤ

unfoldable pub new_ring : ℤ → Ring
new_ring replicas = record { nodes = []; sorted_keys = []; replicas = replicas }

-- `r.nodes[key]` with whether it is there.
unfoldable pub find : ℕ → List (ℕ × String) → Option String
find key [] = none
find key ((k, node) ∷ m) = let later = find key m in if k == key then some node else later

-- `r.nodes[key] = node`.
unfoldable pub put : ℕ → String → List (ℕ × String) → List (ℕ × String)
put key node [] = (key, node) ∷ []
put key node ((k, old) ∷ m) =
    let later = put key node m in if k == key then (key, node) ∷ m else (k, old) ∷ later

-- `delete(r.nodes, key)`.
unfoldable pub drop_key : ℕ → List (ℕ × String) → List (ℕ × String)
drop_key key = filter λ p. not (p.0 == key)

abbrev pub no_nodes : Error
no_nodes = new load_balancing_error "no nodes available in ring"

-- The value of a missing key is the empty string.
abbrev pub or_empty : Option String → String
or_empty none = ""
or_empty (some node) = node

module _ (go : SortPackage) (digest : String → ℕ → ℕ) (decimal : ℕ → String) where
  -- The first four bytes of the digest, which `|` joins after the shifts, as a uint32.
  abbrev pub hash : String → ℕ
  hash key = digest key 0 * 2 ^ 24 + digest key 1 * 2 ^ 16 + digest key 2 * 2 ^ 8 + digest key 3

  -- The key of a replica.
  abbrev pub point : String → ℕ → ℕ
  point node i = hash (node ++ ":" ++ decimal i)

  -- The loop of `AddNode` from the replica `i` on.
  unfoldable pub add_points : ℕ → ℕ → String → Ring → Ring
  add_points zero i node r = r
  add_points (suc n) i node r =
      let key = point node i in
      add_points n (suc i) node
        (record r { nodes = put key node r.nodes; sorted_keys = r.sorted_keys append (key ∷ []) })

  unfoldable pub add_node : Ring → String → Ring
  unfolding add_points
  add_node r node =
      let r' = add_points (pos_part r.replicas) 0 node r in
      record r' { sorted_keys = go.slice r'.sorted_keys }

  remove_points : ℕ → ℕ → String → Ring → Ring
  remove_points zero i node r = r
  remove_points (suc n) i node r =
      remove_points n (suc i) node (record r { nodes = drop_key (point node i) r.nodes })

  -- `rebuildSortedKeys`.
  rebuild : Ring → Ring
  rebuild r = record r { sorted_keys = go.slice (map (λ p. p.0) r.nodes) }

  unfoldable pub remove_node : Ring → String → Ring
  unfolding remove_points rebuild
  remove_node r node = rebuild (remove_points (pos_part r.replicas) 0 node r)

  -- The test of `search` at an index, which is below the length.
  abbrev pub reaches : List ℕ → ℕ → ℕ → Bool
  reaches keys h i = elim (get_elem? keys i) [ none ↦ true | some k ↦ leb h k ]

  unfoldable pub search : Ring → ℕ → ℕ
  search r h = go.search (length r.sorted_keys) (reaches r.sorted_keys h)

  -- `r.nodes[r.sortedKeys[idx]]`; an index out of range panics.
  unfoldable pub node_at : Ring → ℕ → Selection
  node_at r index = elim (get_elem? r.sorted_keys index) [
    | none ↦ crashed
    | some k ↦ selected (or_empty (find k r.nodes))
  ]

  unfoldable pub wrap : Ring → ℕ → ℕ
  wrap r index = if leb (length r.sorted_keys) index then 0 else index

  unfoldable pub look_up : Ring → String → List (ℕ × String) → Selection
  unfolding search node_at wrap
  look_up r key [] = failed no_nodes
  look_up r key (n ∷ ns) = node_at r (wrap r (search r (hash key)))

  unfoldable pub get_node : Ring → String → Selection
  unfolding look_up
  get_node r key = look_up r key r.nodes
