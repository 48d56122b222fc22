-- ===== src/Ketama/Several.antt =====
-- pkg/ketama/ketama.go, the methods of Ring that answer with several nodes. sort.Strings is a
-- parameter. The loop of GetNodes runs on fuel, a round for each key of the ring.
pub mod Sets
pub mod Notes
mod Rounds
mod Walk
mod Tests
use pin_go.Base.{
  ℕ, zero, suc, String, str_eq, ltb, leb, ltb_ℤ, leb_ℤ, Bool, true, false, not, ◌&&◌, ◌||◌, List,
  [], ◌∷◌, Option, none, some, ℤ, pos, map, length, get_elem?, if◌then◌else◌,
}
use mathlib.Core.List.{◌++◌}
use pin_go.Errors.{Error, load_balancing_error, new}
use pin_go.Ketama.Sorting.{SortPackage}
use pin_go.Ketama.Ring.{Ring, find, hash, search, wrap, no_nodes}

-- `set[x]`, for a set of texts.
unfoldable pub seen_in : String → List String → Bool
seen_in x [] = false
seen_in x (y ∷ ys) = str_eq y x || seen_in x ys

-- The members of `nodeSet`, each once.
unfoldable pub node_set : List String → List String
unfolding seen_in
node_set [] = []
node_set (x ∷ xs) = let rest = node_set xs in if seen_in x xs then rest else x ∷ rest

unfoldable pub get_unique_nodes : (List String → List String) → Ring → List String
unfolding node_set
get_unique_nodes sort_strings r = sort_strings (node_set (map (λ p. p.1) r.nodes))

abbrev pub get_all_nodes : (List String → List String) → Ring → List String
get_all_nodes = get_unique_nodes

abbrev pub size : (List String → List String) → Ring → ℤ
size sort_strings r = pos (length (get_unique_nodes sort_strings r))

abbrev pub is_empty : (List String → List String) → Ring → Bool
is_empty sort_strings r = elim (length (get_unique_nodes sort_strings r)) [
  | zero ↦ true
  | suc n ↦ false
]

-- What `GetNodes` returns; `crashed` is a panic, and `unfinished` an end of the fuel.
pub data Nodes : Type 0 where
  nodes : List String → Nodes
  failed : Error → Nodes
  crashed : Nodes
  unfinished : Nodes

abbrev pub bad_count : Error
bad_count = new load_balancing_error "count must be positive"

abbrev node_or_empty : Option String → String
node_or_empty none = ""
node_or_empty (some node) = node

-- The body of the `if` in the loop, on `seen` and `result`.
abbrev pub note : String → List String × List String → List String × List String
note node (seen, result) =
    if seen_in node seen then (seen, result) else (node ∷ seen, result ++ node ∷ [])

module _ (go : SortPackage) (digest : String → ℕ → ℕ) (decimal : ℕ → String)
    (sort_strings : List String → List String) where
  -- The condition of the loop.
  abbrev pub goes_on : Ring → ℤ → List String × List String → Bool
  goes_on r count (seen, result) =
      ltb_ℤ (pos (length result)) count
      && ltb (length seen) (length (get_unique_nodes sort_strings r))

  pub walk : Ring → ℤ → ℕ → ℕ → List String × List String → Nodes
  unfolding seen_in get_unique_nodes node_set
  walk r count zero index s = if goes_on r count s then unfinished else nodes s.1
  walk r count (suc fuel) index s =
      let i = wrap go digest decimal r index in
      let rest : ℕ → Nodes =
        λ k. walk r count fuel (suc i) (note (node_or_empty (find k r.nodes)) s) in
      if goes_on r count s
      then (elim (get_elem? r.sorted_keys i) [ none ↦ crashed | some k ↦ rest k ])
      else nodes s.1

  -- `allocates` tells whether the runtime makes a slice of texts of this capacity; `make` panics else.
  pub collect : (ℤ → Bool) → Ring → String → ℤ → List (ℕ × String) → Nodes
  unfolding walk
  collect allocates r key count [] = failed no_nodes
  collect allocates r key count (n ∷ ns) =
      if leb_ℤ count (pos 0)
      then failed bad_count
      else if not (allocates count)
      then crashed
      else walk r count (length r.sorted_keys)
          (search go digest decimal r (hash go digest decimal key)) ([], [])

  unfoldable pub get_nodes : (ℤ → Bool) → Ring → String → ℤ → Nodes
  unfolding collect
  get_nodes allocates r key count = collect allocates r key count r.nodes
