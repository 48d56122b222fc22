-- ===== src/Ketama/Balancer.antt =====
-- pkg/ketama/ketama.go, type KetamaBalancer: its ring. The order of the `range` over the set of
-- backends to remove is a parameter.
pub mod Contents
mod Updating
mod Agreement
mod Tests
use pin_go.Base.{Bool, ℕ, String, str_eq, not, List, [], ◌∷◌, ℤ, pos, leb_ℤ, filter, if◌then◌else◌}
use pin_go.LoadBalancing.Contract.{Selection}
use pin_go.Ketama.Sorting.{SortPackage}
use pin_go.Ketama.Ring.{Ring, new_ring, add_node, remove_node, get_node}
use pin_go.Ketama.Several.{Nodes, seen_in, get_all_nodes, get_nodes}

abbrev pub or_160 : ℤ → ℤ
or_160 replicas = if leb_ℤ replicas (pos 0) then pos 160 else replicas

-- `delete(set, x)`.
abbrev pub without : String → List String → List String
without x = filter λ y. not (str_eq y x)

-- A call that changes the balancer.
pub data Event : Type 0 where
  adds : String → Event
  removes : String → Event
  updates : List String → Event

module _ (go : SortPackage) (digest : String → ℕ → ℕ) (decimal : ℕ → String)
    (sort_strings order : List String → List String) where
  pub add_nodes : Ring → List String → Ring
  add_nodes r [] = r
  add_nodes r (n ∷ ns) = add_nodes (add_node go digest decimal r n) ns

  unfoldable pub new_ketama_balancer : List String → ℤ → Ring
  unfolding add_nodes
  new_ketama_balancer nodes replicas = add_nodes (new_ring (or_160 replicas)) nodes

  abbrev pub select_backend : Ring → String → Selection
  select_backend = get_node go digest decimal

  abbrev pub select_backends : (ℤ → Bool) → Ring → String → ℤ → Nodes
  select_backends = get_nodes go digest decimal sort_strings

  abbrev pub add_backend : Ring → String → Ring
  add_backend = add_node go digest decimal

  abbrev pub remove_backend : Ring → String → Ring
  remove_backend = remove_node go digest decimal

  abbrev pub get_all_backends : Ring → List String
  get_all_backends = get_all_nodes sort_strings

  -- The loop over the new backends, on the ring and `toRemove`.
  pub keep_or_add : Ring → List String → List String → Ring × List String
  unfolding seen_in
  keep_or_add r to_remove [] = (r, to_remove)
  keep_or_add r to_remove (b ∷ bs) =
      let kept = seen_in b to_remove in
      keep_or_add (if kept then r else add_node go digest decimal r b)
        (if kept then without b to_remove else to_remove) bs

  pub remove_all : Ring → List String → Ring
  remove_all r [] = r
  remove_all r (b ∷ bs) = remove_all (remove_node go digest decimal r b) bs

  unfoldable pub update_backends : Ring → List String → Ring
  unfolding keep_or_add remove_all
  update_backends r backends =
      let (r', to_remove) = keep_or_add r (get_all_nodes sort_strings r) backends in
      remove_all r' (order to_remove)

  unfoldable pub step : Ring → Event → Ring
  unfolding update_backends
  step r (adds backend) = add_backend r backend
  step r (removes backend) = remove_backend r backend
  step r (updates backends) = update_backends r backends

  unfoldable pub run : Ring → List Event → Ring
  run r [] = r
  run r (e ∷ es) = run (step r e) es
