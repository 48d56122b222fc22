-- ===== src/Ketama/Several/Tests.antt =====
-- pkg/ketama/ketama.go, GetNodes and GetAllNodes, at concrete inputs.
use pin_go.Base.{ℤ, leb_ℤ, ◌^◌, ◌-◌, Bool, String, ◌≡◌, refl, List, [], ◌∷◌, pos, length, arith}
use pin_go.Ketama.Ring.Valid.{IsValid, add_node-IsValid}
use pin_go.Ketama.Ring.Keys.{Keys, add_node-Keys}
use pin_go.Ketama.Several.Walk.{Lists, get_nodes-Lists}
use pin_go.Ketama.Sorting.Insertion.{sort_package}
use pin_go.Ketama.Ring.{
  Ring, new_ring, add_node, add_points, find, put, search, wrap, look_up, node_at, get_node,
  no_nodes,
}
use pin_go.Ketama.Ring.Tests.{digest, decimal}
use pin_go.Ketama.Several.{
  nodes, failed, crashed, bad_count, seen_in, node_set, get_unique_nodes, get_all_nodes, get_nodes,
}

-- A slice of texts takes 16 bytes for each, of 2 ^ 48.
abbrev room : ℤ → Bool
room n = leb_ℤ n (pos (2 ^ 44))

program : Unit {0}
unfolding new_ring add_node add_points find put search wrap look_up node_at get_node seen_in
    node_set get_unique_nodes get_nodes
program = tt

abbrev ring : Ring
unfolding new_ring add_node
ring =
    add_node sort_package digest decimal
      (add_node sort_package digest decimal (new_ring (pos 2)) "a") "b"

abbrev as_they_are : List String → List String
as_they_are xs = xs

each_once : get_all_nodes as_they_are ring ≡ "a" ∷ "b" ∷ []
unfolding program
each_once = refl

both_from_the_key_on :
    get_nodes sort_package digest decimal as_they_are room ring "some key" (pos 5)
    ≡ nodes ("b" ∷ "a" ∷ [])
unfolding program
both_from_the_key_on = refl

no_count :
    get_nodes sort_package digest decimal as_they_are room ring "some key" (pos 0)
    ≡ failed bad_count
unfolding program
no_count = refl

no_ring :
    get_nodes sort_package digest decimal as_they_are room (new_ring (pos 2)) "some key" (pos 1)
    ≡ failed no_nodes
unfolding program
no_ring = refl

new_ring-IsValid : IsValid (new_ring (pos 2))
unfolding new_ring find
new_ring-IsValid = record { sorted = tt; same = λ k. refl }

ring-IsValid : IsValid ring
unfolding ring
ring-IsValid =
    add_node-IsValid sort_package digest decimal
      (add_node sort_package digest decimal (new_ring (pos 2)) "a") "b"
      (add_node-IsValid sort_package digest decimal (new_ring (pos 2)) "a" new_ring-IsValid)

ring-Keys : Keys ring.nodes
unfolding ring new_ring
ring-Keys =
    add_node-Keys sort_package digest decimal
      (add_node sort_package digest decimal (new_ring (pos 2)) "a") "b"
      (add_node-Keys sort_package digest decimal (new_ring (pos 2)) "a" tt)

too_many :
    get_nodes sort_package digest decimal as_they_are room ring "some key" (pos (2 ^ 63 - 1))
    ≡ crashed
unfolding program
too_many = refl

get_nodes-Lists_example :
    (ns : List String) × (get_nodes sort_package digest decimal as_they_are room ring "some key"
        (pos 2)
      ≡ nodes ns)
    × Lists ring 2 (length (get_unique_nodes as_they_are ring)) "b" ns
unfolding program
get_nodes-Lists_example =
    get_nodes-Lists sort_package digest decimal as_they_are ring ring-IsValid ring-Keys 2
      (λ xs. refl) room "some key" "b" (omega arith) refl refl
