-- ===== src/Ketama/Ring/Tests.antt =====
-- pkg/ketama/ketama.go, type Ring, at concrete inputs, with digests that are written out.
use pin_go.Base.{
  ℕ, zero, suc, ◌<◌, String, str_eq, pos_part, eq_iff, ◌≢◌, sym, some, ◌==◌, ◌≡◌, ◌⊎◌, refl, [],
  pos, arith, if◌then◌else◌,
}
use pin_go.LoadBalancing.Contract.{selected, failed}
use pin_go.Ketama.Sorting.Insertion.{sort_package}
use pin_go.Ketama.Ring.{
  Ring, new_ring, add_node, remove_node, get_node, no_nodes, find, put, drop_key, hash, point,
}
use pin_go.Ketama.Ring.Valid.{IsValid, add_node-IsValid}
use mathlib.Core.Option.{some-injective}
use pin_go.Ketama.Ring.Removal.{get_node-remove_node}
use pin_go.Ketama.Ring.Addition.{get_node-add_node}
use pin_go.Ketama.Ring.Successor.{Owns, get_node-Owns}

-- Two replicas a node: `a` is at 10 and 40, `b` at 20 and 30.
abbrev pub last_byte : String → ℕ
last_byte key =
    if str_eq key "a:0"
    then 10
    else if str_eq key "a:1"
    then 40
    else if str_eq key "b:0"
    then 20
    else if str_eq key "b:1"
    then 30
    else 25

abbrev pub digest : String → ℕ → ℕ
digest key i = if i == 3 then last_byte key else 0

abbrev pub decimal : ℕ → String
decimal zero = "0"
decimal (suc n) = "1"

abbrev ring : Ring
unfolding new_ring add_node
ring =
    add_node sort_package digest decimal
      (add_node sort_package digest decimal (new_ring (pos 2)) "a") "b"

next_key_on : get_node sort_package digest decimal ring "some key" ≡ selected "b"
unfolding ring new_ring add_node get_node find put
next_key_on = refl

moves_on :
    get_node sort_package digest decimal
      (remove_node sort_package digest decimal ring "b")
      "some key"
    ≡ selected "a"
unfolding ring new_ring add_node remove_node get_node find put drop_key
moves_on = refl

new_ring-IsValid : IsValid (new_ring (pos 2))
unfolding new_ring find
new_ring-IsValid = record { sorted = tt; same = λ k. refl }

-- `b` comes to the ring with `a` alone.
abbrev before : Ring
unfolding new_ring add_node
before = add_node sort_package digest decimal (new_ring (pos 2)) "a"

before-IsValid : IsValid before
unfolding before
before-IsValid =
    add_node-IsValid sort_package digest decimal (new_ring (pos 2)) "a" new_ring-IsValid

ring-IsValid : IsValid ring
unfolding ring
ring-IsValid =
    add_node-IsValid sort_package digest decimal
      (add_node sort_package digest decimal (new_ring (pos 2)) "a") "b"
      (add_node-IsValid sort_package digest decimal (new_ring (pos 2)) "a" new_ring-IsValid)

get_node-Owns_example :
    (ring.nodes ≡ []) × (get_node sort_package digest decimal ring "some key" ≡ failed no_nodes)
    ⊎ ((node : String) × (get_node sort_package digest decimal ring "some key" ≡ selected node)
        × Owns ring (hash sort_package digest decimal "some key") node)
get_node-Owns_example = get_node-Owns sort_package digest decimal ring "some key" ring-IsValid

-- The two points of `a` are its own.
a_alone :
    (i : ℕ) (u : String)
    → i < pos_part ring.replicas
    → find (point sort_package digest decimal "a" i) ring.nodes ≡ some u
    → u ≡ "a"
unfolding ring new_ring add_node find put
a_alone zero u l e = sym (some-injective _ _ e)
a_alone (suc zero) u l e = sym (some-injective _ _ e)
a_alone (suc (suc i)) u l e = absurd (omega arith)

b_not_a : ◌≢◌ {A = String} "b" "a"
b_not_a = ground (arith, eq_iff "b" "a")

get_node-remove_node_example :
    get_node sort_package digest decimal
      (remove_node sort_package digest decimal ring "a")
      "some key"
    ≡ selected "b"
get_node-remove_node_example =
    get_node-remove_node sort_package digest decimal ring "a" "b" "some key" ring-IsValid a_alone
      b_not_a next_key_on

get_node-add_node_example :
    (◌≡◌ {A = String} "b" "b")
    ⊎ (get_node sort_package digest decimal before "some key" ≡ selected "b")
unfolding add_node ring
get_node-add_node_example =
    get_node-add_node sort_package digest decimal before "b" "b" "some key" before-IsValid
      next_key_on
