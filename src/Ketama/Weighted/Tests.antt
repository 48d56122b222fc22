-- ===== src/Ketama/Weighted/Tests.antt =====
-- pkg/ketama/ketama.go, type WeightedKetamaBalancer, at concrete inputs.
use pin_go.Base.{ℕ, str_eq, ◌==◌, if◌then◌else◌, zero, suc, String, ◌≡◌, refl, [], ◌∷◌, pos}
use pin_go.Base.Dict.{lookup, insert, delete}
use pin_go.LoadBalancing.Contract.{selected}
use pin_go.Ketama.Sorting.Insertion.{sort_package}
use pin_go.Ketama.Ring.{
  new_ring, add_node, add_points, remove_node, get_node, find, put, drop_key, search, wrap,
}
use pin_go.Ketama.Ring.Tests.{digest, decimal}
use pin_go.Ketama.Weighted.{
  Weighted, new_weighted, before_dash, backend_of, add_backend, remove_backend, select_backend,
}
use pin_go.Ketama.Weighted.Answers.{Plain, OneOf, add_backends, select_backend-OneOf}

program : Unit {0}
unfolding new_weighted new_ring before_dash backend_of add_backend remove_backend select_backend
    add_node add_points remove_node get_node find put drop_key search wrap lookup insert delete
program = tt

abbrev one : Weighted
one = record { ring = new_ring (pos 1); weights = [] }

cuts_the_number : backend_of "a-b:80-12" ≡ "a-b:80"
unfolding program
cuts_the_number = refl

whole_without_dash : backend_of "a:80" ≡ "a:80"
unfolding program
whole_without_dash = refl

answers_the_backend :
    select_backend sort_package digest decimal
      (add_backend sort_package digest decimal one "a" (pos 2))
      "k"
    ≡ selected "a"
unfolding program
answers_the_backend = refl

abbrev two_points : String → ℕ → ℕ
two_points key i = if i == 3 then (if str_eq key "a-1:0" then 40 else 10) else 0

-- The virtual node above a lower weight is never taken off.
leaves_one :
    (remove_backend sort_package two_points decimal
      (add_backend sort_package two_points decimal
        (add_backend sort_package two_points decimal one "a" (pos 2))
        "a"
        (pos 1))
      "a").ring.nodes
    ≡ (40, "a-1") ∷ []
unfolding program
leaves_one = refl

decimal-Plain : (i : ℕ) → Plain (decimal i)
decimal-Plain zero = (refl, tt)
decimal-Plain (suc n) = (refl, tt)

select_backend-OneOf_example : OneOf sort_package digest decimal ("a" ∷ "b" ∷ []) (
    select_backend sort_package digest decimal
      (add_backends sort_package digest decimal
        (new_weighted (pos 1))
        (("a", pos 2) ∷ ("b", pos 1) ∷ []))
      "some key")
select_backend-OneOf_example =
    select_backend-OneOf sort_package digest decimal (pos 1) (("a", pos 2) ∷ ("b", pos 1) ∷ [])
      "some key" decimal-Plain
