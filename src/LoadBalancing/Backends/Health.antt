-- ===== src/LoadBalancing/Backends/Health.antt =====
-- pkg/loadbalancing/balancer.go: what marking a backend does to the list of healthy addresses.
use pin_go.Base.{
  String, str_eq, eq_iff, ◌≡◌, ◌≢◌, refl, sym, false, not, List, [], ◌∷◌, filter, All, arith,
  Bool-cases, inl, inr,
}
use pin_go.LoadBalancing.Backends.{Backend, healthy_addresses, mark}

-- No address stands twice.
abbrev pub Distinct : List Backend → Type 0
Distinct [] = Unit {0}
Distinct (b ∷ bs) = All (λ c. c.address ≢ b.address) bs × Distinct bs

-- The addresses without `a`.
abbrev pub drop_address : String → List String → List String
drop_address a = filter λ x. not (str_eq x a)

drop_absent :
    (a : String) (bs : List Backend)
    → All (λ c. c.address ≢ a) bs
    → drop_address a (healthy_addresses bs) ≡ healthy_addresses bs
drop_absent a [] h = refl
drop_absent a (b ∷ bs) h = ground (arith, eq_iff b.address a, drop_absent a bs h.1)

-- Where no address stands twice, marking one unhealthy takes it off the list of healthy addresses,
-- and leaves the others and their order.
pub healthy_addresses-mark :
    (a : String) (bs : List Backend)
    → Distinct bs
    → healthy_addresses (mark false a bs) ≡ drop_address a (healthy_addresses bs)
unfolding mark
healthy_addresses-mark a [] d = refl
healthy_addresses-mark a (b ∷ bs) d = elim (Bool-cases (str_eq b.address a)) [
  | inl e ↦
      let same : b.address ≡ a = (eq_iff b.address a).0 e in
      rw e (sym (ground (arith, drop_absent a bs (rw same at d.0))))
  | inr e ↦ ground (arith, healthy_addresses-mark a bs d.1)
]
