-- ===== src/Ketama/Balancer/Tests.antt =====
-- pkg/ketama/ketama.go, type KetamaBalancer, at concrete inputs.
use pin_go.Base.{
  Bool, true, not, ◌&&◌, ◌||◌, ◌⊎◌, inl, inr, sym, ap, ◌∙◌, ℕ, str_eq, eq_iff, Bool-cases, arith,
  String, ◌≡◌, refl, List, [], ◌∷◌, pos,
}
use pin_go.Ketama.Sorting.Insertion.{sort_package}
use pin_go.Ketama.Ring.{Ring, new_ring, add_node, add_points, remove_node, find, put, drop_key}
use pin_go.Ketama.Ring.Tests.{digest, decimal}
use pin_go.Ketama.Several.{seen_in, node_set, get_unique_nodes}
use pin_go.Ketama.Ring.Addition.{is_point}
use pin_go.Ketama.Balancer.Contents.{Apart, owned}
use pin_go.Ketama.Balancer.Agreement.{current, after_calls, backends_after, select_backend-agrees}
use pin_go.Ketama.Balancer.{
  select_backend, removes, updates, new_ketama_balancer, get_all_backends, update_backends,
}

program : Unit {0}
unfolding new_ring add_node add_points remove_node find put drop_key seen_in node_set
    get_unique_nodes new_ketama_balancer update_backends
program = tt

abbrev as_they_are : List String → List String
as_they_are xs = xs

replaced :
    get_all_backends sort_package digest decimal as_they_are as_they_are (
      update_backends sort_package digest decimal as_they_are as_they_are
        (new_ketama_balancer sort_package digest decimal as_they_are as_they_are ("a" ∷ []) (pos 2))
        ("b" ∷ []))
    ≡ "b" ∷ []
unfolding program
replaced = refl

-- An address that stands twice is kept, and added once more.
keys_twice :
    (update_backends sort_package digest decimal as_they_are as_they_are
      (new_ketama_balancer sort_package digest decimal as_they_are as_they_are ("a" ∷ []) (pos 2))
      ("a" ∷ "a" ∷ [])).sorted_keys
    ≡ 10 ∷ 10 ∷ 40 ∷ 40 ∷ []
unfolding program
keys_twice = refl

abbrev both : String → Bool
both w = str_eq "a" w || str_eq "b" w

a_or_b : (w : String) → both w ≡ true → ("a" ≡ w) ⊎ ("b" ≡ w)
a_or_b w h = elim (Bool-cases (str_eq "a" w)) [
  | inl t ↦ inl ((eq_iff "a" w).0 t)
  | inr t ↦ inr ((eq_iff "b" w).0 (ground arith))
]

not_both :
    (k : ℕ)
    → owned sort_package digest decimal (pos 2) "a" k ≡ true
    → owned sort_package digest decimal (pos 2) "b" k ≡ true
    → ⊥
unfolding is_point
not_both k p q = ground arith

both-Apart : Apart sort_package digest decimal (pos 2) both
both-Apart x y k h g p q = elim (a_or_b x h) [
  | inl e ↦ elim (a_or_b y g) [
    | inl f ↦ sym e ∙ f
    | inr f ↦ absurd (
        not_both k (ap (λ w. owned sort_package digest decimal (pos 2) w k) e ∙ p)
          (ap (λ w. owned sort_package digest decimal (pos 2) w k) f ∙ q))
  ]
  | inr e ↦ elim (a_or_b y g) [
    | inl f ↦ absurd (
        not_both k (ap (λ w. owned sort_package digest decimal (pos 2) w k) f ∙ q)
          (ap (λ w. owned sort_package digest decimal (pos 2) w k) e ∙ p))
    | inr f ↦ sym e ∙ f
  ]
]

within_both : (w : String) → seen_in w ("a" ∷ "b" ∷ []) ≡ true → both w ≡ true
unfolding seen_in
within_both w h = ground arith

within_a : (w : String) → seen_in w ("a" ∷ []) ≡ true → both w ≡ true
unfolding seen_in
within_a w h = ground arith

within_b : (w : String) → seen_in w ("b" ∷ "b" ∷ []) ≡ true → both w ≡ true
unfolding seen_in
within_b w h = ground arith

same_set :
    (w : String)
    → current (λ x. seen_in x ("a" ∷ "b" ∷ [])) (removes "a" ∷ []) w
      ≡ current (λ x. seen_in x ("a" ∷ [])) (updates ("b" ∷ "b" ∷ []) ∷ []) w
unfolding seen_in current
same_set w = elim (Bool-cases (str_eq "a" w)) [
  | inl t ↦
      ap (λ x. seen_in x ("a" ∷ "b" ∷ []) && not (str_eq "a" x)) (sym ((eq_iff "a" w).0 t))
      ∙ ap (λ x. seen_in x ("b" ∷ "b" ∷ [])) ((eq_iff "a" w).0 t)
  | inr t ↦ ground arith
]

abbrev removing : Ring
removing =
    after_calls sort_package digest decimal as_they_are as_they_are (λ w xs. refl) (λ w xs. refl)
      (pos 2) both both-Apart ("a" ∷ "b" ∷ []) (removes "a" ∷ [])

abbrev updating : Ring
updating =
    after_calls sort_package digest decimal as_they_are as_they_are (λ w xs. refl) (λ w xs. refl)
      (pos 2) both both-Apart ("a" ∷ []) (updates ("b" ∷ "b" ∷ []) ∷ [])

select_backend-agrees_example :
    (select_backend sort_package digest decimal as_they_are as_they_are removing "some key"
      ≡ select_backend sort_package digest decimal as_they_are as_they_are updating "some key")
    × ((w : String)
        → seen_in w (get_all_backends sort_package digest decimal as_they_are as_they_are removing)
          ≡ backends_after sort_package digest decimal as_they_are as_they_are
              (λ w xs. refl)
              (λ w xs. refl)
              (pos 2)
              both
              both-Apart
              ("a" ∷ "b" ∷ [])
              (removes "a" ∷ [])
              w)
select_backend-agrees_example =
    select_backend-agrees sort_package digest decimal as_they_are as_they_are (λ w xs. refl)
      (λ w xs. refl) (pos 2) both both-Apart ("a" ∷ "b" ∷ []) ("a" ∷ []) (removes "a" ∷ [])
      (updates ("b" ∷ "b" ∷ []) ∷ []) "some key" within_both within_a (refl, tt) (within_b, tt)
      same_set
