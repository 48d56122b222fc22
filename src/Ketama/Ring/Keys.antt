-- ===== src/Ketama/Ring/Keys.antt =====
-- pkg/ketama/ketama.go, type Ring: the map as a list in which no key stands twice.
use pin_go.Base.{
  ℕ, zero, suc, ◌==◌, String, ◌≡◌, refl, sym, ap, ◌∙◌, false, List, [], ◌∷◌, pos_part, Bool-cases,
  inl, inr, arith,
}
use pin_go.Ketama.Sorting.{SortPackage}
use pin_go.Ketama.Ring.{
  Ring, find, put, drop_key, point, add_points, add_node, remove_points, rebuild, remove_node,
}
use pin_go.Ketama.Ring.Valid.{has, has-put}

abbrev pub Keys : List (ℕ × String) → Type 0
Keys [] = Unit {0}
Keys ((k, node) ∷ m) = (has k m ≡ false) × Keys m

put-Keys : (k : ℕ) (node : String) (m : List (ℕ × String)) → Keys m → Keys (put k node m)
unfolding put find
put-Keys k node [] d = (refl, tt)
put-Keys k node ((j, w) ∷ m) d = elim (Bool-cases (j == k)) [
  | inl t ↦ let same : j ≡ k = ground arith in rw t (ap (λ i. has i m) (sym same) ∙ d.0, d.1)
  | inr t ↦ rw t (has-put j k node m ∙ ground (arith, d.0), put-Keys k node m d.1)
]

has-drop_key : (j k : ℕ) (m : List (ℕ × String)) → has j m ≡ false → has j (drop_key k m) ≡ false
unfolding find drop_key
has-drop_key j k [] h = refl
has-drop_key j k ((i, w) ∷ m) h = ground (arith, has-drop_key j k m)

drop_key-Keys : (k : ℕ) (m : List (ℕ × String)) → Keys m → Keys (drop_key k m)
unfolding drop_key
drop_key-Keys k [] d = tt
drop_key-Keys k ((j, w) ∷ m) d = elim (Bool-cases (j == k)) [
  | inl t ↦ rw t (drop_key-Keys k m d.1)
  | inr t ↦ rw t (has-drop_key j k m d.0, drop_key-Keys k m d.1)
]

module _ (go : SortPackage) (digest : String → ℕ → ℕ) (decimal : ℕ → String) where
  add_points-Keys :
      (n i : ℕ) (node : String) (r : Ring)
      → Keys r.nodes
      → Keys (add_points go digest decimal n i node r).nodes
  unfolding add_points
  add_points-Keys zero i node r d = d
  add_points-Keys (suc n) i node r d =
      add_points-Keys n (suc i) node _ (put-Keys (point go digest decimal node i) node r.nodes d)

  pub add_node-Keys :
      (r : Ring) (node : String) → Keys r.nodes → Keys (add_node go digest decimal r node).nodes
  unfolding add_node
  add_node-Keys r node d = add_points-Keys (pos_part r.replicas) 0 node r d

  remove_points-Keys :
      (n i : ℕ) (node : String) (r : Ring)
      → Keys r.nodes
      → Keys (remove_points go digest decimal n i node r).nodes
  unfolding remove_points
  remove_points-Keys zero i node r d = d
  remove_points-Keys (suc n) i node r d =
      remove_points-Keys n (suc i) node _ (drop_key-Keys (point go digest decimal node i) r.nodes d)

  pub remove_node-Keys :
      (r : Ring) (node : String) → Keys r.nodes → Keys (remove_node go digest decimal r node).nodes
  unfolding remove_node rebuild
  remove_node-Keys r node d = remove_points-Keys (pos_part r.replicas) 0 node r d
