-- ===== src/Ketama/Ring/Valid.antt =====
-- pkg/ketama/ketama.go, type Ring: the sorted keys and the map.
use mathlib.Core.List.{◌++◌}
use pin_go.Base.{
  ℕ, zero, suc, String, ◌==◌, ◌≡◌, refl, sym, ap, ◌∙◌, Bool, true, false, ◌||◌, List, [], ◌∷◌, none,
  some, pos_part, map, arith,
}
use pin_go.Ketama.Sorting.{SortPackage, Sorted, member}
use pin_go.Ketama.Ring.{
  Ring, find, put, point, add_points, add_node, remove_points, rebuild, remove_node,
}

abbrev pub has : ℕ → List (ℕ × String) → Bool
has k m = elim (find k m) [ none ↦ false | some node ↦ true ]

-- The sorted keys are in order, and they are the keys of the map.
pub record IsValid (r : Ring) : Type 0 where
  pub sorted : Sorted r.sorted_keys
  pub same : (k : ℕ) → member k r.sorted_keys ≡ has k r.nodes

member-append : (k x : ℕ) (xs : List ℕ) → member k (xs ++ x ∷ []) ≡ (x == k || member k xs)
member-append k x [] = ground arith
member-append k x (y ∷ ys) = ground (arith, member-append k x ys)

pub has-put :
    (k x : ℕ) (node : String) (m : List (ℕ × String)) → has k (put x node m) ≡ (x == k || has k m)
unfolding find put
has-put k x node [] = ground arith
has-put k x node ((j, w) ∷ m) = ground (arith, has-put k x node m)

member-keys : (k : ℕ) (m : List (ℕ × String)) → member k (map (λ p. p.0) m) ≡ has k m
unfolding find
member-keys k [] = refl
member-keys k ((j, w) ∷ m) = ground (arith, member-keys k m)

module _ (go : SortPackage) (digest : String → ℕ → ℕ) (decimal : ℕ → String) where
  add_points-same :
      (n i : ℕ) (node : String) (r : Ring)
      → ((k : ℕ) → member k r.sorted_keys ≡ has k r.nodes)
      → (k : ℕ)
      → let r' = add_points go digest decimal n i node r in member k r'.sorted_keys ≡ has k r'.nodes
  unfolding add_points
  add_points-same zero i node r h k = h k
  add_points-same (suc n) i node r h k =
      let key = point go digest decimal node i in
      add_points-same n (suc i) node
        (record r { nodes = put key node r.nodes; sorted_keys = r.sorted_keys ++ key ∷ [] })
        (λ j.
          member-append j key r.sorted_keys
          ∙ ap (λ b. key == j || b) (h j)
          ∙ sym (has-put j key node r.nodes))
        k

  -- AddNode keeps the sorted keys in order and the same as those of the map.
  pub add_node-IsValid :
      (r : Ring) (node : String) → IsValid r → IsValid (add_node go digest decimal r node)
  unfolding add_node
  add_node-IsValid r node v =
      let r' = add_points go digest decimal (pos_part r.replicas) 0 node r in
      record {
        sorted = go.slice-Sorted r'.sorted_keys;
        same = λ k.
            go.member-slice k r'.sorted_keys
            ∙ add_points-same (pos_part r.replicas) 0 node r v.same k;
      }

  -- RemoveNode leaves the sorted keys in order and the same as those of the map, whatever they were.
  pub remove_node-IsValid :
      (r : Ring) (node : String) → IsValid (remove_node go digest decimal r node)
  unfolding remove_node rebuild
  remove_node-IsValid r node =
      let r' = remove_points go digest decimal (pos_part r.replicas) 0 node r in
      record {
        sorted = go.slice-Sorted (map (λ p. p.0) r'.nodes);
        same = λ k. go.member-slice k (map (λ p. p.0) r'.nodes) ∙ member-keys k r'.nodes;
      }
