-- ===== src/Ketama/Ring/Addition.antt =====
-- pkg/ketama/ketama.go, methods Ring.AddNode and Ring.GetNode: which keys move to another node, and
-- rings with the same map.
use mathlib.Core.Option.{some-injective}
use pin_go.Base.{
  ℕ, zero, suc, String, ◌==◌, ◌≡◌, refl, sym, ap, ◌∙◌, ◌⊎◌, inl, inr, Bool, true, false, ◌||◌, List,
  [], ◌∷◌, none, some, pos_part, Bool-cases, arith, if◌then◌else◌,
}
use pin_go.LoadBalancing.Contract.{selected}
use pin_go.Ketama.Sorting.{SortPackage}
use pin_go.Ketama.Ring.{
  Ring, find, put, point, hash, add_points, add_node, remove_points, remove_node, rebuild, get_node,
}
use pin_go.Ketama.Ring.Valid.{IsValid, has, add_node-IsValid}
use pin_go.Ketama.Ring.Successor.{Owns, get_node-Owns, has-find}
use pin_go.Ketama.Ring.Removal.{no_entry, Owns-unique, find-drop_key}

pub find-put :
    (k j : ℕ) (node : String) (m : List (ℕ × String))
    → find j (put k node m) ≡ (if k == j then some node else find j m)
unfolding find put
find-put k j node [] = refl
find-put k j node ((i, w) ∷ m) = ground (arith, find-put k j node m)

module _ (go : SortPackage) (digest : String → ℕ → ℕ) (decimal : ℕ → String) where
  -- The key is the point of one of `n` replicas of the node, from `i` on.
  unfoldable pub is_point : ℕ → ℕ → String → ℕ → Bool
  is_point zero i node k = false
  is_point (suc n) i node k = point go digest decimal node i == k || is_point n (suc i) node k

  find-add_points :
      (n i : ℕ) (node : String) (r : Ring) (k : ℕ)
      → find k (add_points go digest decimal n i node r).nodes
        ≡ (if is_point n i node k then some node else find k r.nodes)
  unfolding add_points is_point
  find-add_points zero i node r k = refl
  find-add_points (suc n) i node r k =
      let key = point go digest decimal node i in
      find-add_points n (suc i) node _ k ∙ ground (arith, find-put key k node r.nodes)

  pub find-add_node :
      (r : Ring) (node : String) (k : ℕ)
      → find k (add_node go digest decimal r node).nodes
        ≡ (if is_point (pos_part r.replicas) 0 node k then some node else find k r.nodes)
  unfolding add_node
  find-add_node r node k = find-add_points (pos_part r.replicas) 0 node r k

  find-remove_points :
      (n i : ℕ) (node : String) (r : Ring) (k : ℕ)
      → find k (remove_points go digest decimal n i node r).nodes
        ≡ (if is_point n i node k then none else find k r.nodes)
  unfolding remove_points is_point
  find-remove_points zero i node r k = refl
  find-remove_points (suc n) i node r k =
      let key = point go digest decimal node i in
      find-remove_points n (suc i) node _ k ∙ ground (arith, find-drop_key k key r.nodes)

  pub find-remove_node :
      (r : Ring) (node : String) (k : ℕ)
      → find k (remove_node go digest decimal r node).nodes
        ≡ (if is_point (pos_part r.replicas) 0 node k then none else find k r.nodes)
  unfolding remove_node rebuild
  find-remove_node r node k = find-remove_points (pos_part r.replicas) 0 node r k

  add_points-replicas :
      (n i : ℕ) (node : String) (r : Ring)
      → (add_points go digest decimal n i node r).replicas ≡ r.replicas
  unfolding add_points
  add_points-replicas zero i node r = refl
  add_points-replicas (suc n) i node r = add_points-replicas n (suc i) node _

  pub add_node-replicas :
      (r : Ring) (node : String) → (add_node go digest decimal r node).replicas ≡ r.replicas
  unfolding add_node
  add_node-replicas r node = add_points-replicas (pos_part r.replicas) 0 node r

  remove_points-replicas :
      (n i : ℕ) (node : String) (r : Ring)
      → (remove_points go digest decimal n i node r).replicas ≡ r.replicas
  unfolding remove_points
  remove_points-replicas zero i node r = refl
  remove_points-replicas (suc n) i node r = remove_points-replicas n (suc i) node _

  pub remove_node-replicas :
      (r : Ring) (node : String) → (remove_node go digest decimal r node).replicas ≡ r.replicas
  unfolding remove_node rebuild
  remove_node-replicas r node = remove_points-replicas (pos_part r.replicas) 0 node r

  -- A node that owns a hash on one ring owns it on another that has the entry and no more keys.
  Owns-fewer :
      (r s : Ring) (h : ℕ) (node : String)
      → (o : Owns r h node) → find o.key s.nodes ≡ some node
      → ((j : ℕ) → has j s.nodes ≡ true → has j r.nodes ≡ true)
      → Owns s h node
  Owns-fewer r s h node o e fewer = record {
    key = o.key;
    there = e;
    nearest = elim o.nearest [
      | inl (l, f) ↦ inl (l, λ j p. f j (fewer j p))
      | inr f ↦ inr λ j p. f j (fewer j p)
    ];
  }

  -- The owner of the hash of a key is what GetNode answers with.
  pub get_node-owner :
      (r : Ring) (key a : String)
      → IsValid r
      → Owns r (hash go digest decimal key) a
      → get_node go digest decimal r key ≡ selected a
  get_node-owner r key a v o = elim (get_node-Owns go digest decimal r key v) [
    | inl (n, e) ↦ absurd (no_entry o.key r.nodes a n o.there)
    | inr (b, e, q) ↦ e ∙ ap selected (Owns-unique r (hash go digest decimal key) b a q o)
  ]

  -- AddNode moves keys to the new node only: the answer of GetNode after it on a valid ring is the
  -- new node or the answer before, whatever points the nodes share.
  pub get_node-add_node :
      (r : Ring) (node m key : String)
      → IsValid r
      → get_node go digest decimal (add_node go digest decimal r node) key ≡ selected m
      → (m ≡ node) ⊎ (get_node go digest decimal r key ≡ selected m)
  get_node-add_node r node m key v e =
      let r' = add_node go digest decimal r node in
      elim (get_node-Owns go digest decimal r' key (add_node-IsValid go digest decimal r node v)) [
        | inl (n, f) ↦ cc (sym e ∙ f)
        | inr (a, f, o) ↦
            let same : a ≡ m = ground (arith, sym f ∙ e) in
            elim (Bool-cases (is_point (pos_part r.replicas) 0 node o.key)) [
              | inl t ↦
                  let new : find o.key r'.nodes ≡ some node =
                    find-add_node r node o.key ∙ rw t refl in
                  inl (sym same ∙ some-injective _ _ (sym o.there ∙ new))
              | inr t ↦
                  let old : find o.key r.nodes ≡ some a =
                    ground (arith, sym (find-add_node r node o.key) ∙ o.there, t) in
                  inr (
                    get_node-owner r key a v
                      (Owns-fewer r' r (hash go digest decimal key) a o old (kept r node))
                    ∙ ap selected same)
            ]
      ]
    where
      kept :
          (r : Ring) (node : String) (j : ℕ)
          → has j r.nodes ≡ true
          → has j (add_node go digest decimal r node).nodes ≡ true
      kept r node j p =
          let (w, e) = has-find j r.nodes p in rw (find-add_node r node j, has) (ground (arith, e))

  -- Valid rings with the same map answer alike.
  pub get_node-same :
      (r s : Ring) (key : String)
      → IsValid r
      → IsValid s
      → ((k : ℕ) → find k r.nodes ≡ find k s.nodes)
      → get_node go digest decimal r key ≡ get_node go digest decimal s key
  get_node-same r s key v w h = elim (get_node-Owns go digest decimal r key v) [
    | inl (n, e) ↦ elim (get_node-Owns go digest decimal s key w) [
      | inl (m, f) ↦ e ∙ sym f
      | inr (b, f, q) ↦ absurd (no_entry q.key r.nodes b n (h q.key ∙ q.there))
    ]
    | inr (a, e, o) ↦
        e
        ∙ sym (
            get_node-owner s key a w (
              Owns-fewer r s (hash go digest decimal key) a o (sym (h o.key) ∙ o.there)
                λ j p. rw (h j, has) p))
  ]
