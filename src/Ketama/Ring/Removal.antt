-- ===== src/Ketama/Ring/Removal.antt =====
-- pkg/ketama/ketama.go, method Ring.RemoveNode: which keys move to another node.
use mathlib.Core.Option.{some-injective}
use pin_go.Base.{
  ℕ, zero, suc, ◌+◌, ◌<◌, ◌≤◌, String, ◌==◌, ◌≡◌, ◌≢◌, refl, sym, ap, ◌∙◌, ◌⊎◌, inl, inr, true,
  false, List, [], ◌∷◌, none, some, pos_part, Bool-cases, arith, if◌then◌else◌,
}
use pin_go.LoadBalancing.Contract.{selected}
use pin_go.Ketama.Sorting.{SortPackage}
use pin_go.Ketama.Ring.{
  Ring, find, drop_key, point, hash, remove_points, rebuild, remove_node, get_node,
}
use pin_go.Ketama.Ring.Valid.{IsValid, has, remove_node-IsValid}
use pin_go.Ketama.Ring.Successor.{Owns, get_node-Owns, has-find}

pub find-drop_key :
    (k x : ℕ) (m : List (ℕ × String)) → find k (drop_key x m) ≡ (if x == k then none else find k m)
unfolding find drop_key
find-drop_key k x [] = ground arith
find-drop_key k x ((j, w) ∷ m) = ground (arith, find-drop_key k x m)

pub has-some : (k : ℕ) (m : List (ℕ × String)) (w : String) → find k m ≡ some w → has k m ≡ true
has-some k m w e = rw (e, has) refl

abbrev Nearest : Ring → ℕ → ℕ → Type 0
Nearest r h k =
    ((h ≤ k) × ((j : ℕ) → has j r.nodes ≡ true → (j < h) ⊎ (k ≤ j)))
    ⊎ ((j : ℕ) → has j r.nodes ≡ true → (j < h) × (k ≤ j))

first :
    (r : Ring) (h k l : ℕ)
    → has k r.nodes ≡ true
    → has l r.nodes ≡ true
    → Nearest r h k
    → Nearest r h l
    → k ≡ l
first r h k l p q (inl (x, f)) (inl (y, g)) = ground (arith, f l q, g k p)
first r h k l p q (inl (x, f)) (inr g) = ground (arith, f l q, g k p)
first r h k l p q (inr f) (inl (y, g)) = ground (arith, f l q, g k p)
first r h k l p q (inr f) (inr g) = ground (arith, f l q, g k p)

pub no_entry : (k : ℕ) (m : List (ℕ × String)) (w : String) → m ≡ [] → find k m ≡ some w → ⊥
unfolding find
no_entry k [] w e f = cc
no_entry k (p ∷ m) w e f = cc

-- Two nodes that the same hash belongs to are one.
pub Owns-unique : (r : Ring) (h : ℕ) (a b : String) → Owns r h a → Owns r h b → a ≡ b
Owns-unique r h a b p q =
    let one : p.key ≡ q.key =
      first r h p.key q.key (has-some p.key r.nodes a p.there) (has-some q.key r.nodes b q.there)
        p.nearest q.nearest in
    some-injective _ _ (sym p.there ∙ ap (λ k. find k r.nodes) one ∙ q.there)

module _ (go : SortPackage) (digest : String → ℕ → ℕ) (decimal : ℕ → String) where
  remove_points-kept :
      (n i : ℕ) (node : String) (r : Ring) (k : ℕ) (w : String)
      → ((j : ℕ) → i ≤ j → j < i + n → (point go digest decimal node j == k) ≡ false)
      → find k r.nodes ≡ some w
      → find k (remove_points go digest decimal n i node r).nodes ≡ some w
  unfolding remove_points
  remove_points-kept zero i node r k w apart e = e
  remove_points-kept (suc n) i node r k w apart e =
      let x = point go digest decimal node i in
      remove_points-kept n (suc i) node (record r { nodes = drop_key x r.nodes }) k w
        (λ j l b. apart j (omega arith) (omega arith))
        (find-drop_key k x r.nodes ∙ rw (apart i (omega arith) (omega arith)) e)

  remove_points-fewer :
      (n i : ℕ) (node : String) (r : Ring) (k : ℕ)
      → has k (remove_points go digest decimal n i node r).nodes ≡ true
      → has k r.nodes ≡ true
  unfolding remove_points
  remove_points-fewer zero i node r k h = h
  remove_points-fewer (suc n) i node r k h =
      let x = point go digest decimal node i in
      let (w, e) =
        has-find k (drop_key x r.nodes)
          (remove_points-fewer n (suc i) node (record r { nodes = drop_key x r.nodes }) k h) in
      has-some k r.nodes w (before k x r.nodes w e)
    where
      before :
          (k x : ℕ) (m : List (ℕ × String)) (w : String)
          → find k (drop_key x m) ≡ some w
          → find k m ≡ some w
      before k x m w e = ground (arith, find-drop_key k x m)

  Owns-remove_node :
      (r : Ring) (node m : String) (h : ℕ)
      → ((i : ℕ) (u : String)
          → i < pos_part r.replicas
          → find (point go digest decimal node i) r.nodes ≡ some u
          → u ≡ node)
      → m ≢ node
      → Owns r h m
      → Owns (remove_node go digest decimal r node) h m
  unfolding remove_node rebuild
  Owns-remove_node r node m h clear other o = record {
    key = o.key;
    there =
        remove_points-kept (pos_part r.replicas) 0 node r o.key m
          (λ j l b. elim (Bool-cases (point go digest decimal node j == o.key)) [
            | inl t ↦
                let same : point go digest decimal node j ≡ o.key = ground arith in
                absurd (other (clear j m (omega arith) (ap (λ k. find k r.nodes) same ∙ o.there)))
            | inr t ↦ t
          ])
          o.there;
    nearest = elim o.nearest [
      | inl (l, f) ↦ inl (l, λ j p. f j (remove_points-fewer (pos_part r.replicas) 0 node r j p))
      | inr f ↦ inr λ j p. f j (remove_points-fewer (pos_part r.replicas) 0 node r j p)
    ];
  }

  -- Removing a node moves no key of another: where no point of the node is taken by another node, a
  -- key that GetNode gave to another node on a valid ring is still given to that node after
  -- RemoveNode.
  pub get_node-remove_node :
      (r : Ring) (node m key : String)
      → IsValid r
      → ((i : ℕ) (u : String)
          → i < pos_part r.replicas
          → find (point go digest decimal node i) r.nodes ≡ some u
          → u ≡ node)
      → m ≢ node
      → get_node go digest decimal r key ≡ selected m
      → get_node go digest decimal (remove_node go digest decimal r node) key ≡ selected m
  get_node-remove_node r node m key v clear other e =
      let r' = remove_node go digest decimal r node in
      let h = hash go digest decimal key in
      elim (get_node-Owns go digest decimal r key v) [
        | inl (n, f) ↦ cc (sym e ∙ f)
        | inr (a, f, o) ↦
            let same : a ≡ m = ground (arith, sym f ∙ e) in
            let kept = Owns-remove_node r node a h clear (λ b. other (sym same ∙ b)) o in
            elim (get_node-Owns go digest decimal r' key
              (remove_node-IsValid go digest decimal r node)) [
                | inl (n, g) ↦ absurd (no_entry kept.key r'.nodes a n kept.there)
                | inr (b, g, q) ↦ g ∙ ap selected (Owns-unique r' h b a q kept ∙ same)
              ]
      ]
