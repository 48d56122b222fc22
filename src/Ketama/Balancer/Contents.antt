-- ===== src/Ketama/Balancer/Contents.antt =====
-- pkg/ketama/ketama.go, type KetamaBalancer: the map of a ring that holds a set of backends.
use mathlib.Core.Option.{some-injective}
use pin_go.Base.{
  ℕ, String, str_eq, eq_iff, eq_refl, ◌≡◌, refl, sym, ap, ◌∙◌, ◌↔◌, Bool, true, false, not, ◌&&◌,
  ◌||◌, none, some, pos_part, ℤ, Bool-cases, inl, inr, arith, if◌then◌else◌,
}
use pin_go.Ketama.Sorting.{SortPackage}
use pin_go.Ketama.Ring.{Ring, new_ring, find, add_node, remove_node}
use pin_go.Ketama.Ring.Valid.{IsValid, add_node-IsValid, remove_node-IsValid}
use pin_go.Ketama.Ring.Keys.{Keys, add_node-Keys, remove_node-Keys}
use pin_go.Ketama.Ring.Addition.{
  is_point, find-add_node, find-remove_node, add_node-replicas, remove_node-replicas,
}

module _ (go : SortPackage) (digest : String → ℕ → ℕ) (decimal : ℕ → String) (replicas : ℤ) where
  -- The key is a point of the node.
  abbrev pub owned : String → ℕ → Bool
  owned = is_point go digest decimal (pos_part replicas) 0

  -- No two of the backends share a point.
  abbrev pub Apart : (String → Bool) → Type 0
  Apart all =
      (a b : String) (k : ℕ)
      → all a ≡ true
      → all b ≡ true
      → owned a k ≡ true
      → owned b k ≡ true
      → a ≡ b

  -- A valid ring whose map has the points of the backends of a set, and no others.
  pub record Holds (set : String → Bool) (r : Ring) : Type 0 where
    pub valid : IsValid r
    pub keys : Keys r.nodes
    pub size : r.replicas ≡ replicas
    pub contents :
        (k : ℕ) (w : String) → (find k r.nodes ≡ some w) ↔ ((set w ≡ true) × (owned w k ≡ true))

  pub Holds-same :
      (a b : String → Bool) (r : Ring) → ((w : String) → a w ≡ b w) → Holds a r → Holds b r
  Holds-same a b r h x = record {
    valid = x.valid;
    keys = x.keys;
    size = x.size;
    contents = λ k w.
        let (there, back) = x.contents k w in
        (λ e. let (p, q) = there e in (sym (h w) ∙ p, q), λ p. back (h w ∙ p.0, p.1));
  }

  pub new_ring-Holds : Holds (λ w. false) (new_ring replicas)
  unfolding new_ring find
  new_ring-Holds = record {
    valid = record { sorted = tt; same = λ k. refl };
    keys = tt;
    size = refl;
    contents = λ k w. (λ e. cc, λ p. cc (p.0));
  }

  find-added :
      (set : String → Bool) (r : Ring) (node : String) (k : ℕ)
      → Holds set r
      → find k (add_node go digest decimal r node).nodes
        ≡ (if owned node k then some node else find k r.nodes)
  find-added set r node k h =
      find-add_node go digest decimal r node k
      ∙ ap
          (λ n.
            if is_point go digest decimal (pos_part n) 0 node k then some node else find k r.nodes)
          h.size

  find-removed :
      (set : String → Bool) (r : Ring) (node : String) (k : ℕ)
      → Holds set r
      → find k (remove_node go digest decimal r node).nodes
        ≡ (if owned node k then none else find k r.nodes)
  find-removed set r node k h =
      find-remove_node go digest decimal r node k
      ∙ ap (λ n. if is_point go digest decimal (pos_part n) 0 node k then none else find k r.nodes)
          h.size

  pub add_node-Holds :
      (set : String → Bool) (r : Ring) (node : String)
      → Apart (λ x. str_eq node x || set x)
      → Holds set r
      → Holds (λ x. str_eq node x || set x) (add_node go digest decimal r node)
  add_node-Holds set r node apart h = record {
    valid = add_node-IsValid go digest decimal r node h.valid;
    keys = add_node-Keys go digest decimal r node h.keys;
    size = add_node-replicas go digest decimal r node ∙ h.size;
    contents = λ k w.
        let e = find-added set r node k h in
        elim (Bool-cases (owned node k)) [
          | inl t ↦
              let new : find k (add_node go digest decimal r node).nodes ≡ some node = rw t at e in
              (
                λ f.
                    let same : node ≡ w = some-injective _ _ (sym new ∙ f) in
                    (ground (arith, (eq_iff node w).1 same), sym (ap (λ x. owned x k) same) ∙ t),
                λ p. new ∙ ap some (apart node w k (ground (arith, eq_refl node)) p.0 t p.1),
              )
          | inr t ↦
              let old : find k (add_node go digest decimal r node).nodes ≡ find k r.nodes =
                rw t at e in
              let (there, back) = h.contents k w in
              (
                λ f. let (p, q) = there (sym old ∙ f) in (ground (arith, p), q),
                λ p.
                    old
                    ∙ back (
                      elim (Bool-cases (str_eq node w)) [
                        | inl u ↦ cc (sym t ∙ ap (λ x. owned x k) ((eq_iff node w).0 u) ∙ p.1)
                        | inr u ↦ ground (arith, p.0)
                      ],
                      p.1,
                    ),
              )
        ];
  }

  pub remove_node-Holds :
      (set : String → Bool) (r : Ring) (node : String)
      → Apart (λ x. str_eq node x || set x)
      → Holds set r
      → Holds (λ x. set x && not (str_eq node x)) (remove_node go digest decimal r node)
  remove_node-Holds set r node apart h = record {
    valid = remove_node-IsValid go digest decimal r node;
    keys = remove_node-Keys go digest decimal r node h.keys;
    size = remove_node-replicas go digest decimal r node ∙ h.size;
    contents = λ k w.
        let e = find-removed set r node k h in
        let (there, back) = h.contents k w in
        elim (Bool-cases (owned node k)) [
          | inl t ↦
              let gone : find k (remove_node go digest decimal r node).nodes ≡ none = rw t at e in
              (
                λ f. cc (sym gone ∙ f),
                λ p.
                    let same : node ≡ w =
                      apart node w k (ground (arith, eq_refl node)) (ground (arith, p.0)) t p.1 in
                    absurd (ground (arith, p.0, (eq_iff node w).1 same)),
              )
          | inr t ↦
              let old : find k (remove_node go digest decimal r node).nodes ≡ find k r.nodes =
                rw t at e in
              (
                λ f.
                    let (p, q) = there (sym old ∙ f) in
                    (
                      elim (Bool-cases (str_eq node w)) [
                        | inl u ↦ cc (sym t ∙ ap (λ x. owned x k) ((eq_iff node w).0 u) ∙ q)
                        | inr u ↦ ground (arith, p)
                      ],
                      q,
                    ),
                λ p. old ∙ back (ground (arith, p.0), p.1),
              )
        ];
  }
