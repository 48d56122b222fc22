-- ===== src/Ketama/Weighted/Answers.antt =====
-- pkg/ketama/ketama.go, type WeightedKetamaBalancer: the backends that SelectBackend answers with.
use Prim.Native.Char.{Char, code}
use Prim.Native.String.append
use Prim.Native.String.{◌++◌}
use pin_go.Base.{
  ℕ, zero, suc, String, ◌==◌, ◌≡◌, refl, ap, sym, ◌∙◌, ◌⊎◌, inl, inr, true, false, Bool-cases, List,
  [], ◌∷◌, none, some, ℤ, pos_part, All, map, arith, if◌then◌else◌,
}
use mathlib.Core.Option.{some-injective}
use mathlib.Core.Path.{subst}
use pin_go.LoadBalancing.Contract.{Selection, selected, failed, crashed}
use pin_go.Ketama.Sorting.{SortPackage}
use pin_go.Ketama.Ring.{Ring, new_ring, find, put, point, add_points, add_node, no_nodes}
use pin_go.Ketama.Ring.Valid.{IsValid, add_node-IsValid}
use pin_go.Ketama.Ring.Successor.{get_node-Owns}
use pin_go.Ketama.Weighted.{
  Weighted, new_weighted, or_one, before_dash, or_here, onto, or_whole, backend_of, of_selection,
  virtual_node, add_virtual, add_backend, select_backend,
}

-- Every node of the ring satisfies the predicate.
abbrev pub Nodes : (String → Type 0) → Ring → Type 0
Nodes P r = (k : ℕ) (node : String) → find k r.nodes ≡ some node → P node

abbrev pub Named : String → List String → Type 0
Named a [] = ⊥
Named a (b ∷ bs) = (a ≡ b) ⊎ Named a bs

-- No character of the text is a dash.
abbrev pub Plain : String → Type 0
Plain String.[] = Unit {0}
Plain (String.◌∷◌ c s) = ((code c == b'-') ≡ false) × Plain s

before_dash-Plain : (s : String) → Plain s → before_dash s ≡ none
unfolding before_dash
before_dash-Plain String.[] p = refl
before_dash-Plain (String.◌∷◌ c s) p = rw (p.0, before_dash-Plain s p.1) refl

append-cons : (c : Char) (s t : String) → String.◌∷◌ c s ++ t ≡ String.◌∷◌ c (s ++ t)
append-cons c s t = append.cons c s t

append-nil : (t : String) → "" ++ t ≡ t
append-nil t = append.nil t

-- The last dash is the one in front of the number.
before_dash-append : (s t : String) → Plain t → before_dash (s ++ ("-" ++ t)) ≡ some s
unfolding before_dash
before_dash-append String.[] t p =
    ap before_dash
      (append-nil ("-" ++ t) ∙ append-cons "-" "" t ∙ ap (String.◌∷◌ "-") (append-nil t))
    ∙ ap (λ x. or_here true (onto "-" x)) (before_dash-Plain t p)
before_dash-append (String.◌∷◌ c s) t p =
    ap before_dash (append-cons c s ("-" ++ t))
    ∙ ap (λ x. or_here (code c == b'-') (onto c x)) (before_dash-append s t p)

none-some : (node : String) → none ≡ some node → ⊥
none-some node e = cc

find-put :
    (k j : ℕ) (node : String) (m : List (ℕ × String))
    → find j (put k node m) ≡ (if k == j then some node else find j m)
unfolding find put
find-put k j node [] = refl
find-put k j node ((i, w) ∷ m) = ground (arith, find-put k j node m)

module _ (go : SortPackage) (digest : String → ℕ → ℕ) (decimal : ℕ → String) where
  add_points-Nodes :
      (P : String → Type 0) (n i : ℕ) (node : String) (r : Ring)
      → P node
      → Nodes P r
      → Nodes P (add_points go digest decimal n i node r)
  unfolding add_points
  add_points-Nodes P zero i node r p h = h
  add_points-Nodes P (suc n) i node r p h =
      let key = point go digest decimal node i in
      add_points-Nodes P n (suc i) node _ p λ k w e.
        let f = sym (find-put key k node r.nodes) ∙ e in
        elim (Bool-cases (key == k)) [
          | inl t ↦ subst P (some-injective _ _ (rw t at f)) p
          | inr t ↦ h k w (rw t at f)
        ]

  add_node-Nodes :
      (P : String → Type 0) (r : Ring) (node : String)
      → P node
      → Nodes P r
      → Nodes P (add_node go digest decimal r node)
  unfolding add_node
  add_node-Nodes P r node p h = add_points-Nodes P (pos_part r.replicas) 0 node r p h

  -- The virtual nodes of the backends of the list.
  abbrev Virtual : List String → String → Type 0
  Virtual names node =
      (b : String) × (i : ℕ) × Named b names × (node ≡ virtual_node go digest decimal b i)

  -- A valid ring of such nodes.
  abbrev Holds : List String → Ring → Type 0
  Holds names r = IsValid r × Nodes (Virtual names) r

  add_virtual-Holds :
      (names : List String) (n i : ℕ) (backend : String) (r : Ring)
      → Named backend names
      → Holds names r
      → Holds names (add_virtual go digest decimal n i backend r)
  unfolding add_virtual
  add_virtual-Holds names zero i backend r a h = h
  add_virtual-Holds names (suc n) i backend r a h =
      let node = virtual_node go digest decimal backend i in
      add_virtual-Holds names n (suc i) backend (add_node go digest decimal r node) a (
        add_node-IsValid go digest decimal r node h.0,
        add_node-Nodes (Virtual names) r node (backend, i, a, refl) h.1,
      )

  -- The balancer after calls of AddBackend.
  unfoldable pub add_backends : Weighted → List (String × ℤ) → Weighted
  add_backends w [] = w
  add_backends w ((backend, weight) ∷ bs) =
      add_backends (add_backend go digest decimal w backend weight) bs

  add_backends-Holds :
      (names : List String) (w : Weighted) (bs : List (String × ℤ))
      → All (λ b. Named b.0 names) bs
      → Holds names w.ring
      → Holds names (add_backends w bs).ring
  unfolding add_backends add_backend
  add_backends-Holds names w [] a h = h
  add_backends-Holds names w ((backend, weight) ∷ bs) a h =
      add_backends-Holds names (add_backend go digest decimal w backend weight) bs a.1
        (add_virtual-Holds names (pos_part (or_one weight)) 0 backend w.ring a.0 h)

  Named-cons :
      (b : String) (bs : List (String × ℤ)) (names : List String)
      → All (λ x. Named x.0 names) bs
      → All (λ x. Named x.0 (b ∷ names)) bs
  Named-cons b [] names a = tt
  Named-cons b (x ∷ bs) names a = (inr a.0, Named-cons b bs names a.1)

  Named-All : (bs : List (String × ℤ)) → All (λ b. Named b.0 (map (λ x. x.0) bs)) bs
  Named-All [] = tt
  Named-All (b ∷ bs) = (inl refl, Named-cons b.0 bs (map (λ x. x.0) bs) (Named-All bs))

  new_weighted-Holds :
      (names : List String) (replicas : ℤ) → Holds names (new_weighted replicas).ring
  unfolding new_weighted new_ring find
  new_weighted-Holds names replicas =
      (record { sorted = tt; same = λ k. refl }, λ k node e. absurd (none-some node e))

  backend_of-Virtual :
      (names : List String) (node : String)
      → ((i : ℕ) → Plain (decimal i))
      → Virtual names node
      → Named (backend_of node) names
  unfolding backend_of
  backend_of-Virtual names node plain (b, i, a, e) =
      subst (λ x. Named x names)
        (sym (
          ap (λ x. or_whole x (before_dash x)) e
          ∙ ap (or_whole (virtual_node go digest decimal b i))
              (before_dash-append b (decimal i) (plain i))))
        a

  -- A backend of the list, or the error of an empty ring.
  abbrev pub OneOf : List String → Selection → Type 0
  OneOf names (selected b) = Named b names
  OneOf names (failed e) = e ≡ no_nodes
  OneOf names crashed = ⊥

  select-OneOf :
      (names : List String) (w : Weighted) (key : String)
      → ((i : ℕ) → Plain (decimal i))
      → Holds names w.ring
      → OneOf names (select_backend go digest decimal w key)
  unfolding select_backend of_selection
  select-OneOf names w key plain h = elim (get_node-Owns go digest decimal w.ring key h.0) [
    | inl (empty, e) ↦ rw (e, of_selection) refl
    | inr (node, e, o) ↦
        rw (e, of_selection) (backend_of-Virtual names node plain (h.1 o.key node o.there))
  ]

  -- After any calls of AddBackend on a new balancer, whatever the weights, SelectBackend answers with
  -- one of the backends that were added, or with the error of an empty ring; no decimal text of a
  -- number has a dash.
  pub select_backend-OneOf :
      (replicas : ℤ) (bs : List (String × ℤ)) (key : String)
      → ((i : ℕ) → Plain (decimal i))
      → OneOf
          (map (λ b. b.0) bs)
          (select_backend go digest decimal (add_backends (new_weighted replicas) bs) key)
  select_backend-OneOf replicas bs key plain =
      let names = map (λ b. b.0) bs in
      select-OneOf names (add_backends (new_weighted replicas) bs) key plain (
        add_backends-Holds names (new_weighted replicas) bs (Named-All bs)
          (new_weighted-Holds names replicas))
