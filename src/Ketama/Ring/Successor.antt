-- ===== src/Ketama/Ring/Successor.antt =====
-- pkg/ketama/ketama.go, method Ring.GetNode: which node a key belongs to.
use pin_go.Base.{
  ℕ, zero, suc, ◌<◌, ◌≤◌, String, ◌==◌, leb, ltb, ◌≡◌, refl, sym, ap, ◌∙◌, ◌⊎◌, inl, inr, Bool,
  true, false, List, [], ◌∷◌, Option, none, some, length, get_elem?, get_elem?-some, All-get_elem?,
  Bool-cases, Option-cases, arith,
}
use pin_go.LoadBalancing.Contract.{selected, failed}
use pin_go.Ketama.Sorting.{SortPackage, Sorted, member}
use pin_go.Ketama.Ring.{
  Ring, find, no_nodes, reaches, search, node_at, wrap, look_up, get_node, hash,
}
use pin_go.Ketama.Ring.Valid.{IsValid, has}

-- The node of the first key of the map from `h` on or, where there is none, of the first key of all.
pub record Owns (r : Ring) (h : ℕ) (node : String) : Type 0 where
  pub key : ℕ
  pub there : find key r.nodes ≡ some node
  pub nearest :
      ((h ≤ key) × ((j : ℕ) → has j r.nodes ≡ true → (j < h) ⊎ (key ≤ j)))
      ⊎ ((j : ℕ) → has j r.nodes ≡ true → (j < h) × (key ≤ j))

Sorted-get_elem? :
    (xs : List ℕ) (i j : ℕ) (a b : ℕ)
    → Sorted xs
    → i ≤ j
    → get_elem? xs i ≡ some a
    → get_elem? xs j ≡ some b
    → a ≤ b
Sorted-get_elem? [] i j a b s h e f = cc
Sorted-get_elem? (x ∷ xs) zero zero a b s h e f = ground arith
Sorted-get_elem? (x ∷ xs) zero (suc j) a b s h e f =
    let low : x ≤ b = All-get_elem? (λ y. x ≤ y) xs j s.0 f in ground arith
Sorted-get_elem? (x ∷ xs) (suc i) zero a b s h e f = elim h [ ]
Sorted-get_elem? (x ∷ xs) (suc i) (suc j) a b s h e f =
    Sorted-get_elem? xs i j a b s.1 (omega arith) e f

pub member-get_elem? :
    (k : ℕ) (xs : List ℕ)
    → member k xs ≡ true
    → (i : ℕ) × (get_elem? xs i ≡ some k) × (i < length xs)
member-get_elem? k [] h = cc
member-get_elem? k (x ∷ xs) h = elim (Bool-cases (x == k)) [
  | inl t ↦ (0, ground arith, omega arith)
  | inr t ↦ let (i, e, l) = member-get_elem? k xs (ground arith) in (suc i, e, omega arith)
]

pub get_elem?-member : (k i : ℕ) (xs : List ℕ) → get_elem? xs i ≡ some k → member k xs ≡ true
get_elem?-member k i [] h = cc
get_elem?-member k zero (x ∷ xs) h = ground arith
get_elem?-member k (suc i) (x ∷ xs) h = ground (arith, get_elem?-member k i xs h)

abbrev reaches_at : ℕ → Option ℕ → Bool
reaches_at h none = true
reaches_at h (some k) = leb h k

pub has-find :
    (k : ℕ) (m : List (ℕ × String)) → has k m ≡ true → (node : String) × (find k m ≡ some node)
has-find k m h = elim (Option-cases (find k m)) [ inl n ↦ cc (rw (n, has) at h) | inr p ↦ p ]

module _ (go : SortPackage) (digest : String → ℕ → ℕ) (decimal : ℕ → String) where
  abbrev test : List ℕ → ℕ → ℕ → Bool
  test = reaches go digest decimal

  test_at : (xs : List ℕ) (h i a : ℕ) → get_elem? xs i ≡ some a → test xs h i ≡ leb h a
  test_at xs h i a e = ap (reaches_at h) e

  test_rises :
      (xs : List ℕ) (h : ℕ)
      → Sorted xs
      → (i j : ℕ) → i ≤ j
      → j < length xs
      → test xs h i ≡ true
      → test xs h j ≡ true
  test_rises xs h s i j l b t =
      let (x, e) = get_elem?-some xs i (omega arith) in
      let (y, f) = get_elem?-some xs j b in
      let low : x ≤ y = Sorted-get_elem? xs i j x y s l e f in
      let above : leb h x ≡ true = sym (test_at xs h i x e) ∙ t in test_at xs h j y f ∙ ground arith

  module _ (r : Ring) (v : IsValid r) (h : ℕ) where
    abbrev index : ℕ
    index = go.search (length r.sorted_keys) (test r.sorted_keys h)

    -- Where a key of the map stands, and the side of the hash that it is on.
    placed :
        (j : ℕ)
        → has j r.nodes ≡ true
        → (i : ℕ) × (get_elem? r.sorted_keys i ≡ some j)
          × (i < length r.sorted_keys)
          × ((j < h) ⊎ (index ≤ i))
    placed j p =
        let (i, e, l) = member-get_elem? j r.sorted_keys (v.same j ∙ p) in
        (
          i,
          e,
          l,
          elim (Bool-cases (ltb i index)) [
            | inl t ↦
                let low =
                  go.search-before (length r.sorted_keys) (test r.sorted_keys h)
                    (test_rises r.sorted_keys h v.sorted) i (ground arith) in
                let under : leb h j ≡ false = sym (test_at r.sorted_keys h i j e) ∙ low in
                inl (ground arith)
            | inr t ↦ inr (ground arith)
          ],
        )

    found_there :
        (i a : ℕ)
        → get_elem? r.sorted_keys i ≡ some a
        → (node : String) × (find a r.nodes ≡ some node)
    found_there i a e = has-find a r.nodes (sym (v.same a) ∙ get_elem?-member a i r.sorted_keys e)

    answers :
        (i a : ℕ) (node : String)
        → get_elem? r.sorted_keys i ≡ some a
        → find a r.nodes ≡ some node
        → node_at go digest decimal r i ≡ selected node
    unfolding node_at
    answers i a node e f = rw (e, node_at) (rw f refl)

    inside :
        index < length r.sorted_keys
        → (node : String) × (node_at go digest decimal r (wrap go digest decimal r index)
            ≡ selected node)
          × Owns r h node
    unfolding wrap
    inside l =
        let (a, e) = get_elem?-some r.sorted_keys index l in
        let (node, f) = found_there index a e in
        let at =
          go.search-at (length r.sorted_keys) (test r.sorted_keys h)
            (test_rises r.sorted_keys h v.sorted) l in
        let above : leb h a ≡ true = sym (test_at r.sorted_keys h index a e) ∙ at in
        let stays : leb (length r.sorted_keys) index ≡ false = ground arith in
        (
          node,
          rw (stays, wrap) (answers index a node e f),
          record {
            key = a;
            there = f;
            nearest = inl (
              ground arith,
              λ j p.
                  let (i, g, b, side) = placed j p in
                  elim side [
                    | inl under ↦ inl under
                    | inr from ↦ inr (Sorted-get_elem? r.sorted_keys index i a j v.sorted from e g)
                  ],
            );
          },
        )

    around :
        length r.sorted_keys ≤ index
        → 0 < length r.sorted_keys
        → (node : String) × (node_at go digest decimal r (wrap go digest decimal r index)
            ≡ selected node)
          × Owns r h node
    unfolding wrap
    around l some_key =
        let (a, e) = get_elem?-some r.sorted_keys 0 some_key in
        let (node, f) = found_there 0 a e in
        let wraps : leb (length r.sorted_keys) index ≡ true = ground arith in
        (
          node,
          rw (wraps, wrap) (answers 0 a node e f),
          record {
            key = a;
            there = f;
            nearest = inr λ j p.
                let (i, g, b, side) = placed j p in
                (
                  elim side [
                    | inl under ↦ under
                    | inr from ↦ (let no : i < i = omega arith in omega arith)
                  ],
                  Sorted-get_elem? r.sorted_keys 0 i a j v.sorted (omega arith) e g,
                );
          },
        )

    not_empty :
        (k : ℕ) (node : String) (m : List (ℕ × String))
        → r.nodes ≡ (k, node) ∷ m
        → 0 < length r.sorted_keys
    unfolding find
    not_empty k node m e =
        let first : has k r.nodes ≡ true = rw e (ground arith) in
        let (i, g, b) = member-get_elem? k r.sorted_keys (v.same k ∙ first) in omega arith

  look_up-Owns :
      (r : Ring) (key : String) (m : List (ℕ × String))
      → IsValid r
      → r.nodes ≡ m
      → (m ≡ []) × (look_up go digest decimal r key m ≡ failed no_nodes)
        ⊎ ((node : String) × (look_up go digest decimal r key m ≡ selected node)
            × Owns r (hash go digest decimal key) node)
  unfolding look_up search
  look_up-Owns r key [] v e = inl (refl, refl)
  look_up-Owns r key ((k, n) ∷ m) v e =
      let h = hash go digest decimal key in
      elim (Bool-cases (ltb (index r v h) (length r.sorted_keys))) [
        | inl t ↦ inr (inside r v h (ground arith))
        | inr t ↦ inr (around r v h (ground arith) (not_empty r v h k n m e))
      ]

  -- On a ring whose sorted keys are in order and those of its map, GetNode returns the node of the
  -- first key from the hash on, or of the first of all keys if none follows, and an error exactly
  -- when the ring has no node; its index is never out of range.
  pub get_node-Owns :
      (r : Ring) (key : String)
      → IsValid r
      → (r.nodes ≡ []) × (get_node go digest decimal r key ≡ failed no_nodes)
        ⊎ ((node : String) × (get_node go digest decimal r key ≡ selected node)
            × Owns r (hash go digest decimal key) node)
  unfolding get_node
  get_node-Owns r key v = look_up-Owns r key r.nodes v refl
