-- ===== src/Ketama/Several/Notes.antt =====
-- pkg/ketama/ketama.go, method Ring.GetNodes: one node that its loop notes.
use mathlib.Core.List.{◌++◌}
use pin_go.Base.{
  ℕ, suc, ◌≤◌, String, str_eq, eq_iff, eq_refl, ◌≡◌, sym, ap, ◌∙◌, inl, inr, true, ◌||◌, List, [],
  ◌∷◌, some, length, length-append, map, get_elem?, Bool-cases, arith,
}
use pin_go.Ketama.Ring.{Ring, find}
use pin_go.Ketama.Ring.Valid.{IsValid}
use pin_go.Ketama.Ring.Keys.{Keys}
use pin_go.Ketama.Ring.Successor.{has-find, get_elem?-member}
use pin_go.Ketama.Several.{seen_in, note, node_or_empty}
use pin_go.Ketama.Several.Sets.{Distinct, seen_in-append, append-Distinct}

-- A text that is a value of the map is found by its key.
pub value-find :
    (m : List (ℕ × String)) (x : String)
    → Keys m
    → seen_in x (map (λ p. p.1) m) ≡ true
    → (k : ℕ) × (find k m ≡ some x)
unfolding find seen_in
value-find [] x d h = cc
value-find ((k, node) ∷ m) x d h = elim (Bool-cases (str_eq node x)) [
  | inl t ↦ (let same : node ≡ x = (eq_iff node x).0 t in (k, ground (arith, same)))
  | inr t ↦ let (j, e) = value-find m x d.1 (ground arith) in (j, ground (arith, d.0, e))
]

pub find-value :
    (m : List (ℕ × String)) (k : ℕ) (x : String)
    → find k m ≡ some x
    → seen_in x (map (λ p. p.1) m) ≡ true
unfolding find seen_in
find-value [] k x e = cc
find-value ((j, node) ∷ m) k x e = ground (arith, find-value m k x, eq_refl x)

-- Every text of the list is a node of the ring.
abbrev pub AreNodes : Ring → List String → Type 0
AreNodes r xs = (x : String) → seen_in x xs ≡ true → (k : ℕ) × (find k r.nodes ≡ some x)

-- The node of a key.
abbrev pub at : Ring → ℕ → String
at r k = node_or_empty (find k r.nodes)

pub note-items :
    (x y : String) (s : List String × List String)
    → ((z : String) → seen_in z s.0 ≡ seen_in z s.1)
    → (seen_in y (note x s).1 ≡ (seen_in y s.1 || str_eq x y))
      × (seen_in y (note x s).0 ≡ (seen_in y s.0 || str_eq x y))
unfolding seen_in
note-items x y s h = elim (Bool-cases (seen_in x s.0)) [
  | inl t ↦ rw t (ground (arith, again s.1 (sym (h x) ∙ t)), ground (arith, again s.0 t))
  | inr t ↦ rw t (seen_in-append y x s.1, ground arith)
]
  where
    again : (zs : List String) → seen_in x zs ≡ true → seen_in y zs ≡ (seen_in y zs || str_eq x y)
    again zs t = elim (Bool-cases (str_eq x y)) [
      | inl e ↦ ground (arith, ap (λ z. seen_in z zs) ((eq_iff x y).0 e), t)
      | inr e ↦ ground arith
    ]

pub note-sizes :
    (x : String) (s : List String × List String)
    → length s.0 ≡ length s.1
    → (length (note x s).0 ≡ length (note x s).1) × (length (note x s).1 ≤ suc (length s.1))
note-sizes x s h = elim (Bool-cases (seen_in x s.0)) [
  | inl t ↦ rw t (h, omega arith)
  | inr t ↦
      rw t (omega (arith, h, length-append s.1 (x ∷ [])), omega (arith, length-append s.1 (x ∷ [])))
]

pub note-Distinct :
    (x : String) (s : List String × List String)
    → seen_in x s.0 ≡ seen_in x s.1
    → Distinct s.1
    → Distinct (note x s).1
note-Distinct x s h q = elim (Bool-cases (seen_in x s.0)) [
  | inl t ↦ rw t q
  | inr t ↦ rw t (append-Distinct x s.1 (sym h ∙ t) q)
]

pub note-leads :
    (x first : String) (s : List String × List String)
    → ((rest : List String) × (s.1 ≡ first ∷ rest))
    → (rest : List String) × ((note x s).1 ≡ first ∷ rest)
note-leads x first s h = elim (Bool-cases (seen_in x s.0)) [
  | inl t ↦ rw t h
  | inr t ↦ (h.0 ++ x ∷ [], rw t (ap (λ z. z ++ x ∷ []) h.1))
]

module _ (r : Ring) (v : IsValid r) where
  -- The key at an index is a node of the ring.
  pub there : (j k : ℕ) → get_elem? r.sorted_keys j ≡ some k → find k r.nodes ≡ some (at r k)
  there j k e =
      let (w, f) = has-find k r.nodes (sym (v.same k) ∙ get_elem?-member k j r.sorted_keys e) in
      f ∙ sym (ap (λ o. some (node_or_empty o)) f)

  pub note-known :
      (k j : ℕ) (s : List String × List String)
      → get_elem? r.sorted_keys j ≡ some k
      → ((z : String) → seen_in z s.0 ≡ seen_in z s.1)
      → AreNodes r s.1
      → AreNodes r (note (at r k) s).1
  note-known k j s e h q y t = elim (Bool-cases (str_eq (at r k) y)) [
    | inl same ↦ (k, there j k e ∙ ap some ((eq_iff (at r k) y).0 same))
    | inr other ↦ q y (ground (arith, (note-items (at r k) y s h).0))
  ]
