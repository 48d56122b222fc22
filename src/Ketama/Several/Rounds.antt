-- ===== src/Ketama/Several/Rounds.antt =====
-- pkg/ketama/ketama.go, method Ring.GetNodes: one round of its loop.
use mathlib.Core.Option.{some-injective}
use pin_go.Base.{
  ℕ, zero, suc, ◌+◌, ◌≤◌, ◌<◌, String, str_eq, eq_refl, ◌≡◌, sym, ap, ◌∙◌, ◌⊎◌, inl, inr, true,
  ◌==◌, List, [], ◌∷◌, some, length, get_elem?, Bool-cases, arith,
}
use pin_go.Ketama.Sorting.{SortPackage}
use pin_go.Ketama.Ring.{Ring, wrap}
use pin_go.Ketama.Ring.Valid.{IsValid}
use pin_go.Ketama.Several.{seen_in, note}
use pin_go.Ketama.Several.Sets.{Distinct}
use pin_go.Ketama.Several.Notes.{
  AreNodes, at, note-items, note-sizes, note-Distinct, note-leads, note-known,
}

-- The loop with `n` rounds left, before the test: a key whose node is not seen is still to come.
pub record Inv (r : Ring) (count u : ℕ) (first : String) (n i : ℕ) (s : List String × List String)
    : Type 0 where
  pub below : i ≤ length r.sorted_keys
  pub same_size : length s.0 ≡ length s.1
  pub same_items : (x : String) → seen_in x s.0 ≡ seen_in x s.1
  pub distinct : Distinct s.1
  pub known : AreNodes r s.1
  pub few : length s.1 ≤ count
  pub no_more : length s.1 ≤ u
  pub leads : (rest : List String) × (s.1 ≡ first ∷ rest)
  pub pending :
      (j k : ℕ)
      → get_elem? r.sorted_keys j ≡ some k
      → (seen_in (at r k) s.1 ≡ true) ⊎ ((i ≤ j) × (j < i + n)) ⊎ (j + length r.sorted_keys < i + n)

pub index_below : (xs : List ℕ) (j k : ℕ) → get_elem? xs j ≡ some k → j < length xs
index_below [] j k e = cc
index_below (x ∷ xs) zero k e = omega arith
index_below (x ∷ xs) (suc j) k e = omega (arith, index_below xs j k e)

room : (a b c : ℕ) → c ≤ suc b → b < a → c ≤ a
room a b c l m = omega (arith, l, m)

module _ (go : SortPackage) (digest : String → ℕ → ℕ) (decimal : ℕ → String) (r : Ring)
    (v : IsValid r) where
  noted :
      (c k j l : ℕ) (s : List String × List String)
      → ((z : String) → seen_in z s.0 ≡ seen_in z s.1)
      → get_elem? r.sorted_keys c ≡ some k
      → get_elem? r.sorted_keys j ≡ some l
      → c ≡ j
      → seen_in (at r l) (note (at r k) s).1 ≡ true
  noted c k j l s h e f q =
      let same : k ≡ l = some-injective _ _ (sym e ∙ ap (get_elem? r.sorted_keys) q ∙ f) in
      (note-items (at r k) (at r l) s h).0
      ∙ ground (arith, ap (λ x. str_eq (at r k) (at r x)) same, eq_refl (at r k))

  -- After a round at the wrapped index, a key is seen or still to come.
  pub later :
      (n i k j l : ℕ) (s : List String × List String)
      → let c = wrap go digest decimal r i in
        i ≤ length r.sorted_keys
        → ((z : String) → seen_in z s.0 ≡ seen_in z s.1)
        → get_elem? r.sorted_keys c ≡ some k
        → get_elem? r.sorted_keys j ≡ some l
        → (seen_in (at r l) s.1 ≡ true)
          ⊎ ((i ≤ j) × (j < i + suc n))
          ⊎ (j + length r.sorted_keys < i + suc n)
        → (seen_in (at r l) (note (at r k) s).1 ≡ true)
          ⊎ ((suc c ≤ j) × (j < suc c + n))
          ⊎ (j + length r.sorted_keys < suc c + n)
  unfolding wrap
  later n i k j l s b h e f (inl seen) = inl (ground (arith, (note-items (at r k) (at r l) s h).0))
  later n i k j l s b h e f (inr p) =
      let c = wrap go digest decimal r i in
      let low = index_below r.sorted_keys j l f in
      elim (Bool-cases (c == j)) [
        | inl t ↦ inl (noted c k j l s h e f (ground arith))
        | inr t ↦ inr (ground arith)
      ]

  -- A round of the loop at the wrapped index `c` of the key `k`.
  pub next :
      (count u : ℕ) (first : String) (n i k : ℕ) (s : List String × List String)
      → Inv r count u first (suc n) i s
      → length s.1 < count
      → length s.0 < u
      → let c = wrap go digest decimal r i in
        get_elem? r.sorted_keys c ≡ some k → Inv r count u first n (suc c) (note (at r k) s)
  unfolding wrap
  next count u first n i k s h a b e =
      let c = wrap go digest decimal r i in
      let sizes = note-sizes (at r k) s h.same_size in
      let low = index_below r.sorted_keys c k e in
      record {
        below = omega (arith, low);
        same_size = sizes.0;
        same_items = λ x. ground (arith, note-items (at r k) x s h.same_items, h.same_items x);
        distinct = note-Distinct (at r k) s (h.same_items (at r k)) h.distinct;
        known = note-known r v k c s e h.same_items h.known;
        few = room count (length s.1) (length (note (at r k) s).1) sizes.1 a;
        no_more =
            room u (length s.1) (length (note (at r k) s).1) sizes.1
              (omega (arith, b, h.same_size));
        leads = note-leads (at r k) first s h.leads;
        pending = λ j l f. later n i k j l s h.below h.same_items e f (h.pending j l f);
      }
