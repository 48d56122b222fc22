-- ===== src/Ketama/Several/Walk.antt =====
-- pkg/ketama/ketama.go, method Ring.GetNodes: how its loop ends, and what it has collected.
use mathlib.Core.Path.{subst}
use pin_go.Base.{
  ℤ, ℕ, zero, suc, ◌+◌, ◌≤◌, ◌<◌, String, eq_iff, ◌≡◌, refl, sym, ap, ◌∙◌, ◌⊎◌, inl, inr, Bool,
  true, false, leb, leb_ℤ, List, [], ◌∷◌, some, pos, length, map, get_elem?, get_elem?-some,
  Bool-cases, Option-cases, arith, if◌then◌else◌,
}
use pin_go.LoadBalancing.Contract.{selected}
use pin_go.Ketama.Sorting.{SortPackage}
use pin_go.Ketama.Ring.{Ring, find, hash, search, wrap, node_at, look_up, get_node}
use pin_go.Ketama.Ring.Valid.{IsValid, has}
use pin_go.Ketama.Ring.Keys.{Keys}
use pin_go.Ketama.Ring.Successor.{member-get_elem?}
use pin_go.Ketama.Several.{
  nodes, seen_in, node_set, get_unique_nodes, note, node_or_empty, goes_on, walk, collect,
  get_nodes,
}
use pin_go.Ketama.Several.Sets.{Distinct, seen_in-node_set, node_set-Distinct, length-Distinct-le}
use pin_go.Ketama.Several.Notes.{value-find, find-value, AreNodes, at, there}
use pin_go.Ketama.Several.Rounds.{Inv, index_below, later, next}

selected-injective : (a b : String) → selected a ≡ selected b → a ≡ b
selected-injective a b e = cc

abbrev least : ℕ → ℕ → ℕ
least a b = if leb a b then a else b

-- What GetNodes collects: the node that GetNode answers with and others of the ring, none twice, as
-- many as were asked for or as there are.
pub record Lists (r : Ring) (count u : ℕ) (first : String) (ns : List String) : Type 0 where
  pub leads : (rest : List String) × (ns ≡ first ∷ rest)
  pub distinct : Distinct ns
  pub known : AreNodes r ns
  pub size : length ns ≡ least count u

module _ (go : SortPackage) (digest : String → ℕ → ℕ) (decimal : ℕ → String)
    (sort_strings : List String → List String) (r : Ring) (v : IsValid r) (d : Keys r.nodes)
    (count : ℕ) (same_length : (xs : List String) → length (sort_strings xs) ≡ length xs) where
  abbrev u : ℕ
  u = length (get_unique_nodes sort_strings r)

  abbrev keys : List ℕ
  keys = r.sorted_keys

  abbrev stop : List String × List String → Bool
  stop s = goes_on go digest decimal sort_strings r (pos count) s

  -- Where nothing is to come any more, the nodes seen are all.
  all_seen :
      (first : String) (i : ℕ) (s : List String × List String)
      → Inv r count u first zero i s
      → u ≤ length s.0
  unfolding get_unique_nodes seen_in
  all_seen first i s h =
      let names = map (λ p. p.1) r.nodes in
      let le = length-Distinct-le (node_set names) s.0 (node_set-Distinct names) λ x t.
        let (k, e) = value-find r.nodes x d (sym (seen_in-node_set x names) ∙ t) in
        let there : has k r.nodes ≡ true = rw (e, has) refl in
        let (j, f, l) = member-get_elem? k keys (v.same k ∙ there) in
        let known : seen_in (at r k) s.1 ≡ true = elim (h.pending j k f) [
          | inl seen ↦ seen
          | inr (inl range) ↦
              (let no : i < i + 0 = omega (arith, range.0, range.1) in absurd (omega (arith, no)))
          | inr (inr behind) ↦ absurd (omega (arith, behind, h.below))
        ] in
        h.same_items x ∙ sym (ap (λ o. seen_in (node_or_empty o) s.1) e) ∙ known in
      let sorted = same_length (node_set names) in omega (arith, le, sorted)

  ended :
      (first : String) (n i : ℕ) (s : List String × List String)
      → Inv r count u first n i s
      → stop s ≡ false
      → Lists r count u first s.1
  ended first n i s h t = record {
    leads = h.leads;
    distinct = h.distinct;
    known = h.known;
    size = ground (arith, h.few, h.no_more, h.same_size);
  }

  inside : (i : ℕ) → 0 < length keys → i ≤ length keys → wrap go digest decimal r i < length keys
  unfolding wrap
  inside i some_key b = ground arith

  walk-Lists :
      (first : String) (n i : ℕ) (s : List String × List String)
      → 0 < length keys
      → Inv r count u first n i s
      → (ns : List String) × (walk go digest decimal sort_strings r (pos count) n i s ≡ nodes ns)
        × Lists r count u first ns
  unfolding walk
  walk-Lists first zero i s some_key h = elim (Bool-cases (stop s)) [
    | inl t ↦ absurd (ground (arith, all_seen first i s h))
    | inr t ↦ (s.1, rw t refl, ended first zero i s h t)
  ]
  walk-Lists first (suc n) i s some_key h = elim (Bool-cases (stop s)) [
    | inl t ↦
        let c = wrap go digest decimal r i in
        let (k, e) = get_elem?-some keys c (inside i some_key h.below) in
        let (ns, w, l) =
          walk-Lists first n (suc c) (note (at r k) s) some_key
            (next go digest decimal r v count u first n i k s h (ground arith) (ground arith) e) in
        (ns, rw (t, e, walk) w, l)
    | inr t ↦ (s.1, rw t refl, ended first (suc n) i s h t)
  ]

  -- Each key is to come when the loop starts, with a round for each.
  initial :
      (i j n : ℕ)
      → j < length keys
      → length keys ≡ n
      → ((i ≤ j) × (j < i + n)) ⊎ (j + length keys < i + n)
  initial i j n l e = elim (Bool-cases (leb i j)) [
    | inl t ↦ inl (ground arith)
    | inr t ↦ inr (ground arith)
  ]

  -- The state after the first round.
  abbrev one : String → List String × List String
  one first = (first ∷ [], first ∷ [])

  first-seen : (first : String) (k : ℕ) → find k r.nodes ≡ some first → 0 < u
  unfolding get_unique_nodes seen_in
  first-seen first k e =
      let names = map (λ p. p.1) r.nodes in
      let le =
        length-Distinct-le (first ∷ []) (node_set names) (refl, tt)
          λ x t.
            seen_in-node_set x names
            ∙ ap (λ y. seen_in y names) (sym ((eq_iff first x).0 (ground arith)))
            ∙ find-value r.nodes k first e in
      let sorted = same_length (node_set names) in omega (arith, le, sorted)

  begun :
      (n i k : ℕ)
      → let c = wrap go digest decimal r i in
        i ≤ length keys
        → length keys ≡ suc n
        → 0 < count
        → get_elem? keys c ≡ some k
        → Inv r count u (at r k) n (suc c) (one (at r k))
  unfolding wrap seen_in
  begun n i k b l some_count e =
      let c = wrap go digest decimal r i in
      record {
        below = omega (arith, index_below keys c k e);
        same_size = refl;
        same_items = λ x. refl;
        distinct = (refl, tt);
        known = λ x t. (k, there r v c k e ∙ ap some ((eq_iff (at r k) x).0 (ground arith)));
        few = omega (arith, some_count);
        no_more = first-seen (at r k) k (there r v c k e);
        leads = ([], refl);
        pending = λ j q f.
            later go digest decimal r v n i k j q ([], []) b (λ x. refl) e f
              (inr (initial i j (suc n) (index_below keys j q f) l));
      }

  first_round :
      (n i k : ℕ)
      → 0 < count
      → 0 < u
      → get_elem? keys (wrap go digest decimal r i) ≡ some k
      → walk go digest decimal sort_strings r (pos count) (suc n) i ([], [])
        ≡ walk go digest decimal sort_strings r
            (pos count)
            n
            (suc (wrap go digest decimal r i))
            (one (at r k))
  unfolding walk seen_in
  first_round n i k some_count some_node e =
      let t : stop ([], []) ≡ true = ground arith in rw (t, e, walk) refl

  -- The key that GetNode finds its answer by.
  node_at-key :
      (c : ℕ) (first : String)
      → node_at go digest decimal r c ≡ selected first
      → (k : ℕ) × (get_elem? keys c ≡ some k) × (at r k ≡ first)
  unfolding node_at
  node_at-key c first e = elim (Option-cases (get_elem? keys c)) [
    | inl f ↦ cc (rw (f, node_at) at e)
    | inr (k, f) ↦
        (k, f, selected-injective (at r k) first (rw (there r v c k f) at (rw (f, node_at) at e)))
  ]

  search-below : (h : ℕ) → search go digest decimal r h ≤ length keys
  unfolding search
  search-below h = go.search-le (length keys) _

  positive : (n : ℕ) → 0 < n → (m : ℕ) × (n ≡ suc m)
  positive zero l = absurd (omega (arith, l))
  positive (suc m) l = (m, refl)

  collect-Lists :
      (allocates : ℤ → Bool) (key first : String) (m : List (ℕ × String))
      → 0 < count
      → allocates (pos count) ≡ true
      → look_up go digest decimal r key m ≡ selected first
      → (ns : List String) × (collect go digest decimal sort_strings allocates r key (pos count) m
          ≡ nodes ns)
        × Lists r count u first ns
  unfolding collect look_up search
  collect-Lists allocates key first [] some_count fits e = cc
  collect-Lists allocates key first (p ∷ m) some_count fits e =
      let i = search go digest decimal r (hash go digest decimal key) in
      let b : i ≤ length keys = search-below (hash go digest decimal key) in
      let (k, f, same) = node_at-key (wrap go digest decimal r i) first e in
      let some_key : 0 < length keys = omega (arith, index_below keys _ k f) in
      let some_node = first-seen (at r k) k (there r v _ k f) in
      let (n, l) = positive (length keys) some_key in
      let (ns, w, all) =
        walk-Lists (at r k) n _ (one (at r k)) some_key (begun n i k b l some_count f) in
      let positive_count : leb_ℤ (pos count) (pos 0) ≡ false = ground arith in
      (
        ns,
        rw (positive_count, fits)
            (ap (λ t. walk go digest decimal sort_strings r (pos count) t i ([], [])) l
              ∙ first_round n i k some_count some_node f
              ∙ w),
        subst (λ x. Lists r count u x ns) same all,
      )

  -- On a ring whose sorted keys are in order and those of its map, where the map has no key twice,
  -- GetNodes with a positive count ends, and with a key that GetNode finds a node for it answers with
  -- that node first, then with further nodes of the ring, none twice, as many in all as were asked
  -- for, or all nodes if they are fewer. The runtime makes a slice of texts with the count as its
  -- capacity, and sort.Strings keeps the length.
  pub get_nodes-Lists :
      (allocates : ℤ → Bool) (key first : String)
      → 0 < count
      → allocates (pos count) ≡ true
      → get_node go digest decimal r key ≡ selected first
      → (ns : List String) × (get_nodes go digest decimal sort_strings allocates r key (pos count)
          ≡ nodes ns)
        × Lists r count u first ns
  unfolding get_nodes get_node
  get_nodes-Lists allocates key first some_count fits e =
      collect-Lists allocates key first r.nodes some_count fits e
