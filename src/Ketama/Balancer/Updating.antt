-- ===== src/Ketama/Balancer/Updating.antt =====
-- pkg/ketama/ketama.go, method KetamaBalancer.UpdateBackends: the set that the ring holds after it.
use pin_go.Base.{
  ℕ, zero, suc, ◌<◌, String, str_eq, eq_iff, eq_refl, ◌≡◌, refl, sym, ap, ◌∙◌, Bool, true, false,
  not, ◌&&◌, ◌||◌, List, [], ◌∷◌, map, pos_part, ℤ, Bool-cases, inl, inr, arith,
}
use pin_go.Ketama.Sorting.{SortPackage}
use pin_go.Ketama.Ring.{Ring, point, add_node, remove_node}
use pin_go.Ketama.Ring.Addition.{is_point}
use pin_go.Ketama.Several.{seen_in, node_set, get_unique_nodes}
use pin_go.Ketama.Several.Sets.{seen_in-node_set}
use pin_go.Ketama.Several.Notes.{value-find, find-value}
use pin_go.Ketama.Balancer.{without, keep_or_add, remove_all, update_backends}
use pin_go.Ketama.Balancer.Contents.{Apart, Holds, Holds-same, add_node-Holds, remove_node-Holds}

Bool-iff : (a b : Bool) → (a ≡ true → b ≡ true) → (b ≡ true → a ≡ true) → a ≡ b
Bool-iff true b f g = sym (f refl)
Bool-iff false true f g = g refl
Bool-iff false false f g = refl

seen_in-without :
    (x w : String) (xs : List String)
    → seen_in w (without x xs) ≡ (seen_in w xs && not (str_eq x w))
unfolding seen_in
seen_in-without x w [] = refl
seen_in-without x w (y ∷ ys) =
    ground (arith, seen_in-without x w ys, eq_iff y x, eq_iff y w, eq_iff x w, eq_refl x)

module _ (go : SortPackage) (digest : String → ℕ → ℕ) (decimal : ℕ → String)
    (sort_strings order : List String → List String) (replicas : ℤ)
    (some_replica : 0 < pos_part replicas)
    (sort_keeps : (w : String) (xs : List String) → seen_in w (sort_strings xs) ≡ seen_in w xs)
    (order_keeps : (w : String) (xs : List String) → seen_in w (order xs) ≡ seen_in w xs) where
  abbrev pub Held : (String → Bool) → Ring → Type 0
  Held = Holds go digest decimal replicas

  abbrev pub Separate : (String → Bool) → Type 0
  Separate = Apart go digest decimal replicas

  first_point :
      (n : ℕ) (w : String)
      → 0 < n
      → is_point go digest decimal n 0 w (point go digest decimal w 0) ≡ true
  unfolding is_point
  first_point zero w l = absurd (omega (arith, l))
  first_point (suc n) w l = ground arith

  pub listed :
      (set : String → Bool) (r : Ring) (w : String)
      → Held set r
      → seen_in w (get_unique_nodes sort_strings r) ≡ set w
  unfolding get_unique_nodes
  listed set r w h =
      let names = map (λ p. p.1) r.nodes in
      sort_keeps w (node_set names)
      ∙ seen_in-node_set w names
      ∙ Bool-iff (seen_in w names) (set w)
          (λ t. let (k, e) = value-find r.nodes w h.keys t in ((h.contents k w).0 e).0)
          (λ t.
            let k = point go digest decimal w 0 in
            find-value r.nodes k w
              ((h.contents k w).1 (t, first_point (pos_part replicas) w some_replica)))

  Separate-less :
      (a b : String → Bool) → ((w : String) → a w ≡ true → b w ≡ true) → Separate b → Separate a
  Separate-less a b h s x y k p q = s x y k (h x p) (h y q)

  module _ (all : String → Bool) (apart : Separate all) where
    abbrev pub Within : (String → Bool) → Type 0
    Within set = (w : String) → set w ≡ true → all w ≡ true

    pub with_one :
        (set : String → Bool) (node : String)
        → Within set
        → all node ≡ true
        → Separate (λ x. str_eq node x || set x)
    with_one set node h t =
        Separate-less (λ x. str_eq node x || set x) all (joined set node h t) apart
      where
        joined :
            (set : String → Bool) (node : String)
            → Within set
            → all node ≡ true
            → (w : String) → (str_eq node w || set w) ≡ true
            → all w ≡ true
        joined set node h t w p = elim (Bool-cases (str_eq node w)) [
          | inl u ↦ sym (ap all ((eq_iff node w).0 u)) ∙ t
          | inr u ↦ h w (ground arith)
        ]

    keep_or_add-Held :
        (set : String → Bool) (r : Ring) (to_remove bs : List String)
        → Within set
        → ((w : String) → seen_in w bs ≡ true → all w ≡ true)
        → ((w : String) → seen_in w to_remove ≡ true → set w ≡ true)
        → Held set r
        → let (r', left) = keep_or_add go digest decimal sort_strings order r to_remove bs in
          Held (λ w. set w || seen_in w bs) r'
          × ((w : String) → seen_in w left ≡ (seen_in w to_remove && not (seen_in w bs)))
    unfolding keep_or_add seen_in
    keep_or_add-Held set r to_remove [] h n t x = (
      Holds-same go digest decimal replicas set (λ w. set w || false) r (λ w. ground arith) x,
      λ w. ground arith,
    )
    keep_or_add-Held set r to_remove (b ∷ bs) h n t x = elim (Bool-cases (seen_in b to_remove)) [
      | inl u ↦
          let (held, left) =
            keep_or_add-Held set r (without b to_remove) bs h (behind b bs n)
              (λ w p. t w (ground (arith, sym (seen_in-without b w to_remove) ∙ p))) x in
          rw (u, keep_or_add)
            (
              Holds-same go digest decimal replicas (λ w. set w || seen_in w bs)
                  (λ w. set w || (str_eq b w || seen_in w bs)) _ (λ w. known b w set bs (t b u))
                  held,
              λ w. left w ∙ ground (arith, seen_in-without b w to_remove),
            )
      | inr u ↦
          let set' : String → Bool = λ w. str_eq b w || set w in
          let one : all b ≡ true = n b (ground (arith, eq_refl b)) in
          let held' = add_node-Holds go digest decimal replicas set r b (with_one set b h one) x in
          let (held, left) =
            keep_or_add-Held set' (add_node go digest decimal r b) to_remove bs
              (λ w p. elim (Bool-cases (str_eq b w)) [
                | inl e ↦ sym (ap all ((eq_iff b w).0 e)) ∙ one
                | inr e ↦ h w (ground arith)
              ])
              (behind b bs n) (λ w p. ground (arith, t w p)) held' in
          rw (u, keep_or_add)
            (
              Holds-same go digest decimal replicas (λ w. set' w || seen_in w bs)
                  (λ w. set w || (str_eq b w || seen_in w bs)) _ (λ w. ground arith) held,
              λ w. left w ∙ absent b w to_remove bs u,
            )
    ]
      where
        behind :
            (b : String) (bs : List String)
            → ((w : String) → seen_in w (b ∷ bs) ≡ true → all w ≡ true)
            → (w : String) → seen_in w bs ≡ true
            → all w ≡ true
        behind b bs n w p = n w (ground (arith, p))

        known :
            (b w : String) (set : String → Bool) (bs : List String)
            → set b ≡ true
            → (set w || seen_in w bs) ≡ (set w || (str_eq b w || seen_in w bs))
        known b w set bs p = elim (Bool-cases (str_eq b w)) [
          | inl e ↦ let q : set w ≡ true = sym (ap set ((eq_iff b w).0 e)) ∙ p in ground (arith, q)
          | inr e ↦ ground arith
        ]

        absent :
            (b w : String) (xs bs : List String)
            → seen_in b xs ≡ false
            → (seen_in w xs && not (seen_in w bs))
              ≡ (seen_in w xs && not (str_eq b w || seen_in w bs))
        absent b w xs bs p = elim (Bool-cases (str_eq b w)) [
          | inl e ↦
              let q : seen_in w xs ≡ false = sym (ap (λ z. seen_in z xs) ((eq_iff b w).0 e)) ∙ p in
              ground (arith, q)
          | inr e ↦ ground arith
        ]

    remove_all-Held :
        (set : String → Bool) (r : Ring) (bs : List String)
        → Within set
        → ((w : String) → seen_in w bs ≡ true → all w ≡ true)
        → Held set r
        → Held
            (λ w. set w && not (seen_in w bs))
            (remove_all go digest decimal sort_strings order r bs)
    unfolding remove_all seen_in
    remove_all-Held set r [] h n x =
        Holds-same go digest decimal replicas set (λ w. set w && true) r (λ w. ground arith) x
    remove_all-Held set r (b ∷ bs) h n x =
        let set' : String → Bool = λ w. set w && not (str_eq b w) in
        let one : all b ≡ true = n b (ground (arith, eq_refl b)) in
        let held =
          remove_all-Held set' (remove_node go digest decimal r b) bs
            (λ w p. h w (ground (arith, p))) (λ w p. n w (ground (arith, p)))
            (remove_node-Holds go digest decimal replicas set r b (with_one set b h one) x) in
        Holds-same go digest decimal replicas (λ w. set' w && not (seen_in w bs))
          (λ w. set w && not (str_eq b w || seen_in w bs)) _ (λ w. ground arith) held

    pub update_backends-Held :
        (set : String → Bool) (r : Ring) (bs : List String)
        → Within set
        → ((w : String) → seen_in w bs ≡ true → all w ≡ true)
        → Held set r
        → Held (λ w. seen_in w bs) (update_backends go digest decimal sort_strings order r bs)
    unfolding update_backends
    update_backends-Held set r bs h n x =
        let before = get_unique_nodes sort_strings r in
        let (held, left) =
          keep_or_add-Held set r before bs h n (λ w p. sym (listed set r w x) ∙ p) x in
        let rest = (keep_or_add go digest decimal sort_strings order r before bs).1 in
        let set' : String → Bool = λ w. set w || seen_in w bs in
        let removed =
          remove_all-Held set' _ (order rest)
            (λ w p. elim (Bool-cases (seen_in w bs)) [
              | inl e ↦ n w e
              | inr e ↦ h w (ground (arith, p))
            ])
            (λ w p. h w (sym (listed set r w x) ∙ ground (arith, order_keeps w rest, left w, p)))
            held in
        Holds-same go digest decimal replicas (λ w. set' w && not (seen_in w (order rest)))
          (λ w. seen_in w bs) _ (λ w. ground (arith, order_keeps w rest, left w, listed set r w x))
          removed
