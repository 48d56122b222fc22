-- ===== src/Ketama/Several/Sets.antt =====
-- pkg/ketama/ketama.go: the sets of texts that the loops over nodes keep, and how large they are.
use mathlib.Core.List.{◌++◌}
use pin_go.Base.{
  ◌≤◌, ◌<◌, String, str_eq, eq_iff, eq_refl, ◌≡◌, refl, sym, ap, ◌∙◌, true, false, not, ◌||◌, List,
  [], ◌∷◌, length, filter, Bool-cases, inl, inr, arith,
}
use pin_go.Ketama.Several.{seen_in, node_set}

-- No text stands twice.
abbrev pub Distinct : List String → Type 0
Distinct [] = Unit {0}
Distinct (x ∷ xs) = (seen_in x xs ≡ false) × Distinct xs

pub seen_in-append :
    (x y : String) (xs : List String) → seen_in x (xs ++ y ∷ []) ≡ (seen_in x xs || str_eq y x)
unfolding seen_in
seen_in-append x y [] = ground arith
seen_in-append x y (z ∷ zs) = ground (arith, seen_in-append x y zs)

pub append-Distinct :
    (y : String) (xs : List String) → seen_in y xs ≡ false → Distinct xs → Distinct (xs ++ y ∷ [])
unfolding seen_in
append-Distinct y [] h d = (refl, tt)
append-Distinct y (x ∷ xs) h d = (
  ground (arith, seen_in-append x y xs, eq_iff x y, eq_iff y x, d.0),
  append-Distinct y xs (ground arith) d.1,
)

pub seen_in-node_set : (x : String) (xs : List String) → seen_in x (node_set xs) ≡ seen_in x xs
unfolding seen_in node_set
seen_in-node_set x [] = refl
seen_in-node_set x (y ∷ ys) = elim (Bool-cases (seen_in y ys)) [
  | inl t ↦ rw t (seen_in-node_set x ys ∙ again x y ys t)
  | inr t ↦ rw t (ap (λ b. str_eq y x || b) (seen_in-node_set x ys))
]
  where
    again :
        (x y : String) (ys : List String)
        → seen_in y ys ≡ true
        → seen_in x ys ≡ (str_eq y x || seen_in x ys)
    again x y ys t = elim (Bool-cases (str_eq y x)) [
      | inl e ↦ rw e (ap (λ z. seen_in z ys) (sym ((eq_iff y x).0 e)) ∙ t)
      | inr e ↦ rw e refl
    ]

pub node_set-Distinct : (xs : List String) → Distinct (node_set xs)
unfolding node_set
node_set-Distinct [] = tt
node_set-Distinct (x ∷ xs) = elim (Bool-cases (seen_in x xs)) [
  | inl t ↦ rw t (node_set-Distinct xs)
  | inr t ↦ rw t (seen_in-node_set x xs ∙ t, node_set-Distinct xs)
]

abbrev drop : String → List String → List String
drop x = filter λ y. not (str_eq y x)

seen_in-drop :
    (x y : String) (ys : List String) → str_eq x y ≡ false → seen_in y (drop x ys) ≡ seen_in y ys
unfolding seen_in
seen_in-drop x y [] h = refl
seen_in-drop x y (z ∷ zs) h =
    ground (arith, seen_in-drop x y zs h, eq_iff z x, eq_iff z y, eq_iff x y)

length-drop-le : (x : String) (ys : List String) → length (drop x ys) ≤ length ys
length-drop-le x [] = omega arith
length-drop-le x (z ∷ zs) = ground (arith, length-drop-le x zs)

length-drop : (x : String) (ys : List String) → seen_in x ys ≡ true → length (drop x ys) < length ys
unfolding seen_in
length-drop x [] h = cc
length-drop x (z ∷ zs) h = ground (arith, length-drop x zs, length-drop-le x zs)

-- Distinct texts that all stand in another list are no more than its items.
pub length-Distinct-le :
    (xs ys : List String)
    → Distinct xs
    → ((x : String) → seen_in x xs ≡ true → seen_in x ys ≡ true)
    → length xs ≤ length ys
unfolding seen_in
length-Distinct-le [] ys d h = omega arith
length-Distinct-le (x ∷ xs) ys d h =
    let less : length (drop x ys) < length ys =
      length-drop x ys (h x (ground (arith, eq_refl x))) in
    let rest = length-Distinct-le xs (drop x ys) d.1 λ y t. elim (Bool-cases (str_eq x y)) [
      | inl e ↦ cc (sym (ap (λ z. seen_in z xs) ((eq_iff x y).0 e)) ∙ d.0, t)
      | inr e ↦ seen_in-drop x y ys e ∙ h y (ground arith)
    ] in
    omega (arith, less, rest)
