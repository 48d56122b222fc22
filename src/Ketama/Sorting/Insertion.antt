-- ===== src/Ketama/Sorting/Insertion.antt =====
-- An implementation of what pkg/ketama/ketama.go uses of the package sort: a sort by insertion, and a
-- search from the first index on.
use pin_go.Base.{
  ℕ, zero, suc, ◌≤◌, ◌<◌, ◌==◌, leb, ◌≡◌, refl, Bool, true, false, ◌||◌, List, [], ◌∷◌, All, arith,
  if◌then◌else◌, Bool-cases, inl, inr,
}
use pin_go.Ketama.Sorting.{SortPackage, Sorted, member}

abbrev pub insert : ℕ → List ℕ → List ℕ
insert x [] = x ∷ []
insert x (y ∷ ys) = let later = insert x ys in if leb x y then x ∷ y ∷ ys else y ∷ later

abbrev pub insertion_sort : List ℕ → List ℕ
insertion_sort [] = []
insertion_sort (x ∷ xs) = insert x (insertion_sort xs)

All-weaken : (x y : ℕ) (xs : List ℕ) → x ≤ y → All (λ z. y ≤ z) xs → All (λ z. x ≤ z) xs
All-weaken x y [] l a = tt
All-weaken x y (z ∷ zs) l a = (omega (arith, a.0), All-weaken x y zs l a.1)

All-insert : (b x : ℕ) (xs : List ℕ) → b ≤ x → All (λ z. b ≤ z) xs → All (λ z. b ≤ z) (insert x xs)
All-insert b x [] l a = (l, tt)
All-insert b x (y ∷ ys) l a = elim (Bool-cases (leb x y)) [
  | inl t ↦ rw t (l, a)
  | inr t ↦ rw t (a.0, All-insert b x ys l a.1)
]

insert-Sorted : (x : ℕ) (xs : List ℕ) → Sorted xs → Sorted (insert x xs)
insert-Sorted x [] s = (tt, tt)
insert-Sorted x (y ∷ ys) s = elim (Bool-cases (leb x y)) [
  | inl t ↦ let low : x ≤ y = ground arith in rw t ((low, All-weaken x y ys low s.0), s)
  | inr t ↦ rw t (All-insert y x ys (ground arith) s.0, insert-Sorted x ys s.1)
]

pub insertion_sort-Sorted : (xs : List ℕ) → Sorted (insertion_sort xs)
insertion_sort-Sorted [] = tt
insertion_sort-Sorted (x ∷ xs) = insert-Sorted x (insertion_sort xs) (insertion_sort-Sorted xs)

member-insert : (k x : ℕ) (xs : List ℕ) → member k (insert x xs) ≡ (x == k || member k xs)
member-insert k x [] = refl
member-insert k x (y ∷ ys) = ground (arith, member-insert k x ys)

pub member-insertion_sort : (k : ℕ) (xs : List ℕ) → member k (insertion_sort xs) ≡ member k xs
member-insertion_sort k [] = refl
member-insertion_sort k (x ∷ xs) =
    ground (arith, member-insert k x (insertion_sort xs), member-insertion_sort k xs)

abbrev pub first_true : ℕ → (ℕ → Bool) → ℕ
first_true zero f = 0
first_true (suc n) f = let rest = first_true n (λ i. f (suc i)) in if f 0 then 0 else suc rest

pub first_true-le : (n : ℕ) (f : ℕ → Bool) → first_true n f ≤ n
first_true-le zero f = omega arith
first_true-le (suc n) f = elim (Bool-cases (f 0)) [
  | inl t ↦ rw t (omega arith)
  | inr t ↦ rw t (omega (arith, first_true-le n (λ i. f (suc i))))
]

pub first_true-before : (n : ℕ) (f : ℕ → Bool) (i : ℕ) → i < first_true n f → f i ≡ false
first_true-before zero f i l = elim l [ ]
first_true-before (suc n) f zero l = elim (Bool-cases (f 0)) [
  | inl t ↦ let no : 0 < 0 = rw t at l in elim no [ ]
  | inr t ↦ t
]
first_true-before (suc n) f (suc i) l = elim (Bool-cases (f 0)) [
  | inl t ↦ let no : suc i < 0 = rw t at l in elim no [ ]
  | inr t ↦
      let less : suc i < suc (first_true n (λ j. f (suc j))) = rw t at l in
      first_true-before n (λ j. f (suc j)) i (omega arith)
]

pub first_true-at : (n : ℕ) (f : ℕ → Bool) → first_true n f < n → f (first_true n f) ≡ true
first_true-at zero f l = elim l [ ]
first_true-at (suc n) f l = elim (Bool-cases (f 0)) [
  | inl t ↦ rw t t
  | inr t ↦
      let less : suc (first_true n (λ i. f (suc i))) < suc n = rw t at l in
      rw t (first_true-at n (λ i. f (suc i)) (omega arith))
]

abbrev pub sort_package : SortPackage
sort_package = record {
  slice = insertion_sort;
  search = first_true;
  slice-Sorted = insertion_sort-Sorted;
  member-slice = member-insertion_sort;
  search-le = first_true-le;
  search-before = λ n f rises i l. first_true-before n f i l;
  search-at = λ n f rises l. first_true-at n f l;
}
