-- ===== src/Ketama/Sorting.antt =====
-- Go's sort package, as far as pkg/ketama/ketama.go uses it, with its documented behaviour.
pub mod Insertion
use pin_go.Base.{ℕ, ◌<◌, ◌≤◌, ◌==◌, ◌||◌, ◌≡◌, Bool, true, false, List, [], ◌∷◌, All}

abbrev pub Sorted : List ℕ → Type 0
Sorted [] = Unit {0}
Sorted (x ∷ xs) = All (λ y. x ≤ y) xs × Sorted xs

abbrev pub member : ℕ → List ℕ → Bool
member k [] = false
member k (x ∷ xs) = x == k || member k xs

-- `sort.Slice` by `<`, and `sort.Search` for a test that is false up to an index and true from there.
pub record SortPackage : Type 0 where
  pub slice : List ℕ → List ℕ
  pub search : ℕ → (ℕ → Bool) → ℕ
  pub slice-Sorted : (xs : List ℕ) → Sorted (slice xs)
  pub member-slice : (k : ℕ) (xs : List ℕ) → member k (slice xs) ≡ member k xs
  pub search-le : (n : ℕ) (f : ℕ → Bool) → search n f ≤ n
  pub search-before :
      (n : ℕ) (f : ℕ → Bool)
      → ((i j : ℕ) → i ≤ j → j < n → f i ≡ true → f j ≡ true)
      → (i : ℕ) → i < search n f
      → f i ≡ false
  pub search-at :
      (n : ℕ) (f : ℕ → Bool)
      → ((i j : ℕ) → i ≤ j → j < n → f i ≡ true → f j ≡ true)
      → search n f < n
      → f (search n f) ≡ true
