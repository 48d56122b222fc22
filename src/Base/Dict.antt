-- ===== src/Base/Dict.antt =====
-- Go's map[string]V as an association list, with the loop order of `range` left open.
use Prim.Native.Nat.{ℕ, ◌+◌}
use Prim.Native.String.{String}
use mathlib.Core.Path.{◌≡◌, refl, sym, ap, ◌∙◌, subst}
use mathlib.Core.Logic.{inl, inr}
use mathlib.Core.Bool.{false}
use mathlib.Core.Option.{Option, none, some, some-injective}
use mathlib.Core.List.{List, [], ◌∷◌}
use native.Mathlib.Omega.{arith}
use text.Mathlib.Text.{◌==◌}
use text.Mathlib.TextEquality.{eq_iff}
use pin_go.Base.Tests.{if◌then◌else◌, Bool-cases}
use pin_go.Base.Lists.{length, All}

-- The entries of a map, each key with its value.
abbrev pub Entries {ℓ} : Type ℓ → Type ℓ
Entries V = List (String × V)

module _ {ℓ} {V : Type ℓ} where
  unfoldable pub lookup : String → Entries V → Option V
  lookup k [] = none
  lookup key ((i, w) ∷ rest) = let later = lookup key rest in if i == key then some w else later

  -- `m[k] = v`.
  unfoldable pub insert : String → V → Entries V → Entries V
  insert key v [] = (key, v) ∷ []
  insert key v ((i, w) ∷ rest) =
      let later = insert key v rest in if i == key then (key, v) ∷ rest else (i, w) ∷ later

  -- `delete(m, k)`.
  unfoldable pub delete : String → Entries V → Entries V
  delete k [] = []
  delete k ((j, v) ∷ m) = if j == k then m else (j, v) ∷ delete k m

  -- No key stands twice.
  abbrev pub Distinct : Entries V → Type ℓ
  Distinct [] = Unit
  Distinct ((k, v) ∷ m) = (lookup k m ≡ none) × Distinct m

  pub lookup-insert :
      (k j : String) (v : V) (m : Entries V)
      → lookup j (insert k v m) ≡ (if k == j then some v else lookup j m)
  unfolding lookup insert
  lookup-insert k j v [] = refl
  lookup-insert k j v ((i, w) ∷ rest) =
      ground (arith, lookup-insert k j v rest, eq_iff i j, eq_iff i k, eq_iff k j)

  pub lookup-delete_ne :
      (k j : String) (m : Entries V) → (k == j) ≡ false → lookup j (delete k m) ≡ lookup j m
  unfolding lookup delete
  lookup-delete_ne k j [] h = refl
  lookup-delete_ne k j ((i, w) ∷ m) h =
      ground (arith, eq_iff k j, eq_iff i k, eq_iff i j, lookup-delete_ne k j m h)

  pub lookup-delete_self : (k : String) (m : Entries V) → Distinct m → lookup k (delete k m) ≡ none
  unfolding lookup delete
  lookup-delete_self k [] d = refl
  lookup-delete_self k ((i, w) ∷ m) d = elim (Bool-cases (i == k)) [
    | inl e ↦ let same : i ≡ k = (eq_iff i k).0 e in rw e (ap (λ x. lookup x m) (sym same) ∙ d.0)
    | inr e ↦ ground (arith, lookup-delete_self k m d.1)
  ]

  pub lookup-delete :
      (k j : String) (m : Entries V)
      → Distinct m
      → lookup j (delete k m) ≡ (if k == j then none else lookup j m)
  lookup-delete k j m d = elim (Bool-cases (k == j)) [
    | inl e ↦
        let same : k ≡ j = (eq_iff k j).0 e in
        rw e (sym (ap (λ x. lookup x (delete k m)) same) ∙ lookup-delete_self k m d)
    | inr e ↦ rw e (lookup-delete_ne k j m e)
  ]

  pub insert-Distinct : (k : String) (v : V) (m : Entries V) → Distinct m → Distinct (insert k v m)
  unfolding lookup insert
  insert-Distinct k v [] d = (refl, tt)
  insert-Distinct k v ((i, w) ∷ m) d = elim (Bool-cases (i == k)) [
    | inl e ↦
        let same : i ≡ k = (eq_iff i k).0 e in rw e (ap (λ x. lookup x m) (sym same) ∙ d.0, d.1)
    | inr e ↦ rw e (
      lookup-insert k i v m ∙ ground (arith, eq_iff k i, eq_iff i k, d.0),
      insert-Distinct k v m d.1,
    )
  ]

  pub delete-Distinct : (k : String) (m : Entries V) → Distinct m → Distinct (delete k m)
  unfolding lookup delete
  delete-Distinct k [] d = tt
  delete-Distinct k ((i, w) ∷ m) d = elim (Bool-cases (i == k)) [
    | inl e ↦ rw e d.1
    | inr e ↦ rw e (
      lookup-delete_ne k i m (ground (arith, eq_iff k i, eq_iff i k)) ∙ d.0,
      delete-Distinct k m d.1,
    )
  ]

  -- The sum of a number for each entry.
  abbrev pub total : (V → ℕ) → Entries V → ℕ
  total f [] = 0
  total f ((k, v) ∷ m) = f v + total f m

  abbrev pub value_or_zero : (V → ℕ) → Option V → ℕ
  value_or_zero f none = 0
  value_or_zero f (some v) = f v

  pub total-insert :
      (f : V → ℕ) (k : String) (v : V) (m : Entries V)
      → total f (insert k v m) + value_or_zero f (lookup k m) ≡ total f m + f v
  unfolding lookup insert
  total-insert f k v [] = omega arith
  total-insert f k v ((i, w) ∷ m) = ground (arith, total-insert f k v m)

  pub total-delete :
      (f : V → ℕ) (k : String) (m : Entries V)
      → total f (delete k m) + value_or_zero f (lookup k m) ≡ total f m
  unfolding lookup delete
  total-delete f k [] = omega arith
  total-delete f k ((i, w) ∷ m) = ground (arith, total-delete f k m)

  pub total-delete-some :
      (f : V → ℕ) (k : String) (v : V) (m : Entries V)
      → lookup k m ≡ some v
      → total f (delete k m) + f v ≡ total f m
  total-delete-some f k v m h = rw h at (total-delete f k m)

  pub total-insert-some :
      (f : V → ℕ) (k : String) (v w : V) (m : Entries V)
      → lookup k m ≡ some w
      → total f (insert k v m) + f w ≡ total f m + f v
  total-insert-some f k v w m h = rw h at (total-insert f k v m)

  pub total-insert-none :
      (f : V → ℕ) (k : String) (v : V) (m : Entries V)
      → lookup k m ≡ none
      → total f (insert k v m) ≡ total f m + f v
  total-insert-none f k v m h =
      let e : total f (insert k v m) + 0 ≡ total f m + f v = rw h at (total-insert f k v m) in
      omega (arith, e)

  pub length-total : (m : Entries V) → length m ≡ total (λ v. 1) m
  length-total [] = refl
  length-total ((k, v) ∷ m) = omega (arith, length-total m)

-- What holds of every value of a map.
module _ {ℓ κ} {V : Type ℓ} (P : V → Type κ) where
  abbrev pub Every : Entries V → Type κ
  Every = All λ p. P p.1

  pub Every-lookup : (k : String) (m : Entries V) {v : V} → Every m → lookup k m ≡ some v → P v
  unfolding lookup
  Every-lookup k [] a e = cc
  Every-lookup k ((i, w) ∷ m) a e = elim (Bool-cases (i == k)) [
    | inl t ↦ subst P (some-injective _ _ (rw t at e)) a.0
    | inr t ↦ Every-lookup k m a.1 (rw t at e)
  ]

  pub Every-insert : (k : String) (v : V) (m : Entries V) → P v → Every m → Every (insert k v m)
  unfolding insert
  Every-insert k v [] p a = (p, tt)
  Every-insert k v ((i, w) ∷ m) p a = elim (Bool-cases (i == k)) [
    | inl t ↦ rw t (p, a.1)
    | inr t ↦ rw t (a.0, Every-insert k v m p a.1)
  ]

  pub Every-delete : (k : String) (m : Entries V) → Every m → Every (delete k m)
  unfolding delete
  Every-delete k [] a = tt
  Every-delete k ((i, w) ∷ m) a = elim (Bool-cases (i == k)) [
    | inl t ↦ rw t a.1
    | inr t ↦ rw t (a.0, Every-delete k m a.1)
  ]

-- The order in which one `range` loop visits a map: every entry once, in any order.
pub record RangeOrder {ℓ} (V : Type ℓ) : Type ℓ where
  pub range : Entries V → Entries V
  pub lookup-range : (k : String) (m : Entries V) → lookup k (range m) ≡ lookup k m
  pub range-Distinct : (m : Entries V) → Distinct m → Distinct (range m)
