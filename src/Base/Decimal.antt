-- ===== src/Base/Decimal.antt =====
-- Reading back what is printed: decimals, and the parts of a joined text.
use Prim.Native.Nat.{ℕ, zero, suc, ◌+◌, ◌-◌, ◌*◌, ◌/◌, ◌%◌, ◌<◌}
use mathlib.Core.Path.{◌≡◌, refl, sym, ap, ◌∙◌}
use mathlib.Core.Logic.{inl, inr}
use mathlib.Core.Bool.{true, false}
use mathlib.Core.Option.{some}
use mathlib.Core.List.{[], ◌∷◌, ◌++◌}
use native.Mathlib.Omega.{arith}
use pin_go.Base.Tests.{ltb, Bool-cases}
use pin_go.Base.Lists.{All}
use pin_go.Base.Int.{ℤ, pos, negsuc, IsInt64}
use pin_go.Base.Bytes.{Text, digits, unsigned, is_digit, atoi, decimal_from, itoa}

-- Characters of digits.
abbrev pub Digits : Text → Type 0
Digits = All λ c. is_digit c ≡ true

All-concat : (s : Text) (c : ℕ) → Digits s → is_digit c ≡ true → Digits (s ++ c ∷ [])
All-concat [] c d h = (h, tt)
All-concat (x ∷ s) c d h = (d.0, All-concat s c d.1 h)

digits-concat :
    (n m : ℕ) (s : Text) (c : ℕ)
    → is_digit c ≡ true
    → digits n s ≡ some m
    → digits n (s ++ c ∷ []) ≡ some (m * 10 + (c - 48))
unfolding digits
digits-concat n m [] c h e = ground arith
digits-concat n m (x ∷ s) c h e = elim (Bool-cases (is_digit x)) [
  | inl t ↦ rw t (digits-concat (n * 10 + (x - 48)) m s c h (rw t at e))
  | inr t ↦ cc (rw t at e)
]

last_digit : (fuel n : ℕ) → ltb n 10 ≡ true → decimal_from (suc fuel) n ≡ (48 + n) ∷ []
unfolding decimal_from
last_digit fuel n t = rw (t, decimal_from) refl

more_digits :
    (fuel n : ℕ)
    → ltb n 10 ≡ false
    → decimal_from (suc fuel) n ≡ decimal_from fuel (n / 10) ++ (48 + n % 10) ∷ []
unfolding decimal_from
more_digits fuel n t = rw (t, decimal_from) refl

pub digits-decimal_from : (fuel n : ℕ) → n < fuel → digits 0 (decimal_from fuel n) ≡ some n
unfolding decimal_from
digits-decimal_from zero n h = elim h [ ]
digits-decimal_from (suc fuel) n h = elim (Bool-cases (ltb n 10)) [
  | inl t ↦ rw (last_digit fuel n t) (unfold digits in ground arith)
  | inr t ↦
      let last : is_digit (48 + n % 10) ≡ true = ground arith in
      let less : n / 10 < fuel = ground arith in
      rw (more_digits fuel n t) (
        digits-concat 0 (n / 10) (decimal_from fuel (n / 10)) (48 + n % 10) last
          (digits-decimal_from fuel (n / 10) less)
        ∙ ap some (let e : n / 10 * 10 + (48 + n % 10 - 48) ≡ n = omega arith in e))
]

pub decimal_from-Digits : (fuel n : ℕ) → Digits (decimal_from fuel n)
unfolding decimal_from
decimal_from-Digits zero n = tt
decimal_from-Digits (suc fuel) n = elim (Bool-cases (ltb n 10)) [
  | inl t ↦
      let last : is_digit (48 + n) ≡ true = ground arith in rw (last_digit fuel n t) (last, tt)
  | inr t ↦
      let last : is_digit (48 + n % 10) ≡ true = ground arith in
      rw (more_digits fuel n t) (
        All-concat (decimal_from fuel (n / 10)) (48 + n % 10) (decimal_from-Digits fuel (n / 10))
          last)
]

-- A decimal has a first digit.
pub decimal_from-cons :
    (fuel n : ℕ)
    → n < fuel
    → (c : ℕ) × (s : Text) × (decimal_from fuel n ≡ c ∷ s) × (is_digit c ≡ true)
decimal_from-cons zero n h = elim h [ ]
decimal_from-cons (suc fuel) n h = elim (Bool-cases (ltb n 10)) [
  | inl t ↦ (48 + n, [], last_digit fuel n t, ground arith)
  | inr t ↦
      let (c, s, e, d) = decimal_from-cons fuel (n / 10) (ground arith) in
      (c, s ++ (48 + n % 10) ∷ [], more_digits fuel n t ∙ ap (λ x. x ++ (48 + n % 10) ∷ []) e, d)
]

unsigned-decimal_from :
    (fuel n : ℕ) (c : ℕ) (s : Text)
    → n < fuel
    → decimal_from fuel n ≡ c ∷ s
    → unsigned (c ∷ s) ≡ some n
unfolding unsigned
unsigned-decimal_from fuel n c s h e = ap (digits 0) (sym e) ∙ digits-decimal_from fuel n h

-- An int is read back from what `%d` prints.
pub atoi-itoa : (a : ℤ) → IsInt64 a → atoi (itoa a) ≡ some a
unfolding atoi itoa
atoi-itoa (pos n) h =
    let (c, s, e, d) = decimal_from-cons (suc n) n (omega arith) in
    ap atoi e ∙ ground (arith, unsigned-decimal_from (suc n) n c s (omega arith) e)
atoi-itoa (negsuc n) h =
    let (c, s, e, d) = decimal_from-cons (suc (suc n)) (suc n) (omega arith) in
    ap (λ t. atoi (b'-' ∷ t)) e
    ∙ ground (arith, unsigned-decimal_from (suc (suc n)) (suc n) c s (omega arith) e)
