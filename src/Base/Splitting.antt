-- ===== src/Base/Splitting.antt =====
-- Splitting, joining and trimming the texts of Base/Bytes.
use Prim.Native.Nat.{ℕ}
use mathlib.Core.Path.{◌≡◌, refl, ap, ◌∙◌}
use mathlib.Core.Bool.{true, false}
use mathlib.Core.List.{[], ◌∷◌, ◌++◌, reverse, reverse_aux, reverse-reverse}
use native.Mathlib.Omega.{arith}
use pin_go.Base.Tests.{◌==◌}
use pin_go.Base.Lists.{All}
use pin_go.Base.Bytes.{Text, split, is_space, trim_left, trim_space}

-- The separator does not stand in the text.
abbrev pub Free : ℕ → Text → Type 0
Free sep = All λ c. (c == sep) ≡ false

pub split-Free : (sep : ℕ) (s : Text) → Free sep s → split sep s ≡ s ∷ []
unfolding split
split-Free sep [] f = refl
split-Free sep (c ∷ s) f = rw (f.0, split-Free sep s f.1) refl

pub split-append : (sep : ℕ) (s t : Text) → Free sep s → split sep (s ++ sep ∷ t) ≡ s ∷ split sep t
unfolding split
split-append sep [] t f = let same : (sep == sep) ≡ true = ground arith in rw same refl
split-append sep (c ∷ s) t f = rw (f.0, split-append sep s t f.1) refl

abbrev pub Solid : Text → Type 0
Solid = All λ c. is_space c ≡ false

trim_left-Solid : (s : Text) → Solid s → trim_left s ≡ s
unfolding trim_left
trim_left-Solid [] a = refl
trim_left-Solid (c ∷ s) a = rw a.0 refl

Solid-reverse_aux : (s t : Text) → Solid s → Solid t → Solid (reverse_aux s t)
Solid-reverse_aux [] t a b = b
Solid-reverse_aux (c ∷ s) t a b = Solid-reverse_aux s (c ∷ t) a.1 (a.0, b)

-- A text without spaces is trimmed to itself, and so it is behind a space.
pub trim_space-Solid : (s : Text) → Solid s → trim_space s ≡ s
unfolding trim_space
trim_space-Solid s a =
    ap (λ t. reverse (trim_left (reverse t))) (trim_left-Solid s a)
    ∙ ap reverse (trim_left-Solid (reverse s) (Solid-reverse_aux s [] a tt))
    ∙ reverse-reverse s

pub trim_space-led : (s : Text) → Solid s → trim_space (32 ∷ s) ≡ s
unfolding trim_space trim_left
trim_space-led s a = trim_space-Solid s a
