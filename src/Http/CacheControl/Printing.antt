-- ===== src/Http/CacheControl/Printing.antt =====
-- pkg/http/headers.go, type CacheControl: printing and parsing.
use pin_go.Base.{
  ℕ, suc, ◌*◌, ◌/◌, ◌^◌, ◌<◌, ◌≡◌, refl, sym, ap, ◌∙◌, Bool, true, false, not, ◌==◌, List, [], ◌∷◌,
  ◌++◌, map, Option, none, some, pos, negsuc, ◌*ℤ◌, int64_id, quot, times_pos, second,
  whole_seconds, All, arith, leb, ◌&&◌, ◌||◌, ◌≤ℤ◌, IsInt64, Duration,
}
use pin_go.Base.Bytes.{Text, codes, split, onto_first, split_once, join, trim_space, is_space, itoa}
use pin_go.Base.Decimal.{decimal_from-Digits, Digits, atoi-itoa}
use pin_go.Base.Splitting.{Free, split-Free, split-append, Solid, trim_space-Solid, trim_space-led}
use pin_go.Http.CacheControl.{
  CacheControl, empty, set_directive, set_seconds, read_directive, read_all, parse_cache_control,
  flag, age, parts, cache_control_text,
}

-- A part of the joined text, without commas and spaces.
record Whole (s : Text) : Type 0 where
  unsplit : Free b',' s
  solid : Solid s

abbrev whole_test : Text → Bool
whole_test [] = true
whole_test (c ∷ s) = not (c == b',') && (not (is_space c) && whole_test s)

Whole-test : (s : Text) → whole_test s ≡ true → Whole s
Whole-test [] h = record { unsplit = tt; solid = tt }
Whole-test (c ∷ s) h =
    let w = Whole-test s (ground arith) in
    record { unsplit = (ground arith, w.unsplit); solid = (ground arith, w.solid) }

Whole-Digits : (s : Text) → Digits s → Whole s
unfolding is_space
Whole-Digits [] d = record { unsplit = tt; solid = tt }
Whole-Digits (c ∷ s) d =
    let w = Whole-Digits s d.1 in
    record { unsplit = (ground (arith, d.0), w.unsplit); solid = (ground (arith, d.0), w.solid) }

age_part : (n : ℕ) → Whole (codes "max-age=" ++ itoa (pos n))
unfolding itoa is_space
age_part n =
    let w = Whole-Digits _ (decimal_from-Digits (suc n) n) in
    record {
      unsplit = (refl, (refl, (refl, (refl, (refl, (refl, (refl, (refl, w.unsplit))))))));
      solid = (refl, (refl, (refl, (refl, (refl, (refl, (refl, (refl, w.solid))))))));
    }

-- What the parts behind the first are split into: a space leads each.
abbrev behind : List Text → List Text
behind [] = []
behind (q ∷ qs) = split b',' (32 ∷ join (codes ", ") (q ∷ qs))

split-join :
    (p : Text) (ps : List Text)
    → Free b',' p
    → split b',' (join (codes ", ") (p ∷ ps)) ≡ p ∷ behind ps
unfolding join
split-join p [] f = split-Free b',' p f
split-join p (q ∷ qs) f = split-append b',' p (32 ∷ join (codes ", ") (q ∷ qs)) f

module _ (lower : ℕ → ℕ) where
  read_trimmed :
      (control : CacheControl) (d e : Text)
      → trim_space d ≡ trim_space e
      → read_directive lower control d ≡ read_directive lower control e
  unfolding read_directive
  read_trimmed control d e h =
      ap (λ t. set_directive control (map lower (split_once b'=' t).0) (split_once b'=' t).1) h

  read_behind :
      (control : CacheControl) (ps : List Text)
      → All Whole ps
      → read_all lower control (behind ps) ≡ read_all lower control ps
  unfolding read_all
  read_behind control [] w = refl
  read_behind control (q ∷ qs) w =
      let apart : behind (q ∷ qs) ≡ (32 ∷ q) ∷ behind qs =
        unfold split in ap (onto_first 32) (split-join q qs w.0.unsplit) in
      let led = trim_space-led q w.0.solid ∙ sym (trim_space-Solid q w.0.solid) in
      ap (read_all lower control) apart
      ∙ ap (λ c. read_all lower c (behind qs)) (read_trimmed control (32 ∷ q) q led)
      ∙ read_behind (read_directive lower control q) qs w.1

  -- Joined parts are read one after the other.
  read_joined :
      (control : CacheControl) (p : Text) (ps : List Text)
      → All Whole (p ∷ ps)
      → read_all lower control (split b',' (join (codes ", ") (p ∷ ps)))
        ≡ read_all lower control (p ∷ ps)
  unfolding read_all
  read_joined control p ps w =
      ap (read_all lower control) (split-join p ps w.0.unsplit)
      ∙ read_behind (read_directive lower control p) ps w.1

  -- Small letters and the dash are in lower case.
  abbrev pub plain : ℕ → Bool
  plain c = leb 97 c && leb c 122 || c == 45

abbrev plain_text : (ℕ → ℕ) → Text → Bool
plain_text lower [] = true
plain_text lower (c ∷ s) = plain lower c && plain_text lower s

-- The duration in whole seconds.
abbrev pub whole : Duration → Duration
whole d = whole_seconds d *ℤ second

abbrev pub whole_age : Option Duration → Option Duration
whole_age none = none
whole_age (some d) = some (whole d)

abbrev pub Forwards : Option Duration → Type 0
Forwards none = Unit {0}
Forwards (some d) = (pos 0 ≤ℤ d) × IsInt64 d

module _ (lower : ℕ → ℕ) (keeps : (c : ℕ) → plain lower c ≡ true → lower c ≡ c) where
  lowered : (s : Text) → plain_text lower s ≡ true → map lower s ≡ s
  lowered [] h = refl
  lowered (c ∷ s) h = rw (keeps c (ground arith), lowered s (ground arith)) refl

  named :
      (had : CacheControl) (name : Text)
      → trim_space name ≡ name
      → split_once b'=' name ≡ (name, none)
      → plain_text lower name ≡ true
      → read_directive lower had name ≡ set_directive had name none
  unfolding read_directive
  named had name t s p = rw (t, s, lowered name p) refl

  read_number :
      (had : CacheControl) (n : ℕ)
      → n * 1_000_000_000 < 2 ^ 63
      → read_directive lower had (codes "max-age=" ++ itoa (pos n))
        ≡ record had { max_age = some (pos n *ℤ second) }
  unfolding read_directive split_once set_directive
  read_number had n h =
      let trimmed = trim_space-Solid (codes "max-age=" ++ itoa (pos n)) (age_part n).solid in
      ap (λ t. set_directive had (map lower (split_once b'=' t).0) (split_once b'=' t).1) trimmed
      ∙ ap (λ m. set_directive had m (some (itoa (pos n)))) (lowered (codes "max-age") refl)
      ∙ ap (set_seconds had) (atoi-itoa (pos n) (omega arith))
      ∙ ap (λ d. record had { max_age = some d })
          (int64_id (pos n *ℤ second) (rw (times_pos n 1_000_000_000) (omega arith)))

  read_flag :
      (b : Bool) (had : CacheControl) (to : Bool → CacheControl) (name : Text) (rest : List Text)
      → trim_space name ≡ name
      → split_once b'=' name ≡ (name, none)
      → plain_text lower name ≡ true
      → had ≡ to false
      → set_directive had name none ≡ to true
      → read_all lower had (flag b name ++ rest) ≡ read_all lower (to b) rest
  unfolding read_all
  read_flag true had to name rest t s p e f =
      ap (λ c. read_all lower c rest) (named had name t s p ∙ f)
  read_flag false had to name rest t s p e f = ap (λ c. read_all lower c rest) e

  read_age :
      (had : CacheControl) (m : Option Duration)
      → Forwards m
      → had.max_age ≡ none
      → read_all lower had (age m) ≡ record had { max_age = whole_age m }
  unfolding read_all quot
  read_age had none h e = λ i. record had { max_age = e i }
  read_age had (some (pos n)) h e = read_number had (n / 1_000_000_000) (omega (arith, h.1))
  read_age had (some (negsuc n)) h e = absurd (omega (arith, h.0))

  -- The flags that are read, in the order in which they are printed.
  flags : Bool → Bool → Bool → Bool → Bool → CacheControl
  flags a b c d e = record {
    max_age = none;
    no_cache = a;
    no_store = b;
    public = c;
    private = d;
    must_revalidate = e;
  }

  read_parts :
      (c : CacheControl)
      → Forwards c.max_age
      → read_all lower empty (parts c) ≡ record c { max_age = whole_age c.max_age }
  unfolding trim_space split_once set_directive flags
  read_parts c h =
      read_flag c.no_cache (flags false false false false false)
        (λ x. flags x false false false false) (codes "no-cache") _ refl refl refl refl refl
      ∙ read_flag c.no_store (flags c.no_cache false false false false)
          (λ x. flags c.no_cache x false false false) (codes "no-store") _ refl refl refl refl refl
      ∙ read_flag c.public (flags c.no_cache c.no_store false false false)
          (λ x. flags c.no_cache c.no_store x false false) (codes "public") _ refl refl refl refl
          refl
      ∙ read_flag c.private (flags c.no_cache c.no_store c.public false false)
          (λ x. flags c.no_cache c.no_store c.public x false) (codes "private") _ refl refl refl
          refl refl
      ∙ read_flag c.must_revalidate (flags c.no_cache c.no_store c.public c.private false)
          (λ x. flags c.no_cache c.no_store c.public c.private x) (codes "must-revalidate") _ refl
          refl refl refl refl
      ∙ read_age (flags c.no_cache c.no_store c.public c.private c.must_revalidate) c.max_age h refl

  flag-Whole :
      (b : Bool) (s : Text) (rest : List Text)
      → Whole s
      → All Whole rest
      → All Whole (flag b s ++ rest)
  flag-Whole true s rest w a = (w, a)
  flag-Whole false s rest w a = a

  age-Whole : (m : Option Duration) → Forwards m → All Whole (age m)
  unfolding quot
  age-Whole none h = tt
  age-Whole (some (pos n)) h = (age_part (n / 1_000_000_000), tt)
  age-Whole (some (negsuc n)) h = absurd (omega (arith, h.0))

  parts-Whole : (c : CacheControl) → Forwards c.max_age → All Whole (parts c)
  unfolding is_space
  parts-Whole c h = flag-Whole c.no_cache (codes "no-cache") _ (Whole-test _ refl) (
      flag-Whole c.no_store (codes "no-store") _ (Whole-test _ refl) (
        flag-Whole c.public (codes "public") _ (Whole-test _ refl) (
          flag-Whole c.private (codes "private") _ (Whole-test _ refl) (
            flag-Whole c.must_revalidate (codes "must-revalidate") _ (Whole-test _ refl)
              (age-Whole c.max_age h)))))

  parse_joined :
      (ps : List Text)
      → All Whole ps
      → read_all lower empty (split b',' (join (codes ", ") ps)) ≡ read_all lower empty ps
  parse_joined [] w =
      unfold split join read_all read_directive trim_space split_once set_directive in refl
  parse_joined (p ∷ ps) w = read_joined lower empty p ps w

  -- ParseCacheControl reads back what String prints, but for the part of a second of MaxAge, which
  -- is cut off, where MaxAge is not negative and the lower case keeps small letters and the dash.
  pub parse_cache_control-cache_control_text :
      (c : CacheControl)
      → Forwards c.max_age
      → parse_cache_control lower (cache_control_text c)
        ≡ record c { max_age = whole_age c.max_age }
  unfolding parse_cache_control cache_control_text
  parse_cache_control-cache_control_text c h =
      parse_joined (parts c) (parts-Whole c h) ∙ read_parts c h
