-- ===== src/Limits/SlidingWindow/Window.antt =====
-- pkg/limits/limiter.go, type SlidingWindowLimiter: the requests admitted in a window of time,
-- counted over the whole history and not over the list that the limiter keeps.
use mathlib.Core.List.{append-nil}
use pin_go.Base.{
  ℕ, zero, suc, ◌+◌, ◌^◌, ◌<◌, ◌≤◌, ◌≡◌, refl, ap, Bool, true, List, [], ◌∷◌, ◌++◌, All, pos, ◌+ℤ◌,
  ◌-ℤ◌, ◌≤ℤ◌, leb_ℤ, int64, int64_id, +ℤ_parts, -ℤ_parts, Time, Duration, after, filter, length,
  replicate, if◌then◌else◌, arith, length-append, length-replicate, length-filter-le, Bool-cases,
  inl, inr, sym, ◌∙◌,
}
use pin_go.Limits.SlidingWindow.{SlidingWindow, new_sliding_window, cutoff, cleanup, admit, allow_n}

-- The limiter after a run of requests, and the times of all that were admitted, oldest first.
unfoldable pub run : SlidingWindow → List Time → List (ℕ × Time) → SlidingWindow × List Time
run sw history [] = (sw, history)
run sw history ((n, now) ∷ rs) =
    let (sw', granted) = allow_n sw (pos n) now in
    run sw' (history ++ (if granted then replicate n now else [])) rs

-- The admitted requests that are after the start of the window that ends at `now`.
abbrev pub in_window : Duration → Time → List Time → List Time
in_window window now = filter (λ t. after t (cutoff window now))

-- The times of the requests do not fall.
abbrev pub Ordered : Time → List (ℕ × Time) → Type 0
Ordered start [] = Unit {0}
Ordered start ((n, now) ∷ rs) = (start ≤ℤ now) × Ordered now rs

-- Each request asks for so few that the sum with the limit is an int64, which the code does not test.
abbrev pub Countable : ℕ → List (ℕ × Time) → Type 0
Countable limit rs = All (λ r. r.0 + limit < 2 ^ 63) rs

-- The time of the last request, or `start` without one.
abbrev pub last_time : Time → List (ℕ × Time) → Time
last_time start [] = start
last_time start ((n, now) ∷ rs) = last_time now rs

filter-append :
    (p : Time → Bool) (xs ys : List Time) → filter p (xs ++ ys) ≡ filter p xs ++ filter p ys
filter-append p [] ys = refl
filter-append p (x ∷ xs) ys = ground (arith, filter-append p xs ys)

-- A later window drops what an earlier one dropped.
in_window_twice :
    (w : Duration) (a b : Time) (xs : List Time)
    → a ≤ℤ b
    → in_window w b (in_window w a xs) ≡ in_window w b xs
in_window_twice w a b [] h = refl
in_window_twice w a b (x ∷ xs) h = ground (
  arith,
  in_window_twice w a b xs h,
  +ℤ_parts a (int64 (pos 0 -ℤ w)),
  +ℤ_parts b (int64 (pos 0 -ℤ w)),
)

filter-replicate :
    (p : Time → Bool) (n : ℕ) (t : Time) → p t ≡ true → filter p (replicate n t) ≡ replicate n t
filter-replicate p zero t h = refl
filter-replicate p (suc n) t h = rw h (ap (◌∷◌ t) (filter-replicate p n t h))

-- The limiter keeps the part of the history that is in the window, within the limit.
record Keeps (limit w : ℕ) (sw : SlidingWindow) (history : List Time) (now : Time) : Type 0 where
  limited : sw.limit ≡ pos limit
  wide : sw.window ≡ pos w
  kept : in_window (pos w) now sw.requests ≡ in_window (pos w) now history
  bounded : length (in_window (pos w) now history) ≤ limit

module _ (limit w : ℕ) (positive : 0 < w) (ranged : w < 2 ^ 63) where
  now_inside : (now : Time) → after now (cutoff (pos w) now) ≡ true
  now_inside now = ground (
    arith,
    -ℤ_parts (pos 0) (pos w),
    int64_id (pos 0 -ℤ pos w),
    +ℤ_parts now (int64 (pos 0 -ℤ pos w)),
  )

  cleanup-kept :
      (sw : SlidingWindow) (history : List Time) (start now : Time)
      → Keeps limit w sw history start
      → start ≤ℤ now
      → (cleanup sw now).requests ≡ in_window (pos w) now history
  unfolding cleanup
  cleanup-kept sw history start now k h = rw k.wide (
      sym (in_window_twice (pos w) start now sw.requests h)
      ∙ ap (in_window (pos w) now) k.kept
      ∙ in_window_twice (pos w) start now history h)

  still_bounded :
      (sw : SlidingWindow) (history : List Time) (start now : Time)
      → Keeps limit w sw history start
      → start ≤ℤ now
      → length (in_window (pos w) now history) ≤ limit
  still_bounded sw history start now k h = omega (
    arith,
    k.bounded,
    ap length (in_window_twice (pos w) start now history h),
    length-filter-le (λ t. after t (cutoff (pos w) now)) (in_window (pos w) start history),
  )

  in_window-added :
      (now : Time) (n : ℕ) (xs : List Time)
      → in_window (pos w) now (xs ++ replicate n now) ≡ in_window (pos w) now xs ++ replicate n now
  in_window-added now n xs =
      rw (filter-append (λ t. after t (cutoff (pos w) now)) xs (replicate n now))
        (rw (filter-replicate (λ t. after t (cutoff (pos w) now)) n now (now_inside now)) refl)

  added-Keeps :
      (sw : SlidingWindow) (history : List Time) (now : Time) (n : ℕ)
      → sw.limit ≡ pos limit
      → sw.window ≡ pos w
      → sw.requests ≡ in_window (pos w) now history
      → length (in_window (pos w) now history) + n ≤ limit
      → Keeps limit w
          (record sw { requests = sw.requests ++ replicate n now })
          (history ++ replicate n now)
          now
  added-Keeps sw history now n l e k b = record {
    limited = l;
    wide = e;
    kept =
        rw (in_window-added now n sw.requests, in_window-added now n history, k)
          (ap (λ xs. xs ++ replicate n now)
            (in_window_twice (pos w) now now history (omega arith)));
    bounded = omega (
      arith,
      ap length (in_window-added now n history),
      length-append (in_window (pos w) now history) (replicate n now),
      length-replicate n now,
    );
  }

  -- A request on a list that is clean.
  admit-Keeps :
      (sw : SlidingWindow) (history : List Time) (now : Time) (n : ℕ)
      → sw.limit ≡ pos limit
      → sw.window ≡ pos w
      → sw.requests ≡ in_window (pos w) now history
      → length (in_window (pos w) now history) ≤ limit
      → n + limit < 2 ^ 63
      → let (sw', granted) = admit sw (pos n) now in
        Keeps limit w sw' (history ++ (if granted then replicate n now else [])) now
  unfolding admit
  admit-Keeps sw history now n l e k b f =
      elim (Bool-cases (leb_ℤ (int64 (pos (length sw.requests) +ℤ pos n)) sw.limit)) [
        | inl t ↦ rw t (
            added-Keeps sw history now n l e k (
              let total : pos (length sw.requests) +ℤ pos n ≡ pos (length sw.requests + n) =
                ground (arith, +ℤ_parts (pos (length sw.requests)) (pos n)) in
              let size : length sw.requests ≡ length (in_window (pos w) now history) =
                ap length k in
              ground (arith, int64_id (pos (length sw.requests + n)))))
        | inr t ↦
            rw (t, append-nil history)
              (record {
                limited = l;
                wide = e;
                kept = rw k (in_window_twice (pos w) now now history (omega arith));
                bounded = b;
              })
      ]

  allow_n-Keeps :
      (sw : SlidingWindow) (history : List Time) (start now : Time) (n : ℕ)
      → Keeps limit w sw history start
      → start ≤ℤ now
      → n + limit < 2 ^ 63
      → let (sw', granted) = allow_n sw (pos n) now in
        Keeps limit w sw' (history ++ (if granted then replicate n now else [])) now
  unfolding allow_n
  allow_n-Keeps sw history start now n k h f =
      admit-Keeps (cleanup sw now) history now n k.limited k.wide
        (cleanup-kept sw history start now k h) (still_bounded sw history start now k h) f

  run-Keeps :
      (sw : SlidingWindow) (history : List Time) (start : Time) (rs : List (ℕ × Time))
      → Keeps limit w sw history start
      → Ordered start rs
      → Countable limit rs
      → Keeps limit w (run sw history rs).0 (run sw history rs).1 (last_time start rs)
  unfolding run
  run-Keeps sw history start [] k h f = k
  run-Keeps sw history start ((n, now) ∷ rs) k h f =
      let (sw', granted) = allow_n sw (pos n) now in
      run-Keeps sw' (history ++ (if granted then replicate n now else [])) now rs
        (allow_n-Keeps sw history start now n k h.0 f.0) h.1 f.1

  -- However the requests of a run fall, if their times do not go back and each asks for so few that
  -- the sum with the limit is below 2 ^ 63, at most the limit of them has been admitted in the window
  -- that ends at the last one. It is counted over all that were ever admitted, and the list that the
  -- limiter keeps holds the same requests of that window. The window is positive and below 2 ^ 63.
  pub in_window-run :
      (start : Time) (rs : List (ℕ × Time))
      → Ordered start rs
      → Countable limit rs
      → let (sw, history) = run (new_sliding_window (pos limit) (pos w)) [] rs in
        let now = last_time start rs in
        (length (in_window (pos w) now history) ≤ limit)
        × (in_window (pos w) now sw.requests ≡ in_window (pos w) now history)
  unfolding new_sliding_window
  in_window-run start rs h f =
      let k =
        run-Keeps (new_sliding_window (pos limit) (pos w)) [] start rs
          (record { limited = refl; wide = refl; kept = refl; bounded = omega arith }) h f in
      (k.bounded, k.kept)
