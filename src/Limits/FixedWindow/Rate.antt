-- ===== src/Limits/FixedWindow/Rate.antt =====
-- pkg/limits/limiter.go, type FixedWindowLimiter: how many a run of requests can be granted, and
-- what the readers of the state say about the next request.
use pin_go.Base.{
  ℕ, ◌+◌, ◌*◌, ◌^◌, ◌<◌, ◌≤◌, ◌≡◌, ◌↔◌, refl, ap, true, All, List, [], ◌∷◌, pos, pos_part, ◌+ℤ◌,
  ◌-ℤ◌, ◌≤ℤ◌, leb_ℤ, int64_id, +ℤ_parts, -ℤ_parts, Time, sub_time, sub_time-le, elapsed,
  if◌then◌else◌, arith, Bool-cases, inl, inr,
}
use pin_go.Limits.FixedWindow.{
  FixedWindow, new_fixed_window, roll, admit, allow_n, get_current_count, get_time_to_reset,
}

-- The number that a run of requests is granted.
unfoldable pub admitted : FixedWindow → List (ℕ × Time) → ℕ
admitted fw [] = 0
admitted fw ((n, now) ∷ rs) =
    let (fw', granted) = allow_n fw (pos n) now in (if granted then n else 0) + admitted fw' rs

-- The limiter after a run of requests.
unfoldable pub after_run : FixedWindow → List (ℕ × Time) → FixedWindow
after_run fw [] = fw
after_run fw ((n, now) ∷ rs) = after_run (allow_n fw (pos n) now).0 rs

-- The times of the requests do not fall and end before `end`.
abbrev pub Ordered : Time → List (ℕ × Time) → Time → Type 0
Ordered start [] end = start ≤ℤ end
Ordered start ((n, now) ∷ rs) end = (start ≤ℤ now) × Ordered now rs end

-- Each request asks for so few that the sum with the limit is an int64, which the code does not test.
abbrev pub Countable : ℕ → List (ℕ × Time) → Type 0
Countable limit rs = All (λ r. r.0 + limit < 2 ^ 63) rs

record Runs (limit w : ℕ) (fw : FixedWindow) : Type 0 where
  limited : fw.limit ≡ pos limit
  wide : fw.window ≡ pos w
  counted : pos 0 ≤ℤ fw.count
  bounded : fw.count ≤ℤ pos limit

-- What a step that grants `n` leaves of the allowance of the window and of those that passed.
record Pays (limit w n : ℕ) (fw fw' : FixedWindow) (now : Time) : Type 0 where
  runs : Runs limit w fw'
  later : fw.window_start ≤ℤ fw'.window_start
  before : fw'.window_start ≤ℤ now
  paid :
      (n + pos_part fw.count) * w
      ≤ pos_part fw'.count * w + limit * elapsed fw'.window_start fw.window_start

module _ (limit w : ℕ) (ranged : w < 2 ^ 63) (counts : limit < 2 ^ 63) where
  mul_mono : (r a b : ℕ) → a ≤ b → a * r ≤ b * r
  mul_mono r a b h = grind arith

  count-mul : (k m e : ℕ) → k ≤ limit → w ≤ e → k * w ≤ limit * e
  count-mul k m e h j = grind arith

  elapsed-le : (t u : Time) → u ≤ℤ t → pos w ≤ℤ sub_time t u → w ≤ elapsed t u
  elapsed-le t u h k = let (m, e, b, _) = sub_time-le t u h in ground (arith, k, e, b)

  roll-Pays :
      (fw : FixedWindow) (now : Time)
      → Runs limit w fw
      → fw.window_start ≤ℤ now
      → Pays limit w 0 fw (roll fw now) now
  unfolding roll
  roll-Pays fw now p h = elim (Bool-cases (leb_ℤ fw.window (sub_time now fw.window_start))) [
    | inl t ↦ rw t (record {
      runs = record {
        limited = p.limited;
        wide = p.wide;
        counted = omega arith;
        bounded = omega arith;
      };
      later = h;
      before = omega arith;
      paid = omega (
        arith,
        count-mul (pos_part fw.count) 0 (elapsed now fw.window_start)
            (ground (arith, p.bounded, p.counted))
            (elapsed-le now fw.window_start h (ground (arith, p.wide))),
      );
    })
    | inr t ↦ rw t (record { runs = p; later = omega arith; before = h; paid = omega arith })
  ]

  admit-Pays :
      (fw : FixedWindow) (now : Time) (n : ℕ)
      → Runs limit w fw
      → fw.window_start ≤ℤ now
      → n + limit < 2 ^ 63
      → let (fw', granted) = admit fw (pos n) in Pays limit w (if granted then n else 0) fw fw' now
  unfolding admit
  admit-Pays fw now n p h f =
      ground (arith, p.limited, +ℤ_parts fw.count (pos n), int64_id (fw.count +ℤ pos n))

  Pays-trans :
      (n : ℕ) (a b c : FixedWindow) (now : Time)
      → Pays limit w 0 a b now
      → Pays limit w n b c now
      → Pays limit w n a c now
  Pays-trans n a b c now p q = record {
    runs = q.runs;
    later = omega (arith, p.later, q.later);
    before = q.before;
    paid =
        let span : elapsed c.window_start a.window_start
            ≡ elapsed b.window_start a.window_start + elapsed c.window_start b.window_start =
          omega (arith, p.later, q.later) in
        omega (arith, ap (λ (t : ℕ). limit * t) span, p.paid, q.paid);
  }

  allow_n-Pays :
      (fw : FixedWindow) (now : Time) (n : ℕ)
      → Runs limit w fw
      → fw.window_start ≤ℤ now
      → n + limit < 2 ^ 63
      → let (fw', granted) = allow_n fw (pos n) now in
        Pays limit w (if granted then n else 0) fw fw' now
  unfolding allow_n
  allow_n-Pays fw now n p h f =
      let first = roll-Pays fw now p h in
      Pays-trans _ fw (roll fw now) _ now first
        (admit-Pays (roll fw now) now n first.runs first.before f)

  Ordered-weaken :
      (a b end : Time) (rs : List (ℕ × Time)) → a ≤ℤ b → Ordered b rs end → Ordered a rs end
  Ordered-weaken a b end [] h k = omega arith
  Ordered-weaken a b end ((n, now) ∷ rs) h k = (omega arith, k.1)

  Ordered-start : (a end : Time) (rs : List (ℕ × Time)) → Ordered a rs end → a ≤ℤ end
  Ordered-start a end [] h = h
  Ordered-start a end ((n, now) ∷ rs) h = omega (arith, Ordered-start now end rs h.1)

  admitted-run :
      (fw : FixedWindow) (rs : List (ℕ × Time)) (end : Time)
      → Runs limit w fw
      → Ordered fw.window_start rs end
      → Countable limit rs
      → admitted fw rs * w + pos_part fw.count * w ≤ limit * w + limit * elapsed end fw.window_start
  unfolding admitted
  admitted-run fw [] end p h f =
      omega (arith, mul_mono w (pos_part fw.count) limit (ground (arith, p.bounded, p.counted)))
  admitted-run fw ((n, now) ∷ rs) end p h f =
      let (fw', granted) = allow_n fw (pos n) now in
      let q = allow_n-Pays fw now n p h.0 f.0 in
      let h' = Ordered-weaken fw'.window_start now end rs q.before h.1 in
      let rest = admitted-run fw' rs end q.runs h' f.1 in
      let span : elapsed end fw.window_start
          ≡ elapsed fw'.window_start fw.window_start + elapsed end fw'.window_start =
        omega (arith, q.later, Ordered-start fw'.window_start end rs h') in
      omega (arith, ap (λ (t : ℕ). limit * t) span, q.paid, rest)

  -- From a new limiter, a run of requests at times that do not fall, each for so few that the sum with
  -- the limit is below 2 ^ 63, is granted at most the limit for the first window, and the limit once
  -- more for each window's length of time that the run lasts. The limit and the window are below
  -- 2 ^ 63.
  pub admitted-le_windows :
      (start end : Time) (rs : List (ℕ × Time))
      → Ordered start rs end
      → Countable limit rs
      → admitted (new_fixed_window (pos limit) (pos w) start) rs * w
        ≤ limit * w + limit * elapsed end start
  unfolding new_fixed_window
  admitted-le_windows start end rs h f = omega (
    arith,
    admitted-run (new_fixed_window (pos limit) (pos w) start) rs end
        (record { limited = refl; wide = refl; counted = omega arith; bounded = omega arith }) h f,
  )

  readings :
      (fw : FixedWindow) (now : Time)
      → Runs limit w fw
      → fw.window_start ≤ℤ now
      → ((get_time_to_reset fw now ≡ pos 0) ↔ (pos w ≤ℤ sub_time now fw.window_start))
        × (pos 0 ≤ℤ get_time_to_reset fw now)
        × (get_time_to_reset fw now ≤ℤ pos w)
  unfolding get_time_to_reset
  readings fw now p h =
      let (m, e, _, b) = sub_time-le now fw.window_start h in
      rw (e, p.wide)
        (
          (
            λ k. ground (arith, k, -ℤ_parts (pos w) (pos m), int64_id (pos w -ℤ pos m)),
            λ k. ground (arith, k, -ℤ_parts (pos w) (pos m), int64_id (pos w -ℤ pos m)),
          ),
          ground (arith, -ℤ_parts (pos w) (pos m), int64_id (pos w -ℤ pos m)),
          ground (arith, -ℤ_parts (pos w) (pos m), int64_id (pos w -ℤ pos m)),
        )

  admit_iff :
      (fw : FixedWindow) (n : ℕ)
      → Runs limit w fw
      → n + limit < 2 ^ 63
      → ((admit fw (pos n)).1 ≡ true) ↔ (fw.count +ℤ pos n ≤ℤ pos limit)
  unfolding admit
  admit_iff fw n p f = (
    λ k. ground (arith, k, p.limited, +ℤ_parts fw.count (pos n), int64_id (fw.count +ℤ pos n)),
    λ k. ground (arith, k, p.limited, +ℤ_parts fw.count (pos n), int64_id (fw.count +ℤ pos n)),
  )

  next_request :
      (fw : FixedWindow) (now : Time) (n : ℕ)
      → Runs limit w fw
      → fw.window_start ≤ℤ now
      → n + limit < 2 ^ 63
      → (((allow_n fw (pos n) now).1 ≡ true) ↔ (get_current_count fw now +ℤ pos n ≤ℤ pos limit))
        × ((get_time_to_reset fw now ≡ pos 0) ↔ (pos w ≤ℤ sub_time now fw.window_start))
        × (pos 0 ≤ℤ get_time_to_reset fw now)
        × (get_time_to_reset fw now ≤ℤ pos w)
  unfolding allow_n get_current_count
  next_request fw now n p h f =
      let (reset, low, high) = readings fw now p h in
      let counted : (roll fw now).count ≡ get_current_count fw now = ground arith in
      (rw (← counted) (admit_iff (roll fw now) n (roll-Pays fw now p h).runs f), reset, low, high)

  new-Runs : (start : Time) → Runs limit w (new_fixed_window (pos limit) (pos w) start)
  unfolding new_fixed_window
  new-Runs start = record {
    limited = refl;
    wide = refl;
    counted = omega arith;
    bounded = omega arith;
  }

  after_run-Runs :
      (fw : FixedWindow) (rs : List (ℕ × Time)) (end : Time)
      → Runs limit w fw
      → Ordered fw.window_start rs end
      → Countable limit rs
      → Runs limit w (after_run fw rs) × ((after_run fw rs).window_start ≤ℤ end)
  unfolding after_run
  after_run-Runs fw [] end p h f = (p, h)
  after_run-Runs fw ((n, now) ∷ rs) end p h f =
      let (fw', granted) = allow_n fw (pos n) now in
      let q = allow_n-Pays fw now n p h.0 f.0 in
      after_run-Runs fw' rs end q.runs (Ordered-weaken fw'.window_start now end rs q.before h.1) f.1

  -- After any run of requests on a new limiter at times that do not fall, a next request is granted
  -- exactly when the count that GetCurrentCount shows at its time has room for it, and
  -- GetTimeToReset is 0 exactly when the window is over, and at most the window else. Every request
  -- asks for so few that the sum with the limit is below 2 ^ 63, and so are the limit and the window.
  pub allow_n-get_current_count :
      (start now : Time) (rs : List (ℕ × Time)) (n : ℕ)
      → Ordered start rs now
      → Countable limit rs
      → n + limit < 2 ^ 63
      → let fw = after_run (new_fixed_window (pos limit) (pos w) start) rs in
        (((allow_n fw (pos n) now).1 ≡ true) ↔ (get_current_count fw now +ℤ pos n ≤ℤ pos limit))
        × ((get_time_to_reset fw now ≡ pos 0) ↔ (pos w ≤ℤ sub_time now fw.window_start))
        × (pos 0 ≤ℤ get_time_to_reset fw now)
        × (get_time_to_reset fw now ≤ℤ pos w)
  allow_n-get_current_count start now rs n h f small =
      let fw = new_fixed_window (pos limit) (pos w) start in
      let (runs, before) =
        after_run-Runs fw rs now (new-Runs start) (unfold new_fixed_window in h) f in
      next_request (after_run fw rs) now n runs before small
