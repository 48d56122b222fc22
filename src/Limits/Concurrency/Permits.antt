-- ===== src/Limits/Concurrency/Permits.antt =====
-- pkg/limits/limiter.go, type ConcurrencyLimiter: TryAcquire and Release as a counting semaphore.
use pin_go.Base.{
  ℕ, zero, suc, ltb_ℤ, true, Bool-cases, inl, inr, ◌^◌, ◌<◌, ◌≤◌, ◌≡◌, ◌↔◌, refl, List, [], ◌∷◌,
  pos, ◌+ℤ◌, ◌-ℤ◌, int64_id, +ℤ_parts, -ℤ_parts, if◌then◌else◌, arith,
}
use pin_go.Limits.Concurrency.{Concurrency, new_concurrency, try_acquire, release, get_current}

pub data Call : Type 0 where
  tries releases : Call

-- The limiter and the number of permits that callers hold, after a run of calls: a granted TryAcquire
-- gives a permit, and a Release gives one back. Without a permit nobody calls Release.
unfoldable pub run : Concurrency → ℕ → List Call → Concurrency × ℕ
run cl held [] = (cl, held)
run cl held (tries ∷ cs) =
    let (cl', done) = try_acquire cl in run cl' (if done then suc held else held) cs
run cl zero (releases ∷ cs) = run cl zero cs
run cl (suc held) (releases ∷ cs) = run (release cl) held cs

record Counts (limit held : ℕ) (cl : Concurrency) : Type 0 where
  limited : cl.limit ≡ pos limit
  counted : cl.current ≡ pos held
  bounded : held ≤ limit

module _ (limit : ℕ) (ranged : limit < 2 ^ 63) where
  try_acquire-Counts :
      (cl : Concurrency) (held : ℕ)
      → Counts limit held cl
      → let (cl', done) = try_acquire cl in Counts limit (if done then suc held else held) cl'
  unfolding try_acquire
  try_acquire-Counts cl held c = elim (Bool-cases (ltb_ℤ cl.current cl.limit)) [
    | inl t ↦ rw t (record {
      limited = c.limited;
      counted = ground (
        arith,
        c.counted,
        +ℤ_parts cl.current (pos 1),
        int64_id (cl.current +ℤ pos 1),
        c.bounded,
      );
      bounded = ground (arith, t, c.counted, c.limited);
    })
    | inr t ↦ rw t c
  ]

  release-Counts :
      (cl : Concurrency) (held : ℕ) → Counts limit (suc held) cl → Counts limit held (release cl)
  unfolding release
  release-Counts cl held c =
      let some_out : ltb_ℤ (pos 0) cl.current ≡ true = ground (arith, c.counted) in
      rw some_out (record {
        limited = c.limited;
        counted = ground (
          arith,
          c.counted,
          -ℤ_parts cl.current (pos 1),
          int64_id (cl.current -ℤ pos 1),
          c.bounded,
        );
        bounded = omega (arith, c.bounded);
      })

  run-Counts :
      (cl : Concurrency) (held : ℕ) (cs : List Call)
      → Counts limit held cl
      → Counts limit (run cl held cs).1 (run cl held cs).0
  unfolding run
  run-Counts cl held [] c = c
  run-Counts cl held (tries ∷ cs) c =
      run-Counts (try_acquire cl).0 (if (try_acquire cl).1 then suc held else held) cs
        (try_acquire-Counts cl held c)
  run-Counts cl zero (releases ∷ cs) c = run-Counts cl zero cs c
  run-Counts cl (suc held) (releases ∷ cs) c =
      run-Counts (release cl) held cs (release-Counts cl held c)

  full :
      (cl : Concurrency) (held : ℕ)
      → Counts limit held cl
      → ((try_acquire cl).1 ≡ true) ↔ (held < limit)
  unfolding try_acquire
  full cl held c =
      (λ h. ground (arith, c.limited, c.counted), λ h. ground (arith, c.limited, c.counted))

  -- After any run of TryAcquire and Release on a new limiter, where only a permit that is held is
  -- given back, the callers hold at most as many permits as the limit, GetCurrent is the number that
  -- they hold, and the next TryAcquire is granted exactly if they hold fewer than the limit.
  -- The limit is below 2 ^ 63.
  pub run_bounded :
      (cs : List Call)
      → let (cl, held) = run (new_concurrency (pos limit)) 0 cs in
        (held ≤ limit)
        × (get_current cl ≡ pos held)
        × (((try_acquire cl).1 ≡ true) ↔ (held < limit))
  unfolding new_concurrency
  run_bounded cs =
      let (cl, held) = run (new_concurrency (pos limit)) 0 cs in
      let c =
        run-Counts (new_concurrency (pos limit)) 0 cs
          (record { limited = refl; counted = refl; bounded = omega arith }) in
      (c.bounded, c.counted, full cl held c)
