-- ===== src/Limits/Concurrency/Tests.antt =====
-- pkg/limits/limiter.go, type ConcurrencyLimiter, at concrete inputs.
use pin_go.Base.{
  ◌<◌, true, ◌≤◌, ◌≡◌, ◌↔◌, refl, false, List, [], ◌∷◌, none, some, pos, ◌+ℤ◌, ◌-ℤ◌, int64, arith,
}
use pin_go.Limits.Concurrency.{
  Concurrency, new_concurrency, try_acquire, release, get_current, Actor, caller_moves,
  waiter_moves, acquired, run_steps, step, entered,
}
use pin_go.Limits.Concurrency.Permits.{Call, tries, releases, run, run_bounded}
use pin_go.Limits.Concurrency.Waiting.{Refused, run_steps-entered-Refused}

abbrev calls : List Call
calls = tries ∷ tries ∷ tries ∷ releases ∷ tries ∷ []

two_held : (run (new_concurrency (pos 2)) 0 calls).1 ≡ 2
unfolding run new_concurrency try_acquire release int64 ◌+ℤ◌ ◌-ℤ◌
two_held = refl

run_bounded_example :
    let (cl, held) = run (new_concurrency (pos 2)) 0 calls in
    (held ≤ 2) × (get_current cl ≡ pos held) × (((try_acquire cl).1 ≡ true) ↔ (held < 2))
run_bounded_example = run_bounded 2 (omega arith) calls

abbrev full : Concurrency
full = record { limit = pos 2; current = pos 2 }

run_steps-entered-Refused_example :
    ((acts : List Actor) → Refused full (run_steps acts (entered full)))
    × (run_steps (caller_moves ∷ caller_moves ∷ waiter_moves ∷ []) (entered full) ≡ none)
    × (run_steps (caller_moves ∷ waiter_moves ∷ caller_moves ∷ []) (entered full) ≡ none)
run_steps-entered-Refused_example = run_steps-entered-Refused full (omega arith)

takes_at_once :
    run_steps (caller_moves ∷ []) (entered (new_concurrency (pos 2)))
    ≡ some (record (entered (new_concurrency (pos 2))) {
      limiter = record { limit = pos 2; current = pos 1 };
      locked = false;
      caller = acquired;
    })
unfolding run_steps entered new_concurrency step int64 ◌+ℤ◌
takes_at_once = refl
