-- ===== src/Core/Server/Stopping.antt =====
-- pkg/core/server.go, gracefulShutdown: when it returns nil.
use pin_go.Base.{
  ◌≡◌, refl, ◌⊎◌, inl, inr, ◌↔◌, Bool, true, false, List, [], ◌∷◌, Option, none, some, Bool-cases,
  ltb_ℤ, leb_ℤ, ◌-ℤ◌, ◌*ℤ◌, ◌&&◌, ◌||◌, pos, ◌≤ℤ◌, Duration, All, arith,
}
use pin_go.Errors.{Error}
use pin_go.Core.Server.{
  Service, grace, later_of, all_stopped, grace_over, awaited, graceful_shutdown,
}

-- The Stop of the service returns within the time.
abbrev pub StopsIn : Duration → Option Duration → Type 0
StopsIn d none = ⊥
StopsIn d (some t) = t ≤ℤ d

abbrev pub AllStop : Duration → List Service → Type 0
AllStop d = All λ s. StopsIn d s.stop.takes

later_of-StopsIn :
    (d : Duration) (a b : Option Duration) → StopsIn d (later_of a b) ↔ (StopsIn d a × StopsIn d b)
unfolding later_of
later_of-StopsIn d none b = (λ h. absurd h, λ h. h.0)
later_of-StopsIn d (some a) none = (λ h. absurd h, λ h. h.1)
later_of-StopsIn d (some a) (some b) = ground arith

all_stopped-StopsIn :
    (d : Duration) (ss : List Service) → pos 0 ≤ℤ d → StopsIn d (all_stopped ss) ↔ AllStop d ss
unfolding all_stopped
all_stopped-StopsIn d [] h = (λ x. tt, λ x. h)
all_stopped-StopsIn d (s ∷ ss) h =
    let (both, back) = later_of-StopsIn d s.stop.takes (all_stopped ss) in
    let (rest, again) = all_stopped-StopsIn d ss h in
    (λ x. let (a, b) = both x in (a, rest b), λ x. back (x.0, again x.1))

-- Either end, for the time at which the last Stop returns.
Ended : Option Duration → Option Error → Type 0
Ended t e =
    ((e ≡ none) × StopsIn grace t) ⊎ ((e ≡ some grace_over) × (StopsIn (grace -ℤ pos 1) t → ⊥))

or_left : (a b : Bool) → (a || b) ≡ false → a ≡ false
or_left true b x = x
or_left false b x = refl

within :
    (d : Duration) (pick : Bool) → (ltb_ℤ d grace || (leb_ℤ d grace && pick)) ≡ true → d ≤ℤ grace
within d pick x = ground arith

outside :
    (d : Duration) (pick : Bool)
    → (ltb_ℤ d grace || (leb_ℤ d grace && pick)) ≡ false
    → d ≤ℤ (grace -ℤ pos 1)
    → ⊥
unfolding ◌*ℤ◌ ◌-ℤ◌
outside d pick x h =
    let least : ltb_ℤ d grace ≡ false = or_left (ltb_ℤ d grace) (leb_ℤ d grace && pick) x in
    ground arith

awaited-Ended : (pick : Bool) (t : Option Duration) → Ended t (awaited pick t)
unfolding awaited Ended
awaited-Ended pick none = inr (refl, λ h. h)
awaited-Ended pick (some d) = elim (Bool-cases (ltb_ℤ d grace || (leb_ℤ d grace && pick))) [
  | inl x ↦ inl (rw x refl, within d pick x)
  | inr x ↦ inr (rw x refl, λ h. outside d pick x h)
]

-- Whichever end of the wait the `select` takes when both are ready, gracefulShutdown returns nil only
-- if the Stop of every service returns within 30 seconds, and else the error of the timeout, and
-- always nil if every Stop returns earlier.
pub graceful_shutdown-AllStop :
    (pick : Bool) (ss : List Service)
    → ((graceful_shutdown pick ss ≡ none) × AllStop grace ss)
      ⊎ ((graceful_shutdown pick ss ≡ some grace_over) × (AllStop (grace -ℤ pos 1) ss → ⊥))
unfolding graceful_shutdown Ended ◌*ℤ◌ ◌-ℤ◌
graceful_shutdown-AllStop pick ss = elim (awaited-Ended pick (all_stopped ss)) [
  | inl (e, h) ↦ inl (e, (all_stopped-StopsIn grace ss (omega arith)).0 h)
  | inr (e, h) ↦ inr (e, λ a. h ((all_stopped-StopsIn (grace -ℤ pos 1) ss (omega arith)).1 a))
]
