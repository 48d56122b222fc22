-- ===== src/LoadBalancing/Random.antt =====
-- pkg/loadbalancing/balancer.go, type RandomBalancer. The generator is math/rand's: a state and
-- Intn, which is below its argument.
-- The calls are taken one at a time. SelectBackend holds the lock for readers only, so two of them may
-- be in Intn of the one generator at once, which math/rand documents as unsafe; nothing is said of that.
pub mod Draws
mod Tests
use pin_go.Base.{ℕ, ◌<◌, String, true, false, List, [], ◌∷◌, Option, none, some, length, get_elem?}
use pin_go.LoadBalancing.Backends.{
  Backend, make_backends, get_healthy_backends, healthy_addresses, mark, no_healthy,
}
use pin_go.LoadBalancing.Contract.{Selection, selected, failed, crashed}

pub record Generator : Type 1 where
  pub Rand : Type 0
  pub intn : ℕ → Rand → ℕ × Rand
  pub intn_lt : (n : ℕ) (s : Rand) → 0 < n → (intn n s).0 < n

-- `rand.New(rand.NewSource(seed))` is the state that the balancer starts with.
module _ (gen : Generator) where
  open gen use {Rand, intn}

  pub record Random : Type 0 where
    pub backends : List Backend
    pub rand : Rand

  unfoldable pub new_random : List String → Rand → Random
  new_random addresses rand = record { backends = make_backends addresses; rand = rand }

  -- `healthyBackends[index].Address`; an index out of range would panic.
  pick : List Backend → ℕ → Selection
  pick bs index = elim (get_elem? bs index) [ none ↦ crashed | some b ↦ selected b.address ]

  -- The rest of `SelectBackend` on the list of healthy backends.
  choose : Random → List Backend → Random × Selection
  unfolding pick
  choose r [] = (r, failed no_healthy)
  choose r (b ∷ bs) =
      let (index, rand) = intn (length (b ∷ bs)) r.rand in
      (record r { rand = rand }, pick (b ∷ bs) index)

  unfoldable pub select_backend : Random → Random × Selection
  unfolding choose
  select_backend r = choose r (get_healthy_backends r.backends)

  unfoldable pub update_backends : Random → List String → Random
  update_backends r addresses = record r { backends = make_backends addresses }

  unfoldable pub mark_healthy : Random → String → Random
  unfolding mark
  mark_healthy r backend = record r { backends = mark true backend r.backends }

  unfoldable pub mark_unhealthy : Random → String → Random
  unfolding mark
  mark_unhealthy r backend = record r { backends = mark false backend r.backends }

  unfoldable pub get_healthy_addresses : Random → List String
  get_healthy_addresses r = healthy_addresses r.backends
