-- ===== src/LoadBalancing/Random/Tests.antt =====
-- pkg/loadbalancing/balancer.go, type RandomBalancer, with a generator that counts.
use Prim.Native.Nat.{◌%◌}
use pin_go.Base.{ℕ, ◌+◌, ◌<◌, ◌≡◌, refl, true, [], ◌∷◌, pos, arith}
use pin_go.LoadBalancing.Contract.{selected}
use pin_go.LoadBalancing.Random.{Generator, Random, select_backend}

counter_lt : (n s : ℕ) → 0 < n → s % n < n
counter_lt n s h = omega arith

abbrev counter : Generator
counter = record { Rand = ℕ; intn = λ n s. (s % n, s + 1); intn_lt = counter_lt }

abbrev two : Random counter
two = record {
  backends =
      record { address = "a:80"; healthy = true; weight = pos 1; connections = pos 0 }
      ∷ record { address = "b:80"; healthy = true; weight = pos 1; connections = pos 0 }
      ∷ [];
  rand = 7;
}

draws : (select_backend counter two).1 ≡ selected "b:80"
unfolding select_backend
draws = refl
