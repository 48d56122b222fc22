-- ===== src/LoadBalancing/LeastConnection/Least.antt =====
-- pkg/loadbalancing/balancer.go, type LeastConnectionBalancer: which backend SelectBackend takes.
use native.Mathlib.Nat.{add-zero}
use pin_go.Base.{
  ℕ, suc, ◌+◌, ◌≡◌, refl, ap, ◌∙◌, inl, inr, ◌⊎◌, true, false, List, [], ◌∷◌, ◌++◌, Option, none,
  some, length, get_elem?, All, Bool-cases, ℤ, pos, negsuc, ◌≤ℤ◌, ◌<ℤ◌, arith,
}
use pin_go.LoadBalancing.Backends.{Backend, get_healthy_backends, increment_connections, no_healthy}
use pin_go.LoadBalancing.Contract.{selected, failed}
use pin_go.LoadBalancing.LeastConnection.{
  LeastConnection, is_better, scan, increment_healthy, finish, choose, select_backend,
}

-- The backends of `bs` split at `b`, the first that has the fewest connections.
pub record Least (bs : List Backend) : Type 0 where
  pub before : List Backend
  pub least : Backend
  pub behind : List Backend
  pub split : bs ≡ before ++ least ∷ behind
  pub fewer : All (λ c. least.connections <ℤ c.connections) before
  pub no_more : All (λ c. least.connections ≤ℤ c.connections) behind

abbrev Counted : List Backend → Type 0
Counted = All λ b. pos 0 ≤ℤ b.connections

-- The loop from a minimum `m` that is not -1: either it finds none below `m`, or the first least.
Scanned : List Backend → ℕ → ℤ → Option ℕ → Type 0
Scanned bs i m chosen =
    (All (λ c. m ≤ℤ c.connections) bs × (scan bs i m chosen ≡ chosen))
    ⊎ ((l : Least bs) × (l.least.connections <ℤ m)
        × (scan bs i m chosen ≡ some (i + length l.before)))

better_lt : (b : Backend) (m : ℤ) → pos 0 ≤ℤ m → is_better b m ≡ true → b.connections <ℤ m
unfolding is_better
better_lt b m h t = ground arith

not_better : (b : Backend) (m : ℤ) → is_better b m ≡ false → m ≤ℤ b.connections
unfolding is_better
not_better b m t = ground arith

-- One more backend before the split.
later :
    {bs : List Backend} (b : Backend) (l : Least bs)
    → l.least.connections <ℤ b.connections
    → Least (b ∷ bs)
later b l low = record {
  before = b ∷ l.before;
  least = l.least;
  behind = l.behind;
  split = ap (◌∷◌ b) l.split;
  fewer = (low, l.fewer);
  no_more = l.no_more;
}

next_index : (i n : ℕ) → some (suc i + n) ≡ some (i + suc n)
next_index i n = ap some (let e : suc i + n ≡ i + suc n = omega arith in e)

first_least :
    (b : Backend) (bs : List Backend)
    → All (λ c. b.connections ≤ℤ c.connections) bs
    → Least (b ∷ bs)
first_least b bs all = record {
  before = [];
  least = b;
  behind = bs;
  split = refl;
  fewer = tt;
  no_more = all;
}

scan_lem :
    (bs : List Backend) (i : ℕ) (m : ℤ) (chosen : Option ℕ)
    → pos 0 ≤ℤ m
    → Counted bs
    → Scanned bs i m chosen
unfolding scan Scanned later first_least
scan_lem [] i m chosen h c = inl (tt, refl)
scan_lem (b ∷ bs) i m chosen h c = elim (Bool-cases (is_better b m)) [
  | inl t ↦
      let lt = better_lt b m h t in
      elim (scan_lem bs (suc i) b.connections (some i) c.0 c.1) [
        | inl (all, e) ↦ inr (first_least b bs all, lt, rw (t, add-zero) e)
        | inr (l, low, e) ↦
            inr (later b l low, omega (arith, low, lt), rw t (e ∙ next_index i (length l.before)))
      ]
  | inr t ↦
      let le = not_better b m t in
      elim (scan_lem bs (suc i) m chosen h c.1) [
        | inl (all, e) ↦ inl ((le, all), rw t e)
        | inr (l, low, e) ↦
            inr (later b l (omega (arith, low, le)), low, rw t (e ∙ next_index i (length l.before)))
      ]
]

-- The whole loop on a list that is not empty.
scan_first :
    (b : Backend) (bs : List Backend)
    → Counted (b ∷ bs)
    → (l : Least (b ∷ bs)) × (scan (b ∷ bs) 0 (negsuc 0) none ≡ some (length l.before))
unfolding scan Scanned is_better later first_least
scan_first b bs c = elim (scan_lem bs 1 b.connections (some 0) c.0 c.1) [
  | inl (all, e) ↦ (first_least b bs all, e)
  | inr (l, low, e) ↦ (
    later b l low,
    e
        ∙ next_index 0 (length l.before)
        ∙ ap some (let z : 0 + suc (length l.before) ≡ suc (length l.before) = omega arith in z),
  )
]

get_elem?-middle :
    (xs : List Backend) (b : Backend) (ys : List Backend)
    → get_elem? (xs ++ b ∷ ys) (length xs) ≡ some b
get_elem?-middle [] b ys = refl
get_elem?-middle (x ∷ xs) b ys = get_elem?-middle xs b ys

found_least : (bs : List Backend) (at : Least bs) → get_elem? bs (length at.before) ≡ some at.least
found_least bs at =
    ap (λ xs. get_elem? xs (length at.before)) at.split
    ∙ get_elem?-middle at.before at.least at.behind

-- The pointer reaches the backend that the list of healthy ones has at that place.
healthy-increment :
    (bs xs : List Backend) (b : Backend) (ys : List Backend)
    → get_healthy_backends bs ≡ xs ++ b ∷ ys
    → get_healthy_backends (increment_healthy (length xs) bs) ≡ xs ++ increment_connections b ∷ ys
unfolding increment_healthy
healthy-increment [] [] b ys e = cc
healthy-increment [] (x ∷ xs) b ys e = cc
healthy-increment (c ∷ bs) [] b ys e = ground (arith, healthy-increment bs [] b ys)
healthy-increment (c ∷ bs) (x ∷ xs) b ys e =
    ground (arith, healthy-increment bs xs b ys, healthy-increment bs (x ∷ xs) b ys)

-- What SelectBackend does where the healthy backends split at the least one.
pub record Takes (l : LeastConnection) : Type 0 where
  pub at : Least (get_healthy_backends l.backends)
  pub answer : (select_backend l).1 ≡ selected at.least.address
  pub counted :
      get_healthy_backends (select_backend l).0.backends
      ≡ at.before ++ increment_connections at.least ∷ at.behind

choose-Takes :
    (l : LeastConnection) (bs : List Backend)
    → get_healthy_backends l.backends ≡ bs
    → Counted bs
    → ((bs ≡ []) × (choose l bs ≡ (l, failed no_healthy)))
      ⊎ ((at : Least bs) × ((choose l bs).1 ≡ selected at.least.address)
          × (get_healthy_backends (choose l bs).0.backends
              ≡ at.before ++ increment_connections at.least ∷ at.behind))
unfolding choose finish
choose-Takes l [] e c = inl (refl, refl)
choose-Takes l (b ∷ bs) e c =
    let (at, found) = scan_first b bs c in
    inr (
      at,
      rw (found, finish) (rw (found_least (b ∷ bs) at)),
      rw (found, finish) (healthy-increment l.backends at.before at.least at.behind (e ∙ at.split)),
    )

-- Where no count of connections is negative, SelectBackend answers with the first of the healthy
-- backends that have the fewest connections and counts one more for it, and leaves the counts of
-- the other healthy ones. Without a healthy backend it returns an error and changes nothing.
pub select_backend-Takes :
    (l : LeastConnection)
    → All (λ b. pos 0 ≤ℤ b.connections) (get_healthy_backends l.backends)
    → ((get_healthy_backends l.backends ≡ []) × (select_backend l ≡ (l, failed no_healthy)))
      ⊎ Takes l
unfolding select_backend
select_backend-Takes l c = elim (choose-Takes l (get_healthy_backends l.backends) refl c) [
  | inl r ↦ inl r
  | inr (at, answer, counted) ↦ inr (record { at = at; answer = answer; counted = counted })
]
