-- ===== src/Ketama/Balancer/Agreement.antt =====
-- pkg/ketama/ketama.go, type KetamaBalancer: what a history of calls leaves.
use pin_go.Base.{
  ℕ, ◌<◌, String, str_eq, eq_iff, eq_refl, ◌≡◌, refl, sym, ap, ◌∙◌, Bool, true, false, not, ◌&&◌,
  ◌||◌, List, [], ◌∷◌, Option, Option-cases, none, some, All, pos_part, ℤ, Bool-cases, inl, inr,
  arith,
}
use pin_go.Ketama.Sorting.{SortPackage}
use pin_go.Ketama.Ring.{Ring, new_ring, find, add_node}
use pin_go.Ketama.Ring.Addition.{get_node-same}
use pin_go.Ketama.Several.{seen_in}
use pin_go.Ketama.Balancer.{Event, adds, removes, updates, step, run}
use pin_go.Ketama.Balancer.Contents.{
  Apart, Holds, Holds-same, new_ring-Holds, add_node-Holds, remove_node-Holds,
}
use pin_go.Ketama.Balancer.{
  or_160, add_nodes, new_ketama_balancer, select_backend, get_all_backends,
}
use pin_go.Ketama.Balancer.Updating.{listed, with_one, update_backends-Held}

-- The set of backends after one more call.
abbrev pub after_event : (String → Bool) → Event → String → Bool
after_event set (adds backend) w = str_eq backend w || set w
after_event set (removes backend) w = set w && not (str_eq backend w)
after_event set (updates backends) w = seen_in w backends

-- The set after a history of calls.
unfoldable pub current : (String → Bool) → List Event → String → Bool
current set [] = set
current set (e ∷ es) = current (after_event set e) es

-- The backends that a call names are of a set.
abbrev pub Names : (String → Bool) → Event → Type 0
Names all (adds backend) = all backend ≡ true
Names all (removes backend) = all backend ≡ true
Names all (updates backends) = (w : String) → seen_in w backends ≡ true → all w ≡ true

module _ (go : SortPackage) (digest : String → ℕ → ℕ) (decimal : ℕ → String)
    (sort_strings order : List String → List String)
    (sort_keeps : (w : String) (xs : List String) → seen_in w (sort_strings xs) ≡ seen_in w xs)
    (order_keeps : (w : String) (xs : List String) → seen_in w (order xs) ≡ seen_in w xs)
    (replicas : ℤ) (all : String → Bool)
    (apart : Apart go digest decimal (or_160 replicas) all) where
  some_replica : 0 < pos_part (or_160 replicas)
  some_replica = ground arith

  abbrev Held : (String → Bool) → Ring → Type 0
  Held = Holds go digest decimal (or_160 replicas)

  abbrev Within : (String → Bool) → Type 0
  Within set = (w : String) → set w ≡ true → all w ≡ true

  separate :
      (set : String → Bool) (b : String)
      → Within set
      → all b ≡ true
      → Apart go digest decimal (or_160 replicas) (λ x. str_eq b x || set x)
  separate =
      with_one go digest decimal sort_strings order (or_160 replicas) some_replica sort_keeps
        order_keeps all apart

  joined :
      (set : String → Bool) (b : String)
      → Within set
      → all b ≡ true
      → Within (λ x. str_eq b x || set x)
  joined set b h n w p = elim (Bool-cases (str_eq b w)) [
    | inl u ↦ sym (ap all ((eq_iff b w).0 u)) ∙ n
    | inr u ↦ h w (ground arith)
  ]

  step-Held :
      (set : String → Bool) (r : Ring) (e : Event)
      → Within set
      → Names all e
      → Held set r
      → Held (after_event set e) (step go digest decimal sort_strings order r e)
        × Within (after_event set e)
  unfolding step
  step-Held set r (adds b) h n x = (
    add_node-Holds go digest decimal (or_160 replicas) set r b (separate set b h n) x,
    joined set b h n,
  )
  step-Held set r (removes b) h n x = (
    remove_node-Holds go digest decimal (or_160 replicas) set r b (separate set b h n) x,
    λ w p. h w (ground (arith, p)),
  )
  step-Held set r (updates bs) h n x = (
    update_backends-Held go digest decimal sort_strings order (or_160 replicas) some_replica
        sort_keeps order_keeps all apart set r bs h n x,
    n,
  )

  run-Held :
      (set : String → Bool) (r : Ring) (es : List Event)
      → Within set
      → All (Names all) es
      → Held set r
      → Held (current set es) (run go digest decimal sort_strings order r es)
  unfolding run current
  run-Held set r [] h n x = x
  run-Held set r (e ∷ es) h n x =
      let (held, within) = step-Held set r e h n.0 x in
      run-Held (after_event set e) (step go digest decimal sort_strings order r e) es within n.1
        held

  add_nodes-Held :
      (set : String → Bool) (r : Ring) (ns : List String)
      → Within set
      → ((w : String) → seen_in w ns ≡ true → all w ≡ true)
      → Held set r
      → Held (λ w. set w || seen_in w ns) (add_nodes go digest decimal sort_strings order r ns)
  unfolding add_nodes seen_in step
  add_nodes-Held set r [] h n x =
      Holds-same go digest decimal (or_160 replicas) set (λ w. set w || false) r (λ w. ground arith)
        x
  add_nodes-Held set r (b ∷ bs) h n x =
      let one : all b ≡ true = n b (ground (arith, eq_refl b)) in
      let (held, within) = step-Held set r (adds b) h one x in
      Holds-same go digest decimal (or_160 replicas) (λ w. (str_eq b w || set w) || seen_in w bs)
        (λ w. set w || (str_eq b w || seen_in w bs)) _ (λ w. ground arith)
        (add_nodes-Held (λ w. str_eq b w || set w) (add_node go digest decimal r b) bs within
          (λ w p. n w (ground (arith, p))) held)

  -- The balancer after a history that starts with a list of nodes.
  abbrev pub after_calls : List String → List Event → Ring
  after_calls ns es =
      run go digest decimal sort_strings order
        (new_ketama_balancer go digest decimal sort_strings order ns replicas) es

  abbrev pub backends_after : List String → List Event → String → Bool
  backends_after ns es = current (λ w. seen_in w ns) es

  after_calls-Held :
      (ns : List String) (es : List Event)
      → ((w : String) → seen_in w ns ≡ true → all w ≡ true)
      → All (Names all) es
      → Held (backends_after ns es) (after_calls ns es)
  unfolding new_ketama_balancer
  after_calls-Held ns es h n =
      run-Held (λ w. seen_in w ns) _ es h n
        (Holds-same go digest decimal (or_160 replicas) (λ w. false || seen_in w ns)
          (λ w. seen_in w ns) _ (λ w. refl)
          (add_nodes-Held (λ w. false) (new_ring (or_160 replicas)) ns (λ w p. cc) h
            (new_ring-Holds go digest decimal (or_160 replicas))))

  Holds-find :
      (set other : String → Bool) (r s : Ring) (k : ℕ) (o : Option String)
      → ((w : String) → set w ≡ other w)
      → Held set r
      → Held other s
      → find k r.nodes ≡ o
      → find k s.nodes ≡ o
  Holds-find set other r s k (some w) h x y e =
      let (there, back) = y.contents k w in
      let p = (x.contents k w).0 e in back (sym (h w) ∙ p.0, p.1)
  Holds-find set other r s k none h x y e = elim (Option-cases (find k s.nodes)) [
    | inl f ↦ f
    | inr (w, f) ↦
        let p = (y.contents k w).0 f in
        let q : find k r.nodes ≡ some w = (x.contents k w).1 (h w ∙ p.0, p.1) in cc (sym e ∙ q)
  ]

  -- Two histories of balancers with the same number of replicas, of any calls of AddBackend,
  -- RemoveBackend and UpdateBackends from any first lists, that leave the same set of backends give
  -- the same answer to every key, and GetAllBackends lists that set, if no two of the backends that
  -- they name share a point; sort.Strings and the order of a range keep the members of a list.
  pub select_backend-agrees :
      (ns ms : List String) (es fs : List Event) (key : String)
      → ((w : String) → seen_in w ns ≡ true → all w ≡ true)
      → ((w : String) → seen_in w ms ≡ true → all w ≡ true)
      → All (Names all) es
      → All (Names all) fs
      → ((w : String) → backends_after ns es w ≡ backends_after ms fs w)
      → (select_backend go digest decimal sort_strings order (after_calls ns es) key
          ≡ select_backend go digest decimal sort_strings order (after_calls ms fs) key)
        × ((w : String)
            → seen_in w (get_all_backends go digest decimal sort_strings order (after_calls ns es))
              ≡ backends_after ns es w)
  select_backend-agrees ns ms es fs key h g n m same =
      let r = after_calls ns es in
      let s = after_calls ms fs in
      let x = after_calls-Held ns es h n in
      let y = after_calls-Held ms fs g m in
      (
        get_node-same go digest decimal r s key x.valid y.valid (λ k. sym (
            Holds-find (backends_after ns es) (backends_after ms fs) r s k (find k r.nodes) same x y
              refl)),
        λ w.
            listed go digest decimal sort_strings order (or_160 replicas) some_replica sort_keeps
              order_keeps (backends_after ns es) r w x,
      )
