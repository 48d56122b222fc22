-- ===== src/Cache/Tiered/Freshness.antt =====
-- pkg/cache/cache.go, type TieredCache: the laws of the interface.
use pin_go.Base.{
  ℕ, String, ◌≡◌, ◌≢◌, ◌⊎◌, inl, inr, refl, sym, ◌∙◌, List, Option, none, some, Duration,
}
use pin_go.Errors.{Error}
use pin_go.Cache.Memory.{Reply, found, failed}
use pin_go.Cache.Contract.{Cache}
use pin_go.Cache.Tiered.{
  Tiered, promote, after_l1, get, set_l2, set, delete_key, clear, stats, hour,
}

Reply-cases : (r : Reply) → ((v : List ℕ) × (r ≡ found v)) ⊎ ((e : Error) × (r ≡ failed e))
Reply-cases (found v) = inl (v, refl)
Reply-cases (failed e) = inr (e, refl)

moved :
    (c : Cache) (s : c.Store) {k j : String} {v w : List ℕ}
    → k ≡ j
    → v ≡ w
    → c.Holds s k v
    → c.Holds s j w
moved c s e f h = rw (← e, ← f) h

module _ (c1 c2 : Cache) where
  -- What one of the levels holds.
  abbrev pub Holds : Tiered c1 c2 → String → List ℕ → Type 0
  Holds t k v = c1.Holds t.l1 k v ⊎ c2.Holds t.l2 k v

  pub get_found :
      (t : Tiered c1 c2) (k : String) (v : List ℕ) → (get c1 c2 t k).1 ≡ found v → Holds t k v
  unfolding get after_l1 promote
  get_found t k v h = elim (Reply-cases (c1.get t.l1 k).1) [
    | inl (w, e) ↦ inl (c1.get_found t.l1 k v (e ∙ (rw e at h)))
    | inr (x, e) ↦ elim (Reply-cases (c2.get t.l2 k).1) [
      | inl (w, e2) ↦ inr (c2.get_found t.l2 k v (e2 ∙ (rw (e, e2) at h)))
      | inr (y, e2) ↦ cc (rw (e, e2) at h)
    ]
  ]

  promote_only :
      (t : Tiered c1 c2) (k j : String) (v : List ℕ) (r : c2.Store × Reply)
      → ((w : List ℕ) → r.1 ≡ found w → c2.Holds t.l2 k w)
      → (c2.Holds r.0 j v → c2.Holds t.l2 j v)
      → Holds (promote c1 c2 t k r).0 j v
      → Holds t j v
  unfolding promote
  promote_only t k j v (l2, found w) from keeps (inl h) = elim (c1.set_only t.l1 k w hour j v h) [
    | inl (same, e) ↦ inr (moved c2 t.l2 same (sym e) (from w refl))
    | inr old ↦ inl old
  ]
  promote_only t k j v (l2, found w) from keeps (inr h) = inr (keeps h)
  promote_only t k j v (l2, failed e) from keeps (inl h) = inl h
  promote_only t k j v (l2, failed e) from keeps (inr h) = inr (keeps h)

  after_l1_only :
      (t : Tiered c1 c2) (k j : String) (v : List ℕ) (r : c1.Store × Reply)
      → (c1.Holds r.0 j v → c1.Holds t.l1 j v)
      → Holds (after_l1 c1 c2 t k r).0 j v
      → Holds t j v
  unfolding after_l1
  after_l1_only t k j v (l1, found w) keeps (inl h) = inl (keeps h)
  after_l1_only t k j v (l1, found w) keeps (inr h) = inr h
  after_l1_only t k j v (l1, failed e) keeps h =
      elim (promote_only (record t { l1 = l1 }) k j v (c2.get t.l2 k) (c2.get_found t.l2 k)
        (c2.get_only t.l2 k j v) h) [ inl old ↦ inl (keeps old) | inr old ↦ inr old ]

  pub get_only :
      (t : Tiered c1 c2) (k j : String) (v : List ℕ) → Holds (get c1 c2 t k).0 j v → Holds t j v
  unfolding get
  get_only t k j v h = after_l1_only t k j v (c1.get t.l1 k) (c1.get_only t.l1 k j v) h

  set_l2_only :
      (t : Tiered c1 c2) (k : String) (v : List ℕ) (ttl : Duration) (o : Option Error) (j : String)
      (w : List ℕ)
      → Holds (set_l2 c1 c2 t k v ttl o).0 j w
      → c1.Holds t.l1 j w ⊎ ((k ≡ j) × (w ≡ v) ⊎ c2.Holds t.l2 j w)
  unfolding set_l2
  set_l2_only t k v ttl none j w (inl h) = inl h
  set_l2_only t k v ttl none j w (inr h) = inr (c2.set_only t.l2 k v ttl j w h)
  set_l2_only t k v ttl (some e) j w (inl h) = inl h
  set_l2_only t k v ttl (some e) j w (inr h) = inr (inr h)

  pub set_only :
      (t : Tiered c1 c2) (k : String) (v : List ℕ) (ttl : Duration) (j : String) (w : List ℕ)
      → Holds (set c1 c2 t k v ttl).0 j w
      → (k ≡ j) × (w ≡ v) ⊎ Holds t j w
  unfolding set
  set_only t k v ttl j w h =
      let (l1, e) = c1.set t.l1 k v ttl in
      elim (set_l2_only (record t { l1 = l1 }) k v ttl e j w h) [
        | inl first ↦ elim (c1.set_only t.l1 k v ttl j w first) [
          | inl new ↦ inl new
          | inr old ↦ inr (inl old)
        ]
        | inr (inl new) ↦ inl new
        | inr (inr old) ↦ inr (inr old)
      ]

  set_l2_fresh :
      (t : Tiered c1 c2) (k : String) (v : List ℕ) (ttl : Duration) (o : Option Error) (w : List ℕ)
      → (o ≡ none → c1.Holds t.l1 k w → w ≡ v)
      → (set_l2 c1 c2 t k v ttl o).1 ≡ none
      → Holds (set_l2 c1 c2 t k v ttl o).0 k w
      → w ≡ v
  unfolding set_l2
  set_l2_fresh t k v ttl none w first e (inl h) = first refl h
  set_l2_fresh t k v ttl none w first e (inr h) = c2.set_fresh t.l2 k v ttl w e h
  set_l2_fresh t k v ttl (some x) w first e h = cc

  pub set_fresh :
      (t : Tiered c1 c2) (k : String) (v : List ℕ) (ttl : Duration) (w : List ℕ)
      → (set c1 c2 t k v ttl).1 ≡ none
      → Holds (set c1 c2 t k v ttl).0 k w
      → w ≡ v
  unfolding set
  set_fresh t k v ttl w e h =
      let (l1, error) = c1.set t.l1 k v ttl in
      set_l2_fresh (record t { l1 = l1 }) k v ttl error w (c1.set_fresh t.l1 k v ttl w) e h

  pub delete_only :
      (t : Tiered c1 c2) (k j : String) (v : List ℕ)
      → Holds (delete_key c1 c2 t k).0 j v
      → Holds t j v
  unfolding delete_key
  delete_only t k j v (inl h) = inl (c1.delete_only t.l1 k j v h)
  delete_only t k j v (inr h) = inr (c2.delete_only t.l2 k j v h)

  pub delete_gone :
      (t : Tiered c1 c2) (k : String) (v : List ℕ) → Holds (delete_key c1 c2 t k).0 k v → ⊥
  unfolding delete_key
  delete_gone t k v (inl h) = c1.delete_gone t.l1 k v h
  delete_gone t k v (inr h) = c2.delete_gone t.l2 k v h

  pub clear_gone : (t : Tiered c1 c2) (j : String) (v : List ℕ) → Holds (clear c1 c2 t).0 j v → ⊥
  unfolding clear
  clear_gone t j v (inl h) = c1.clear_gone t.l1 j v h
  clear_gone t j v (inr h) = c2.clear_gone t.l2 j v h

  -- A tiered cache of two caches as a cache.
  unfoldable pub tiered : Cache
  tiered = record {
    Store = Tiered c1 c2;
    get = get c1 c2;
    set = set c1 c2;
    delete_key = delete_key c1 c2;
    clear = clear c1 c2;
    stats = stats c1 c2;
    Holds = Holds;
    get_found = get_found;
    get_only = get_only;
    set_only = set_only;
    set_fresh = set_fresh;
    delete_only = delete_only;
    delete_gone = delete_gone;
    clear_gone = clear_gone;
  }

  -- After a Set that returns nil, a Get of the key that finds a value finds the one that was set,
  -- whichever level answers and whatever the levels have lost or held before.
  pub get-set_tiered :
      (t : Tiered c1 c2) (k : String) (v : List ℕ) (ttl : Duration) (w : List ℕ)
      → (set c1 c2 t k v ttl).1 ≡ none
      → (get c1 c2 (set c1 c2 t k v ttl).0 k).1 ≡ found w
      → w ≡ v
  get-set_tiered t k v ttl w e h = set_fresh t k v ttl w e (get_found (set c1 c2 t k v ttl).0 k w h)

  -- After a Delete no Get of the key finds a value.
  pub get-delete_key_tiered :
      (t : Tiered c1 c2) (k : String) (w : List ℕ)
      → (get c1 c2 (delete_key c1 c2 t k).0 k).1 ≢ found w
  get-delete_key_tiered t k w h = delete_gone t k w (get_found (delete_key c1 c2 t k).0 k w h)
