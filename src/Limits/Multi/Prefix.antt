-- ===== src/Limits/Multi/Prefix.antt =====
-- pkg/limits/limiter.go, type MultiLimiter: which limiters a request has charged when it returns.
use pin_go.Base.{
  ◌≡◌, refl, ap, ◌⊎◌, inl, inr, true, false, List, [], ◌∷◌, ◌++◌, map, ℤ, All, Bool-cases,
}
use pin_go.Limits.Multi.{RateLimiter, allow_n}

module _ (api : RateLimiter) (n : ℤ) where
  open api use {Limiter}

  -- The limiter after it was asked for `n`.
  abbrev pub asked : Limiter → Limiter
  asked l = (api.allow_n l n).0

  abbrev pub Grants : Limiter → Type 0
  Grants l = (api.allow_n l n).1 ≡ true

  -- A refusal of the list: the limiters before the one that refuses have granted and stay charged,
  -- and those behind it were not asked.
  pub record Refusal (ls ls' : List Limiter) : Type 0 where
    pub before : List Limiter
    pub refuser : Limiter
    pub behind : List Limiter
    pub split : ls ≡ before ++ refuser ∷ behind
    pub granted : All Grants before
    pub refused : (api.allow_n refuser n).1 ≡ false
    pub result : ls' ≡ map asked before ++ asked refuser ∷ behind

  -- AllowN grants exactly when every limiter grants, and then has charged them all. When it refuses
  -- it has still charged each limiter before the first one that refuses.
  pub allow_n-Refusal :
      (ls : List Limiter)
      → ((allow_n api ls n).1 ≡ true) × All Grants ls × ((allow_n api ls n).0 ≡ map asked ls)
        ⊎ ((allow_n api ls n).1 ≡ false) × Refusal ls (allow_n api ls n).0
  unfolding allow_n
  allow_n-Refusal [] = inl (refl, tt, refl)
  allow_n-Refusal (l ∷ ls) = elim (Bool-cases (api.allow_n l n).1) [
    | inr no_more ↦ rw no_more (
        inr (
          refl,
          record {
            before = [];
            refuser = l;
            behind = ls;
            split = refl;
            granted = tt;
            refused = no_more;
            result = refl;
          },
        ))
    | inl done ↦ rw done (elim (allow_n-Refusal ls) [
      | inl (e, all, r) ↦ inl (e, (refl, all), ap (◌∷◌ (asked l)) r)
      | inr (e, f) ↦ inr (
        e,
        record {
          before = l ∷ f.before;
          refuser = f.refuser;
          behind = f.behind;
          split = ap (◌∷◌ l) f.split;
          granted = (done, f.granted);
          refused = f.refused;
          result = ap (◌∷◌ (asked l)) f.result;
        },
      )
    ])
  ]
