-- ===== src/Http/Headers/Values.antt =====
-- pkg/http/headers.go: the values of a name after a change of the headers.
use mathlib.Core.List.{◌++◌ as ◌append◌}
use pin_go.Base.{
  String, str_eq, eq_iff, ◌≡◌, refl, ap, ◌∙◌, Bool, true, false, [], ◌∷◌, Option, none, some,
  Bool-cases, inl, inr, if◌then◌else◌,
}
use pin_go.Base.Dict.{Entries, lookup, Distinct, lookup-insert, lookup-delete}
use pin_go.Http.Headers.{Values, or_empty, add, assign, del}

module _ (canonical : String → String) where
  -- All values of a name, which has the same ones in every spelling.
  abbrev pub values : Entries Values → String → Values
  values h name = or_empty (lookup (canonical name) h)

  abbrev pub same_name : String → String → Bool
  same_name a b = str_eq (canonical a) (canonical b)

  or_empty-if :
      (b : Bool) (x : Option Values) (y : Option Values)
      → or_empty (if b then x else y) ≡ (if b then or_empty x else or_empty y)
  or_empty-if true x y = refl
  or_empty-if false x y = refl

  pub values-assign :
      (h : Entries Values) (name value other : String)
      → values (assign canonical h name value) other
        ≡ (if same_name name other then value ∷ [] else values h other)
  unfolding assign
  values-assign h name value other =
      ap or_empty (lookup-insert (canonical name) (canonical other) (value ∷ []) h)
      ∙ or_empty-if (same_name name other) (some (value ∷ [])) (lookup (canonical other) h)

  pub values-add :
      (h : Entries Values) (name value other : String)
      → values (add canonical h name value) other
        ≡ (if same_name name other then values h other append (value ∷ []) else values h other)
  unfolding add
  values-add h name value other =
      ap or_empty
        (lookup-insert (canonical name) (canonical other) (values h name append (value ∷ [])) h)
      ∙ elim (Bool-cases (same_name name other)) [
        | inl t ↦
            let same : canonical name ≡ canonical other =
              (eq_iff (canonical name) (canonical other)).0 t in
            rw t (ap (λ k. or_empty (lookup k h) append (value ∷ [])) same)
        | inr t ↦ rw t refl
      ]

  pub values-del :
      (h : Entries Values) (name other : String)
      → Distinct h
      → values (del canonical h name) other ≡ (if same_name name other then [] else values h other)
  unfolding del
  values-del h name other d =
      ap or_empty (lookup-delete (canonical name) (canonical other) h d)
      ∙ or_empty-if (same_name name other) none (lookup (canonical other) h)
