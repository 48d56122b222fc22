-- ===== src/Cache/Keys/Tests.antt =====
-- pkg/cache/cache.go, type CacheKey, at concrete inputs.
use pin_go.Base.{String, ◌≡◌, refl, [], ◌∷◌}
use pin_go.Base.Dict.{Entries, RangeOrder}
use pin_go.Cache.Keys.{written_headers, new_cache_key, cache_key_text}
use pin_go.Cache.Keys.Collisions.{cache_key_text-collides}

-- In place of the digest, the text that is written to it.
abbrev same : String → String
same x = x

abbrev in_order : RangeOrder String
in_order = record { range = λ m. m; lookup-range = λ k m. refl; range-Distinct = λ m d. d }

text :
    cache_key_text same in_order (new_cache_key "GET" "/a" (("Accept", "x") ∷ [])) ≡ "GET/aAcceptx"
unfolding cache_key_text new_cache_key
text = refl

-- The order of the loop of another call.
abbrev turned : Entries String → Entries String
turned (a ∷ b ∷ []) = b ∷ a ∷ []
turned m = m

-- One request, and two texts.
two_orders :
    (written_headers (turned (("A", "x") ∷ ("B", "y") ∷ [])) ≡ "ByAx")
    × (written_headers (("A", "x") ∷ ("B", "y") ∷ []) ≡ "AxBy")
unfolding written_headers
two_orders = (refl, refl)

cache_key_text-collides_example :
    (cache_key_text same in_order (new_cache_key "GET/a" "/b" [])
      ≡ cache_key_text same in_order (new_cache_key "GET" "/a/b" []))
    × (cache_key_text same in_order (new_cache_key "GET/a" "/b" (("Accept", "x") ∷ []))
        ≡ cache_key_text same in_order (new_cache_key "GET" "/a/b" (("Accept", "x") ∷ [])))
    × (cache_key_text same in_order (new_cache_key "GET" "/b" (("Accept", "x") ∷ []))
        ≡ cache_key_text same in_order (new_cache_key "GET" "/bAcceptx" []))
cache_key_text-collides_example =
    cache_key_text-collides same in_order in_order "GET" "/a" "/b" "Accept" "x" [] refl
