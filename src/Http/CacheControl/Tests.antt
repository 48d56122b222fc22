-- ===== src/Http/CacheControl/Tests.antt =====
-- pkg/http/headers.go, type CacheControl, at concrete inputs.
use pin_go.Base.{
  ℕ, ◌+◌, ◌≡◌, refl, true, ◌&&◌, some, pos, ◌*ℤ◌, quot, int64, leb, arith, if◌then◌else◌,
}
use pin_go.Base.Bytes.{codes, split, split_once, join, trim_space, atoi, itoa}
use pin_go.Http.CacheControl.{CacheControl, empty, parse_cache_control, cache_control_text}
use pin_go.Http.CacheControl.Printing.{plain, whole_age, parse_cache_control-cache_control_text}

program : Unit {0}
unfolding parse_cache_control cache_control_text split split_once join trim_space atoi itoa quot
    int64 ◌*ℤ◌
program = tt

abbrev lower : ℕ → ℕ
lower c = if leb 65 c && leb c 90 then c + 32 else c

parses :
    parse_cache_control lower (codes "No-Cache , max-age=60,other")
    ≡ record empty { no_cache = true; max_age = some (pos 60_000_000_000) }
unfolding program
parses = refl

abbrev control : CacheControl
control = record empty {
  public = true;
  must_revalidate = true;
  max_age = some (pos 90_500_000_000);
}

prints : cache_control_text control ≡ codes "public, must-revalidate, max-age=90"
unfolding program
prints = refl

lower-plain : (c : ℕ) → plain lower c ≡ true → lower c ≡ c
lower-plain c h = ground arith

parse_cache_control-cache_control_text_example :
    parse_cache_control lower (cache_control_text control)
    ≡ record control { max_age = whole_age control.max_age }
parse_cache_control-cache_control_text_example =
    parse_cache_control-cache_control_text lower lower-plain control (omega arith)
