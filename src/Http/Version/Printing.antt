-- ===== src/Http/Version/Printing.antt =====
-- pkg/http/headers.go, type HTTPVersion: printing and parsing.
use pin_go.Base.{suc, String, ◌≡◌, refl, [], ◌∷◌, ℤ, pos, negsuc, IsInt64, arith}
use pin_go.Base.Bytes.{Text, strip_prefix, itoa}
use pin_go.Base.Decimal.{decimal_from-Digits, Digits, atoi-itoa}
use pin_go.Base.Splitting.{Free, split-Free, split-append}
use pin_go.Http.Version.{
  HttpVersion, version_text, version, parse_http_version, parse_rest, parse_parts, parse_major,
  parse_minor,
}

Digits-Free : (s : Text) → Digits s → Free b'.' s
Digits-Free [] d = tt
Digits-Free (c ∷ s) d = (ground (arith, d.0), Digits-Free s d.1)

itoa-Free : (a : ℤ) → Free b'.' (itoa a)
unfolding itoa
itoa-Free (pos n) = Digits-Free _ (decimal_from-Digits (suc n) n)
itoa-Free (negsuc n) = (refl, Digits-Free _ (decimal_from-Digits (suc (suc n)) (suc n)))

-- ParseHTTPVersion reads back every version that String prints, whatever its numbers in the range of
-- an int are.
pub parse_http_version-version_text :
    (atoi_error : Text → String) (v : HttpVersion)
    → IsInt64 v.major
    → IsInt64 v.minor
    → parse_http_version atoi_error (version_text v) ≡ version v
unfolding version_text parse_http_version strip_prefix parse_rest parse_parts parse_major
    parse_minor
parse_http_version-version_text atoi_error v h k =
    rw
      (
        split-append b'.' (itoa v.major) (itoa v.minor) (itoa-Free v.major),
        split-Free b'.' (itoa v.minor) (itoa-Free v.minor),
        atoi-itoa v.major h,
        atoi-itoa v.minor k,
      )
      refl
