-- ===== src/Http/Version/Tests.antt =====
-- pkg/http/headers.go, type HTTPVersion, at concrete inputs.
use pin_go.Base.{String, ◌≡◌, refl, pos, negsuc, arith}
use pin_go.Base.Bytes.{Text, codes, atoi, itoa, strip_prefix, split}
use pin_go.Errors.{new, new_with_cause}
use pin_go.Http.Version.{
  http11, HttpVersion, version_text, version, failed, bad_format, bad_number, parse_http_version,
}
use pin_go.Http.Version.Printing.{parse_http_version-version_text}

program : Unit {0}
unfolding parse_http_version version_text itoa atoi strip_prefix split new new_with_cause
program = tt

abbrev same_error : Text → String
same_error text = "invalid syntax"

parses : parse_http_version same_error (codes "HTTP/1.1") ≡ version http11
unfolding program
parses = refl

wants_two_parts : parse_http_version same_error (codes "HTTP/2") ≡ failed bad_format
unfolding program
wants_two_parts = refl

wants_numbers :
    parse_http_version same_error (codes "HTTP/1.x")
    ≡ failed (bad_number same_error "invalid minor version" (codes "x"))
unfolding program
wants_numbers = refl

abbrev odd : HttpVersion
odd = record { major = pos 307; minor = negsuc 4 }

parse_http_version-version_text_example :
    parse_http_version same_error (version_text odd) ≡ version odd
parse_http_version-version_text_example =
    parse_http_version-version_text same_error odd (omega arith) (omega arith)
