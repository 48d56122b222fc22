-- ===== src/Http/Version.antt =====
-- pkg/http/headers.go, type HTTPVersion. The text of an error of strconv.Atoi is a parameter.
mod Printing
mod Tests
use pin_go.Base.{ℕ, String, List, [], ◌∷◌, ◌++◌, Option, none, some, ℤ, pos}
use pin_go.Base.Bytes.{Text, codes, strip_prefix, split, atoi, itoa}
use pin_go.Errors.{Error, foreign, invalid_http_header, new, new_with_cause}

pub record HttpVersion : Type 0 where
  pub major : ℤ
  pub minor : ℤ

abbrev pub http10 : HttpVersion
http10 = record { major = pos 1; minor = pos 0 }

abbrev pub http11 : HttpVersion
http11 = record { major = pos 1; minor = pos 1 }

abbrev pub http2 : HttpVersion
http2 = record { major = pos 2; minor = pos 0 }

-- `HTTPVersion.String`.
unfoldable pub version_text : HttpVersion → Text
unfolding itoa
version_text v = codes "HTTP/" ++ (itoa v.major ++ (b'.' ∷ itoa v.minor))

pub data Parsed : Type 0 where
  version : HttpVersion → Parsed
  failed : Error → Parsed

abbrev pub bad_format : Error
bad_format = new invalid_http_header "invalid HTTP version format"

module _ (atoi_error : Text → String) where
  abbrev pub bad_number : String → Text → Error
  bad_number message text = new_with_cause invalid_http_header message (foreign (atoi_error text))

  parse_minor : ℤ → Text → Option ℤ → Parsed
  parse_minor major text none = failed (bad_number "invalid minor version" text)
  parse_minor major text (some minor) = version (record { major = major; minor = minor })

  parse_major : Text → Text → Option ℤ → Parsed
  unfolding parse_minor
  parse_major first second none = failed (bad_number "invalid major version" first)
  parse_major first second (some major) = parse_minor major second (atoi second)

  -- The parts around the points.
  parse_parts : List Text → Parsed
  unfolding parse_major
  parse_parts [] = failed bad_format
  parse_parts (first ∷ []) = failed bad_format
  parse_parts (first ∷ second ∷ []) = parse_major first second (atoi first)
  parse_parts (first ∷ second ∷ third ∷ more) = failed bad_format

  parse_rest : Option Text → Parsed
  unfolding parse_parts split
  parse_rest none = failed bad_format
  parse_rest (some part) = parse_parts (split b'.' part)

  unfoldable pub parse_http_version : Text → Parsed
  unfolding parse_rest strip_prefix
  parse_http_version text = parse_rest (strip_prefix (codes "HTTP/") text)
