-- ===== src/Http/CacheControl.antt =====
-- pkg/http/headers.go, type CacheControl. The lower case of one character is a parameter.
mod Printing
mod Tests
use pin_go.Base.{
  ℕ, Bool, true, false, List, [], ◌∷◌, ◌++◌, map, Option, none, some, ℤ, pos, ◌*ℤ◌, int64, Duration,
  second, whole_seconds, if◌then◌else◌,
}
use pin_go.Base.Bytes.{Text, codes, same_text, split, split_once, join, trim_space, atoi, itoa}

pub record CacheControl : Type 0 where
  pub max_age : Option Duration
  pub no_cache : Bool
  pub no_store : Bool
  pub public : Bool
  pub private : Bool
  pub must_revalidate : Bool

abbrev pub empty : CacheControl
empty = record {
  max_age = none;
  no_cache = false;
  no_store = false;
  public = false;
  private = false;
  must_revalidate = false;
}

-- The case of "max-age", on the part behind the sign and on the number in it.
abbrev pub set_seconds : CacheControl → Option ℤ → CacheControl
set_seconds control none = control
set_seconds control (some seconds) = record control { max_age = some (int64 (seconds *ℤ second)) }

abbrev pub set_max_age : CacheControl → Option Text → CacheControl
set_max_age control none = control
set_max_age control (some part) = set_seconds control (atoi part)

-- The `switch` on the name of a directive.
pub set_directive : CacheControl → Text → Option Text → CacheControl
set_directive control name value =
    if same_text name (codes "no-cache")
    then record control { no_cache = true }
    else if same_text name (codes "no-store")
    then record control { no_store = true }
    else if same_text name (codes "public")
    then record control { public = true }
    else if same_text name (codes "private")
    then record control { private = true }
    else if same_text name (codes "must-revalidate")
    then record control { must_revalidate = true }
    else if same_text name (codes "max-age")
    then set_max_age control value
    else control

module _ (lower : ℕ → ℕ) where
  -- A round of the loop of `ParseCacheControl`.
  pub read_directive : CacheControl → Text → CacheControl
  unfolding set_directive split_once
  read_directive control directive =
      let (name, value) = split_once b'=' (trim_space directive) in
      set_directive control (map lower name) value

  pub read_all : CacheControl → List Text → CacheControl
  unfolding read_directive
  read_all control [] = control
  read_all control (d ∷ ds) = read_all (read_directive control d) ds

  unfoldable pub parse_cache_control : Text → CacheControl
  unfolding read_all split
  parse_cache_control value = read_all empty (split b',' value)

abbrev pub flag : Bool → Text → List Text
flag true name = name ∷ []
flag false name = []

abbrev pub age : Option Duration → List Text
age none = []
age (some d) = (codes "max-age=" ++ itoa (whole_seconds d)) ∷ []

-- The local `parts` of `CacheControl.String`.
abbrev pub parts : CacheControl → List Text
parts control =
    flag control.no_cache (codes "no-cache")
    ++ (flag control.no_store (codes "no-store")
        ++ (flag control.public (codes "public")
            ++ (flag control.private (codes "private")
                ++ (flag control.must_revalidate (codes "must-revalidate")
                    ++ age control.max_age))))

unfoldable pub cache_control_text : CacheControl → Text
unfolding join
cache_control_text control = join (codes ", ") (parts control)
