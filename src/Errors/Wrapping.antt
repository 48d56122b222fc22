-- ===== src/Errors/Wrapping.antt =====
-- pkg/errors/errors.go: an error that OrErr wraps.
use Prim.Native.String.{◌++◌}
use pin_go.Base.{String, ◌≡◌, ◌⊎◌, inl, inr, refl, ◌≤ℤ◌, none, some, pos, arith}
use pin_go.Errors.{
  ErrorType, Error, Cause, no_cause, foreign, wrapped, unwrap, error_text, cause_text, type_name,
  default_status, http_status_code, new_with_cause, or_err,
}

-- An error that shows its type, the message and the text of the cause, keeps the cause, and is
-- answered with a status of HTTP for errors that the type alone decides.
pub record Wraps (t : ErrorType) (m : String) (c : Cause) (e : Error) : Type 0 where
  pub cause : unwrap e ≡ c
  pub text : error_text e ≡ type_name t ++ ": " ++ m ++ cause_text c
  pub status : http_status_code e ≡ default_status t
  pub at_least : pos 400 ≤ℤ http_status_code e
  pub at_most : http_status_code e ≤ℤ pos 599

default_status-bounds :
    (t : ErrorType) → (pos 400 ≤ℤ default_status t) × (default_status t ≤ℤ pos 599)
unfolding default_status
default_status-bounds t = ground arith

new_with_cause-Wraps : (t : ErrorType) (m : String) (c : Cause) → Wraps t m c (new_with_cause t m c)
unfolding new_with_cause error_text unwrap http_status_code
new_with_cause-Wraps t m c =
    let (low, high) = default_status-bounds t in
    record { cause = refl; text = refl; status = refl; at_least = low; at_most = high }

-- OrErr returns nil exactly for nil. The error that it returns otherwise shows its type, the message
-- and the text of the cause, keeps the cause, and is answered with the status of its type, between
-- 400 and 599, whatever status a wrapped error had.
pub or_err-Wraps :
    (c : Cause) (t : ErrorType) (m : String)
    → (c ≡ no_cause) × (or_err c t m ≡ none)
      ⊎ ((e : Error) × (or_err c t m ≡ some e) × Wraps t m c e)
unfolding or_err
or_err-Wraps no_cause t m = inl (refl, refl)
or_err-Wraps (foreign text) t m =
    inr (new_with_cause t m (foreign text), refl, new_with_cause-Wraps t m (foreign text))
or_err-Wraps (wrapped e) t m =
    inr (new_with_cause t m (wrapped e), refl, new_with_cause-Wraps t m (wrapped e))
