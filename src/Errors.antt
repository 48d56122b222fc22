-- ===== src/Errors.antt =====
-- pkg/errors/errors.go: the error value that every package returns, the status code that a proxy
-- answers with, and the Result type.
-- A `*Error` that may be nil is an `Option Error`. A foreign error is known by its text only.
mod Wrapping
mod Tests
use Prim.Native.String.{String, ◌++◌}
use pin_go.Base.{Bool, true, false, Option, none, some, ℤ, pos, eqb_ℤ, if◌then◌else◌}

pub data ErrorType : Type 0 where
  invalid_http_header internal_error invalid_html connection_error tls_error : ErrorType
  timeout_error proxy_error load_balancing_error cache_error pool_error : ErrorType

-- The text of the constant.
pub type_name : ErrorType → String
type_name invalid_http_header = "InvalidHTTPHeader"
type_name internal_error = "InternalError"
type_name invalid_html = "InvalidHTML"
type_name connection_error = "ConnectionError"
type_name tls_error = "TLSError"
type_name timeout_error = "TimeoutError"
type_name proxy_error = "ProxyError"
type_name load_balancing_error = "LoadBalancingError"
type_name cache_error = "CacheError"
type_name pool_error = "PoolError"

-- The fields Type, Message, Cause and StatusCode; a cause is nil, foreign, or an Error itself.
mutual
  pub data Error : Type 0 where
    mk_error : ErrorType → String → Cause → ℤ → Error

  pub data Cause : Type 0 where
    no_cause : Cause
    foreign : String → Cause
    wrapped : Error → Cause

abbrev pub error_type : Error → ErrorType
error_type (mk_error t m c s) = t

abbrev pub message : Error → String
message (mk_error t m c s) = m

abbrev pub status_code : Error → ℤ
status_code (mk_error t m c s) = s

-- `Error.Unwrap`.
unfoldable pub unwrap : Error → Cause
unwrap (mk_error t m c s) = c

-- `Error.Error`; the cause prints itself.
unfoldable mutual
  unfolding type_name

  pub error_text : Error → String
  error_text (mk_error t m c s) = type_name t ++ ": " ++ m ++ cause_text c

  pub cause_text : Cause → String
  cause_text no_cause = ""
  cause_text (foreign text) = " (caused by: " ++ text ++ ")"
  cause_text (wrapped e) = " (caused by: " ++ error_text e ++ ")"

-- The `switch` of `HTTPStatusCode`; the last clause is `default`.
unfoldable pub default_status : ErrorType → ℤ
default_status invalid_http_header = pos 400
default_status timeout_error = pos 504
default_status proxy_error = pos 502
default_status tls_error = pos 400
default_status _ = pos 500

unfoldable pub http_status_code : Error → ℤ
unfolding default_status
http_status_code (mk_error t m c s) = if eqb_ℤ s (pos 0) then default_status t else s

unfoldable pub new : ErrorType → String → Error
new t m = mk_error t m no_cause (pos 0)

unfoldable pub new_with_cause : ErrorType → String → Cause → Error
new_with_cause t m c = mk_error t m c (pos 0)

unfoldable pub new_with_status : ErrorType → String → ℤ → Error
new_with_status t m s = mk_error t m no_cause s

unfoldable pub explain : ErrorType → String → Error
unfolding new
explain t m = new t m

-- `OrErr` wraps an error that is not nil.
unfoldable pub or_err : Cause → ErrorType → String → Option Error
unfolding new_with_cause
or_err no_cause t m = none
or_err (foreign text) t m = some (new_with_cause t m (foreign text))
or_err (wrapped e) t m = some (new_with_cause t m (wrapped e))

-- `Result[T]`. `Err` leaves the value at the zero value of T.
pub record Result {ℓ} (A : Type ℓ) : Type ℓ where
  pub value : A
  pub error : Option Error

module _ {ℓ} {A : Type ℓ} where
  unfoldable pub ok : A → Result A
  ok a = record { value = a; error = none }

  unfoldable pub err : A → Option Error → Result A
  err zero_value e = record { value = zero_value; error = e }

  unfoldable pub is_ok : Result A → Bool
  is_ok r = elim r.error [ none ↦ true | some e ↦ false ]

  unfoldable pub is_err : Result A → Bool
  is_err r = elim r.error [ none ↦ false | some e ↦ true ]

  -- `Result.Unwrap`.
  unfoldable pub unwrap_result : Result A → A × Option Error
  unwrap_result r = elim r.error [ none ↦ (r.value, none) | some e ↦ (r.value, some e) ]
