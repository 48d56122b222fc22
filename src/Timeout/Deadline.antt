-- ===== src/Timeout/Deadline.antt =====
-- pkg/timeout/timeout.go, WithTimeout and WithDeadline. What the `select` receives is an argument:
-- the end of the function, or that of the context, by its deadline or with another error.
use pin_go.Base.{Option, some}
use pin_go.Errors.{Error, Cause, timeout_error, internal_error, new, new_with_cause}

pub data Received : Type 0 where
  returns : Option Error → Received
  deadline_exceeded : Received
  cancelled : Cause → Received

unfoldable pub with_timeout : Received → Option Error
unfolding new new_with_cause
with_timeout (returns outcome) = outcome
with_timeout deadline_exceeded = some (new timeout_error "operation timed out")
with_timeout (cancelled cause) = some (new_with_cause internal_error "context cancelled" cause)

unfoldable pub with_deadline : Received → Option Error
unfolding new new_with_cause
with_deadline (returns outcome) = outcome
with_deadline deadline_exceeded = some (new timeout_error "deadline exceeded")
with_deadline (cancelled cause) = some (new_with_cause internal_error "context cancelled" cause)
