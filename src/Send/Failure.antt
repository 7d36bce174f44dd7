-- ===== src/Send/Failure.antt =====
-- The errors that the service answers with: internal/api/api.go and internal/service/driver_errors.go.
-- The wording of the messages is not modelled.
use wechatcopilot.Prelude.{ℕ, Option, none, some}
use wechatcopilot.Driver.{
  DriverError, FailureKind, SendResult, invalid_argument, auth_required, client_incompatible,
  target_ambiguous, unsupported, confirmation_required, user_action_required, not_found, stale,
  driver_unavailable, send_uncertain, classify_failure,
}

pub data Code : Type 0 where
  code_invalid_argument code_not_found code_conflict code_auth_required code_account_inactive : Code
  code_driver_unavailable code_client_incompatible code_target_ambiguous : Code
  code_unsupported_capability code_confirmation_required code_send_uncertain : Code
  code_partial_failure code_user_action_required : Code

-- An `AppError` with its HTTP status and its code, the one that carries a send result among its
-- details, or an error of another kind that is passed on as it is.
pub data Failure : Type 0 where
  app : ℕ → Code → Failure
  uncertain_send : SendResult → Failure
  raw : Failure

pub status_of : FailureKind → ℕ
status_of invalid_argument = 400
status_of not_found = 404
status_of driver_unavailable = 503
status_of _ = 409

pub code_of : FailureKind → Code
code_of invalid_argument = code_invalid_argument
code_of auth_required = code_auth_required
code_of client_incompatible = code_client_incompatible
code_of target_ambiguous = code_target_ambiguous
code_of unsupported = code_unsupported_capability
code_of confirmation_required = code_confirmation_required
code_of user_action_required = code_user_action_required
code_of not_found = code_not_found
code_of stale = code_conflict
code_of driver_unavailable = code_driver_unavailable
code_of send_uncertain = code_send_uncertain

unfoldable pub classified_driver_error : DriverError → Option Failure
unfolding status_of code_of classify_failure
classified_driver_error e = elim (classify_failure e) [
  | none ↦ none
  | some kind ↦ some (app (status_of kind) (code_of kind))
]
