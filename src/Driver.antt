-- ===== src/Driver.antt =====
-- internal/driver/driver.go: the values that the drivers and the control plane exchange.
-- Platforms and runtime states are strings in the source, and stay so here; times are nanoseconds.
use wechatcopilot.Prelude.{ℕ, String, Bool, true, Option, none, some}

abbrev pub Platform : Type 0
Platform = String

abbrev pub platform_wechat : Platform
platform_wechat = "wechat"

abbrev pub platform_wecom : Platform
platform_wecom = "wecom"

abbrev pub RuntimeState : Type 0
RuntimeState = String

abbrev pub state_stopped : RuntimeState
state_stopped = "STOPPED"

abbrev pub state_starting : RuntimeState
state_starting = "STARTING"

abbrev pub state_auth_required : RuntimeState
state_auth_required = "AUTH_REQUIRED"

abbrev pub state_online : RuntimeState
state_online = "ONLINE"

abbrev pub state_degraded : RuntimeState
state_degraded = "DEGRADED"

abbrev pub state_offline : RuntimeState
state_offline = "OFFLINE"

pub record Identity : Type 0 where
  pub platform_id : String
  pub display_name : String
  pub avatar_url : String

-- The capability map of a status is not read by the modelled code.
pub record Status : Type 0 where
  pub state : RuntimeState
  pub identity : Option Identity
  pub reason : String
  pub client_version : String
  pub observed_at : ℕ

pub data FailureKind : Type 0 where
  invalid_argument auth_required client_incompatible target_ambiguous unsupported : FailureKind
  confirmation_required user_action_required not_found stale driver_unavailable : FailureKind
  send_uncertain : FailureKind

-- What `errors.As` finds in the chain of an error that a driver returns: a classified `Failure`,
-- and the mark of an authentication action that was consumed.
pub record DriverError : Type 0 where
  pub message : String
  pub failure : Option FailureKind
  pub consumed : Bool

unfoldable pub classify_failure : DriverError → Option FailureKind
classify_failure e = e.failure

unfoldable pub auth_action_was_consumed : DriverError → Bool
auth_action_was_consumed e = e.consumed

-- The mark is added once; the chain below it stays.
unfoldable pub mark_auth_action_consumed : Option DriverError → Option DriverError
mark_auth_action_consumed none = none
mark_auth_action_consumed (some e) = some (record e { consumed = true })

pub record Attachment : Type 0 where
  pub kind : String
  pub name : String
  pub size : ℕ
  pub local_path : String

pub record SendResult : Type 0 where
  pub message_id : String
  pub verified : Bool
  pub uncertain : Bool
  pub detail : String
