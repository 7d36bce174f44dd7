-- ===== src/Auth/Pages.antt =====
-- The handlers of the login page that show the screen and answer its requests. Where a handler lets go
-- of the entry, the entry that it finds later is an argument of its own.
use wechatcopilot.Prelude.{
  ℕ, suc, String, Bool, true, false, not, ◌&&◌, ◌||◌, Option, none, some, List, [], ◌∷◌, ◌==◌,
  nat_beq, contains, if◌then◌else◌,
}
use wechatcopilot.Driver.{
  DriverError, FailureKind, state_online, state_auth_required, invalid_argument, auth_required,
  client_incompatible, target_ambiguous, user_action_required, stale, driver_unavailable,
  classify_failure,
}
use wechatcopilot.Auth.{
  AuthAction, AuthSnapshot, Entry, completed, expired, is_gone, mark_completed,
  observe_auth_snapshot,
}
use wechatcopilot.Auth.Actions.{
  Refusal, not_exist, too_many_attempts, in_flight, confirmation_required, unavailable,
  auth_action_replay_key, count_replay_key, available_auth_actions,
}
use wechatcopilot.Auth.Codes.{
  CodeRefusal, gone, code_in_flight, already_submitted, too_many_codes, auth_sms,
}

-- The scan of `uniqueImageBoundAction`: the last replay key of the action, and how often it is there.
unfoldable pub scan_bound : String → List AuthAction → String → ℕ → Option (String × ℕ)
scan_bound id [] target matches = some (target, matches)
scan_bound id (a ∷ rest) target matches =
    let skipped = scan_bound id rest target matches in
    let found : Option (String × ℕ) = elim (auth_action_replay_key a) [
      | none ↦ none
      | some key ↦ scan_bound id rest key (suc matches)
    ] in
    if not (a.id == id) then skipped else if not a.image_bound then none else found

unfoldable pub bound_key : AuthSnapshot → Option (String × ℕ) → Option String
bound_key snapshot none = none
bound_key snapshot (some (target, matches)) =
    if not (nat_beq matches 1)
    then none
    else if nat_beq (count_replay_key target snapshot.actions) 1
    then some target
    else none

-- `uniqueImageBoundAction`
unfoldable pub unique_image_bound_action : AuthSnapshot → String → Option String
unfolding scan_bound bound_key
unique_image_bound_action snapshot id =
    if not (snapshot.state == state_auth_required)
    then none
    else bound_key snapshot (scan_bound id snapshot.actions "" 0)

pub data ImageReply : Type 0 where
  image_gone image_unavailable image_stale image_missing : ImageReply
  image_png : List ℕ → ImageReply

unfoldable pub png_or_missing : List ℕ → ImageReply
png_or_missing [] = image_missing
png_or_missing (b ∷ bytes) = image_png (b ∷ bytes)

is_empty : List ℕ → Bool
is_empty [] = true
is_empty (b ∷ bytes) = false

-- The image that belongs to one action, which must still be there and not be consumed.
unfoldable pub bound_image : String → Option String → AuthSnapshot → Entry → ImageReply
unfolding is_empty
bound_image id none snapshot e = image_stale
bound_image id (some key) snapshot e =
    if e.action_in_flight
      || contains id e.performed_actions
      || contains key e.performed_replay_keys
      || is_empty snapshot.screenshot_png
    then image_stale
    else png_or_missing snapshot.screenshot_png

unfoldable pub image_of : Option String → AuthSnapshot → Entry → ImageReply
unfolding is_empty
image_of none snapshot e =
    png_or_missing
      (if is_empty snapshot.qr_code_png then snapshot.screenshot_png else snapshot.qr_code_png)
image_of (some id) snapshot e = bound_image id (unique_image_bound_action snapshot id) snapshot e

-- `handleImage` after the query was read: the entry at first, when the snapshot is there, and when the
-- binding is checked.
unfoldable pub handle_image :
    Option String
    → ℕ
    → Entry
    → Option AuthSnapshot
    → ℕ
    → Entry
    → (Entry → Entry)
    → Entry × ImageReply
handle_image id now e none now' e' meanwhile =
    (e', if is_gone now e then image_gone else image_unavailable)
handle_image id now e (some snapshot) now' e' meanwhile =
    let observed = (observe_auth_snapshot snapshot now' e').0 in
    if is_gone now e
    then (e', image_gone)
    else if is_gone now' observed || snapshot.state == state_online
    then (observed, image_gone)
    else (meanwhile observed, image_of id snapshot (meanwhile observed))

pub record StatePage : Type 0 where
  pub entry : Entry
  pub can_submit_code : Bool
  pub actions : List AuthAction

pub data StateReply : Type 0 where
  state_gone state_unavailable : StateReply
  state_page : StatePage → StateReply

abbrev bare_page : Entry → StateReply
bare_page e = state_page (record { entry = e; can_submit_code = false; actions = [] })

-- The tests of `handleState` that stand before and behind the call of the driver: a reply, or the way on.
unfoldable pub state_guard : ℕ → Entry → Option (Entry × StateReply)
state_guard now e =
    if e.closed
    then some (e, state_gone)
    else if completed e
    then some (mark_completed now e, bare_page (mark_completed now e))
    else if expired now e
    then some (e, state_gone)
    else if e.action_in_flight
    then some (e, bare_page e)
    else none

observed_page : AuthSnapshot → Entry × Bool → Entry × StateReply
observed_page snapshot (e, true) = (e, bare_page e)
observed_page snapshot (e, false) = (
  e,
  state_page (record {
    entry = e;
    can_submit_code =
        snapshot.state == state_auth_required
        && snapshot.kind == auth_sms
        && snapshot.can_submit_code
        && not e.code_in_flight
        && not e.code_submitted
        && not e.action_in_flight;
    actions = available_auth_actions snapshot e;
  }),
)

-- `handleState` for a GET request.
unfoldable pub handle_state : ℕ → Entry → Option AuthSnapshot → ℕ → Entry → Entry × StateReply
unfolding observed_page
handle_state now e shown now' e' = elim (state_guard now e) [
  | some r ↦ r
  | none ↦ elim shown [
    | none ↦ (e', state_unavailable)
    | some snapshot ↦ elim (state_guard now' e') [
      | some r ↦ r
      | none ↦ observed_page snapshot (observe_auth_snapshot snapshot now' e')
    ]
  ]
]

pub record Reply : Type 0 where
  pub status : ℕ
  pub code : String
  pub retryable : Bool

abbrev reply : ℕ → String → Bool → Reply
reply status code retryable = record { status = status; code = code; retryable = retryable }

unfoldable pub kind_reply : FailureKind → Reply
kind_reply stale = reply 409 "PAGE_CHANGED" true
kind_reply target_ambiguous = reply 409 "TARGET_AMBIGUOUS" true
kind_reply client_incompatible = reply 409 "CLIENT_INCOMPATIBLE" false
kind_reply user_action_required = reply 409 "USER_ACTION_REQUIRED" false
kind_reply auth_required = reply 409 "AUTH_SCREEN_CHANGED" true
kind_reply invalid_argument = reply 400 "INVALID_ACTION" false
kind_reply driver_unavailable = reply 503 "DRIVER_UNAVAILABLE" true
kind_reply _ = reply 409 "ACTION_UNAVAILABLE" false

unfoldable pub found_reply : Option FailureKind → Reply
unfolding kind_reply
found_reply none = reply 409 "OUTCOME_UNCERTAIN" false
found_reply (some kind) = kind_reply kind

-- `writeClassifiedAuthActionFailure`
unfoldable pub classified_reply : DriverError → Reply
unfolding found_reply
classified_reply e = found_reply (classify_failure e)

-- The replies of `handleAction` to its own refusals.
unfoldable pub refusal_reply : Refusal → Reply
refusal_reply not_exist = reply 410 "CHALLENGE_GONE" false
refusal_reply too_many_attempts = reply 429 "ATTEMPT_LIMIT" false
refusal_reply in_flight = reply 409 "ACTION_IN_PROGRESS" true
refusal_reply confirmation_required = reply 400 "CONFIRMATION_REQUIRED" true
refusal_reply unavailable = reply 409 "ACTION_NOT_CURRENT" true

-- The statuses of `handleSubmit`.
unfoldable pub code_status : CodeRefusal → ℕ
code_status code_in_flight = 409
code_status already_submitted = 409
code_status too_many_codes = 429
code_status gone = 410
code_status _ = 400
