-- ===== src/Auth/Examples.antt =====
-- Runs of a login challenge, and its theorems at a challenge with one action.
use wechatcopilot.Prelude.{
  ℕ, ◌≤◌, String, Bool, true, false, Option, none, some, List, [], ◌∷◌, ◌++◌, ◌≡◌, ◌≢◌, refl,
  length, In, here, trim_space, ◌==◌, contains, dict_get, dict_put, dict_remove,
}
use wechatcopilot.Driver.{
  DriverError, state_online, state_auth_required, state_starting, stale, classify_failure,
  auth_action_was_consumed,
}
use wechatcopilot.Auth.{
  AuthAction, AuthSnapshot, Entry, is_gone, completed, observe_auth_snapshot, note_snapshot,
  note_candidate, candidate_after, is_stable, is_old, forget_candidate, hold_candidate,
  mark_completed, first_time,
}
use wechatcopilot.Auth.Actions.{
  auth_action_replay_key, count_id, count_replay_key, or_zero, attempts_of, is_offered,
  is_offered_key, available_auth_actions, begin_action, enter_action, find_action, unique_key,
  advertised_action, advertised_key, mark_action, reserve_action, auth_action_definitively_rejected,
  discard, was_rejected, finish_action,
}
use wechatcopilot.Auth.Session.{
  acting_none, acting_calls, coding_none, ActionCall, may_have_acted, Session, Event, asks_action,
  shows_action, answers_action, happen, run, leave_action, begun_action, reserved_action,
  reserve_shown, show_action, answer_action, shown_to, answered_to,
}
use wechatcopilot.Auth.Replay.{run-acts_once}
use wechatcopilot.Auth.Bounds.{count_calls, run-bounds_calls}
use wechatcopilot.Auth.Stability.{Observation, IsConfirmed, observe_all, observe_all-completes_late}
use wechatcopilot.Auth.Offers.{run-performs_offered}
use wechatcopilot.Auth.Pages.{classified_reply, handle_image, image_of, image_png, png_or_missing}
use wechatcopilot.Auth.Replies.{classified_reply-retryable, handle_image-hides}

abbrev fresh : Entry
fresh = record {
  public = record {
    id = "challenge";
    account_id = "work-id";
    state = state_starting;
    kind = "qr";
    prompt = "";
    expires_at = 600000000000;
    completed_at = none;
  };
  code_attempts = 0;
  code_in_flight = false;
  code_submitted = false;
  action_attempts = [];
  total_action_attempts = 0;
  action_in_flight = false;
  performed_actions = [];
  performed_replay_keys = [];
  last_observed_at = none;
  online_candidate_since = none;
  online_observations = 0;
  closed = false;
}

abbrev start : Session
start = record {
  entry = fresh;
  acting = acting_none;
  coding = coding_none;
  action_calls = [];
  code_calls = [];
}

abbrev button : String → String → AuthAction
button id key = record {
  id = id;
  label = "log in";
  risk = "";
  confirmation = "";
  requires_confirmation = true;
  image_bound = false;
  replay_key = key;
}

abbrev screen : String → List AuthAction → AuthSnapshot
screen state actions = record {
  kind = "qr";
  state = state;
  prompt = "";
  qr_code_png = [];
  screenshot_png = [];
  can_submit_code = false;
  actions = actions;
  observed_at = none;
}

abbrev login : AuthSnapshot
login = screen state_auth_required (button "a1" "login" ∷ button "b1" "other" ∷ [])

abbrev page_changed : DriverError
page_changed = record { message = "page changed"; failure = some stale; consumed = false }

abbrev attempt : String → Option DriverError → List Event
attempt id failure =
    asks_action 1 id true ∷ shows_action 2 (some login) true ∷ answers_action failure ∷ []

-- A rejected attempt, one that works, one more that is refused, and another action.
abbrev attempts : List Event
attempts =
    attempt "a1" (some page_changed) ++ attempt "a1" none ++ attempt "a1" none ++ attempt "b1" none

abbrev call : String → String → Bool → ActionCall
call id key acted = record { action_id = id; replay_key = key; may_have_acted = acted }

attempts-calls :
    (run start attempts).action_calls
    ≡ call "a1" "login" false ∷ call "a1" "login" true ∷ call "b1" "other" true ∷ []
unfolding run happen answered_to shown_to begun_action begin_action is_gone completed contains
    show_action reserve_shown advertised_key advertised_action count_id trim_space find_action
    unique_key auth_action_replay_key count_replay_key attempts_of auth_action_definitively_rejected
    discard enter_action finish_action mark_action or_zero reserve_action was_rejected
    may_have_acted answer_action leave_action reserved_action auth_action_was_consumed
    classify_failure dict_get dict_put dict_remove
attempts-calls = refl

run-acts_once_example :
    ((call "a1" "login" true).action_id ≢ (call "b1" "other" true).action_id)
    × ((call "a1" "login" true).replay_key ≢ (call "b1" "other" true).replay_key)
run-acts_once_example =
    run-acts_once start attempts (call "a1" "login" false ∷ []) (call "b1" "other" true ∷ [])
      (call "a1" "login" true) (call "b1" "other" true) refl refl attempts-calls here refl

run-bounds_calls_example :
    (length (run start attempts).action_calls ≤ 6)
    × (count_calls "a1" (run start attempts).action_calls ≤ 3)
run-bounds_calls_example = run-bounds_calls start attempts "a1" refl refl refl refl

abbrev seen : ℕ → Observation
seen now = (screen state_online [], now)

abbrev four_looks : List Observation
four_looks = seen 20000000000 ∷ seen 16000000000 ∷ seen 8000000000 ∷ seen 1000000000 ∷ []

four_looks-completes : (observe_all fresh four_looks).public.completed_at ≡ some 16000000000
unfolding observe_all observe_auth_snapshot note_snapshot note_candidate candidate_after is_stable
    is_old forget_candidate hold_candidate mark_completed first_time
four_looks-completes = refl

observe_all-completes_late_example : IsConfirmed 16000000000 four_looks
observe_all-completes_late_example =
    observe_all-completes_late fresh four_looks 16000000000 refl refl four_looks-completes

offers : In (button "a1" "login") (available_auth_actions login fresh)
unfolding available_auth_actions completed is_offered trim_space count_id is_offered_key
    auth_action_replay_key count_replay_key contains attempts_of dict_get
offers = here

in_use : is_gone 1 fresh ≡ false
unfolding is_gone completed
in_use = refl

run-performs_offered_example :
    (key : String) × ((run start
        (asks_action 1 "a1" true ∷ shows_action 1 (some login) true ∷ [])).acting
      ≡ acting_calls "a1" key)
run-performs_offered_example =
    run-performs_offered start 1 login (button "a1" "login") in_use offers

not_consumed : auth_action_was_consumed page_changed ≡ false
unfolding auth_action_was_consumed
not_consumed = refl

invites : (classified_reply page_changed).retryable ≡ true
unfolding classified_reply classify_failure
invites = refl

classified_reply-retryable_example : auth_action_definitively_rejected page_changed ≡ true
classified_reply-retryable_example = classified_reply-retryable page_changed not_consumed invites

abbrev picture : AuthSnapshot
picture = record login { qr_code_png = 1 ∷ [] }

abbrev as_it_is : Entry → Entry
as_it_is e = e

abbrev looked_at : Entry
looked_at = (observe_auth_snapshot picture 2 fresh).0

shown : handle_image none 1 fresh (some picture) 2 fresh as_it_is ≡ (looked_at, image_png (1 ∷ []))
unfolding handle_image is_gone completed observe_auth_snapshot note_snapshot forget_candidate
    image_of png_or_missing
shown = refl

handle_image-hides_example : (picture.state == state_online ≡ false) × (is_gone 1 fresh ≡ false)
handle_image-hides_example =
    handle_image-hides none 1 2 fresh fresh looked_at picture as_it_is (1 ∷ []) shown
