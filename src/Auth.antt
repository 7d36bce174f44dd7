-- ===== src/Auth.antt =====
-- internal/auth/manager.go: a login challenge, and what it makes of the driver's snapshots.
-- Times are nanoseconds; a zero time is `none`.
pub mod Actions
pub mod Codes
pub mod Session
pub mod Ledger
pub mod Reserved
pub mod Replay
pub mod Bounds
pub mod Stability
pub mod Offers
pub mod Pages
pub mod Replies
mod Examples
use wechatcopilot.Prelude.{
  ℕ, suc, ◌+◌, String, Bool, true, false, not, ◌&&◌, ◌||◌, Option, none, some, List, [], ◌∷◌, ◌==◌,
  leb, ltb, Dict, if◌then◌else◌,
}
use wechatcopilot.Driver.{RuntimeState, state_online, state_starting}

pub record AuthAction : Type 0 where
  pub id : String
  pub label : String
  pub risk : String
  pub confirmation : String
  pub requires_confirmation : Bool
  pub image_bound : Bool
  pub replay_key : String

pub record AuthSnapshot : Type 0 where
  pub kind : String
  pub state : RuntimeState
  pub prompt : String
  pub qr_code_png : List ℕ
  pub screenshot_png : List ℕ
  pub can_submit_code : Bool
  pub actions : List AuthAction
  pub observed_at : Option ℕ

-- The addresses of a challenge are never changed and are left out.
pub record Challenge : Type 0 where
  pub id : String
  pub account_id : String
  pub state : RuntimeState
  pub kind : String
  pub prompt : String
  pub expires_at : ℕ
  pub completed_at : Option ℕ

-- The two sets of what was performed are lists of their keys.
pub record Entry : Type 0 where
  pub public : Challenge
  pub code_attempts : ℕ
  pub code_in_flight : Bool
  pub code_submitted : Bool
  pub action_attempts : Dict ℕ
  pub total_action_attempts : ℕ
  pub action_in_flight : Bool
  pub performed_actions : List String
  pub performed_replay_keys : List String
  pub last_observed_at : Option ℕ
  pub online_candidate_since : Option ℕ
  pub online_observations : ℕ
  pub closed : Bool

abbrev pub online_stability_window : ℕ
online_stability_window = 15000000000

abbrev pub minimum_stable_online_observations : ℕ
minimum_stable_online_observations = 3

-- `completedLocked`
unfoldable pub completed : Entry → Bool
completed e = elim e.public.completed_at [ none ↦ false | some t ↦ true ]

-- `now.After(ExpiresAt)`
abbrev pub expired : ℕ → Entry → Bool
expired now e = ltb e.public.expires_at now

-- `e.closed || now.After(ExpiresAt) || e.completedLocked()`
unfoldable pub is_gone : ℕ → Entry → Bool
is_gone now e = e.closed || expired now e || completed e

unfoldable pub first_time : Option ℕ → ℕ → Option ℕ
first_time none now = some now
first_time (some t) now = some t

-- `markCompletedLocked`
unfoldable pub mark_completed : ℕ → Entry → Entry
unfolding first_time
mark_completed now e = record e {
  public = record e.public {
    state = state_online;
    completed_at = first_time e.public.completed_at now;
  };
}

unfoldable pub candidate_after : Option ℕ → ℕ → Entry → Entry
candidate_after none now e = record e { online_candidate_since = some now; online_observations = 1 }
candidate_after (some t) now e = record e { online_observations = suc e.online_observations }

unfoldable pub note_candidate : ℕ → Entry → Entry
unfolding candidate_after
note_candidate now e = candidate_after e.online_candidate_since now e

-- `now.Sub(onlineCandidateSince) >= onlineStabilityWindow`
unfoldable pub is_old : Option ℕ → ℕ → Bool
is_old none now = false
is_old (some t) now = leb (t + online_stability_window) now

unfoldable pub is_stable : ℕ → Entry → Bool
is_stable now e =
    leb minimum_stable_online_observations e.online_observations
    && is_old e.online_candidate_since now

unfoldable pub note_snapshot : AuthSnapshot → ℕ → Entry → Entry
note_snapshot snapshot now e = record e {
  public = record e.public { kind = snapshot.kind };
  last_observed_at = elim snapshot.observed_at [ none ↦ some now | some t ↦ some t ];
}

unfoldable pub forget_candidate : AuthSnapshot → Entry → Entry
forget_candidate snapshot e = record e {
  online_candidate_since = none;
  online_observations = 0;
  public = record e.public { state = snapshot.state; prompt = snapshot.prompt };
}

unfoldable pub hold_candidate : Entry → Entry
hold_candidate e = record e {
  public = record e.public { state = state_starting; prompt = "官方客户端已进入主界面，正在确认登录状态稳定" };
}

-- `observeAuthSnapshotLocked`
unfoldable pub observe_auth_snapshot : AuthSnapshot → ℕ → Entry → Entry × Bool
observe_auth_snapshot snapshot now e =
    let noted = note_snapshot snapshot now e in
    let candidate = note_candidate now noted in
    if not (snapshot.state == state_online)
    then (forget_candidate snapshot noted, false)
    else if is_stable now candidate
    then (mark_completed now candidate, true)
    else (hold_candidate candidate, false)
