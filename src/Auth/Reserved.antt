-- ===== src/Auth/Reserved.antt =====
-- What a reservation of an action checks and marks, and what the end of a call takes back.
use wechatcopilot.Prelude.{
  ℕ, ◌<◌, String, Bool, true, false, List, [], ◌∷◌, ◌≡◌, ◌≢◌, sym, ok, arith, eq_iff, contains,
}
use wechatcopilot.Auth.{Entry, is_gone}
use wechatcopilot.Auth.Actions.{
  attempts_of, reserve_action, mark_action, begin_action, enter_action, discard,
  max_attempts_per_action, max_attempts_per_challenge,
}

pub record IsReserved (id key : String) (e e' : Entry) : Type 0 where
  pub new_id : contains id e.performed_actions ≡ false
  pub new_key : contains key e.performed_replay_keys ≡ false
  pub below_action : attempts_of id e < max_attempts_per_action
  pub below_challenge : e.total_action_attempts < max_attempts_per_challenge
  pub marks : e' ≡ mark_action id key e

pub reserve_action-IsReserved :
    (now : ℕ) (id key : String) (e e' : Entry)
    → reserve_action now id key e ≡ ok e'
    → IsReserved id key e e'
unfolding reserve_action
reserve_action-IsReserved now id key e e' h = record {
  new_id = ground arith;
  new_key = ground arith;
  below_action = ground arith;
  below_challenge = ground arith;
  marks = sym (ground arith);
}

-- A request that goes on raises the flag, which was down, for an entry that may still be used.
pub record IsBegun (now : ℕ) (id : String) (e e' : Entry) : Type 0 where
  pub in_use : is_gone now e ≡ false
  pub was_free : e.action_in_flight ≡ false
  pub no_mark : contains id e.performed_actions ≡ false
  pub entered : e' ≡ enter_action e

pub begin_action-IsBegun :
    (now : ℕ) (id : String) (confirmed : Bool) (e e' : Entry)
    → begin_action now id confirmed e ≡ ok e'
    → IsBegun now id e e'
unfolding begin_action
begin_action-IsBegun now id confirmed e e' h = record {
  in_use = ground arith;
  was_free = ground arith;
  no_mark = ground arith;
  entered = sym (ground arith);
}

pub contains-discard :
    (k j : String) (xs : List String)
    → k ≢ j
    → contains k xs ≡ true
    → contains k (discard j xs) ≡ true
unfolding contains discard
contains-discard k j [] n h = cc
contains-discard k j (x ∷ xs) n h = ground (arith, contains-discard k j xs, eq_iff x j, eq_iff x k)
