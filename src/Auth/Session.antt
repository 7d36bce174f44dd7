-- ===== src/Auth/Session.antt =====
-- A challenge as it is used: the requests of its page, which another request may interrupt wherever
-- the entry is not locked, and the driver's answers.
use wechatcopilot.Prelude.{
  ℕ, String, Bool, ◌||◌, true, false, Option, none, some, List, [], ◌∷◌, ◌++◌, trim_space,
  if◌then◌else◌, Result, ok, err,
}
use wechatcopilot.Driver.{DriverError, FailureKind, send_uncertain}
use wechatcopilot.Auth.{AuthSnapshot, Entry, observe_auth_snapshot}
use wechatcopilot.Auth.Actions.{
  begin_action, advertised_key, reserve_action, finish_action, Refusal,
}
use wechatcopilot.Auth.Codes.{begin_code, accepts_code, finish_code, CodeRefusal}

-- Where the request that performs an action stands: no such request, one that waits for a snapshot,
-- or one that waits for the driver to perform the action.
pub data Acting : Type 0 where
  acting_none : Acting
  acting_looks : String → Acting
  acting_calls : String → String → Acting

pub data Coding : Type 0 where
  coding_none coding_looks coding_calls : Coding

unfoldable pub acted_anyway : Option FailureKind → Bool
acted_anyway none = true
acted_anyway (some send_uncertain) = true
acted_anyway (some kind) = false

-- The driver succeeded, or its error is marked as consumed, is not classified, or says that the outcome
-- is uncertain.
unfoldable pub may_have_acted : Option DriverError → Bool
unfolding acted_anyway
may_have_acted none = true
may_have_acted (some e) = e.consumed || acted_anyway e.failure

-- A call of `PerformAuthAction` that the driver has answered.
pub record ActionCall : Type 0 where
  pub action_id : String
  pub replay_key : String
  pub may_have_acted : Bool

-- The two histories, oldest first: the answered calls of `PerformAuthAction`, and whether each answered
-- call of `SubmitAuthCode` was accepted.
pub record Session : Type 0 where
  pub entry : Entry
  pub acting : Acting
  pub coding : Coding
  pub action_calls : List ActionCall
  pub code_calls : List Bool

pub data Event : Type 0 where
  observes : AuthSnapshot → ℕ → Event
  closes : Event
  asks_action : ℕ → String → Bool → Event
  shows_action : ℕ → Option AuthSnapshot → Bool → Event
  answers_action : Option DriverError → Event
  asks_code : ℕ → String → Event
  shows_code : Option AuthSnapshot → Event
  answers_code : Option DriverError → Event

-- The deferred end of a request that did not reach the driver.
unfoldable pub leave_action : Session → Session
leave_action s = record s {
  entry = record s.entry { action_in_flight = false };
  acting = acting_none;
}

unfoldable pub begun_action : String → Session → Result Refusal Entry → Session
begun_action id s (err r) = s
begun_action id s (ok e) = record s { entry = e; acting = acting_looks id }

unfoldable pub reserved_action : String → String → Session → Result Refusal Entry → Session
reserved_action id key s (err r) = leave_action s
reserved_action id key s (ok e) = record s { entry = e; acting = acting_calls id key }

unfoldable pub reserve_shown : ℕ → String → Session → Result Refusal String → Session
reserve_shown now id s (err r) = leave_action s
reserve_shown now id s (ok key) = reserved_action id key s (reserve_action now id key s.entry)

-- `performAuthAction` from the snapshot to the call; `capable` says that the driver performs actions.
unfoldable pub show_action : ℕ → String → Session → Option AuthSnapshot → Bool → Session
show_action now id s none capable = leave_action s
show_action now id s (some snapshot) capable =
    reserve_shown now id s (elim (advertised_key id snapshot) [
      | err r ↦ err r
      | ok key ↦ if capable then ok key else err Refusal.unavailable
    ])

unfoldable pub answer_action : String → String → Session → Option DriverError → Session
answer_action id key s failure = record s {
  entry = finish_action id key failure s.entry;
  acting = acting_none;
  action_calls =
      s.action_calls
      ++ record { action_id = id; replay_key = key; may_have_acted = may_have_acted failure } ∷ [];
}

-- A snapshot or an answer for which no request waits changes nothing.
unfoldable pub shown_to : Acting → ℕ → Session → Option AuthSnapshot → Bool → Session
shown_to (acting_looks id) now s shown capable = show_action now id s shown capable
shown_to _ now s shown capable = s

unfoldable pub answered_to : Acting → Session → Option DriverError → Session
answered_to (acting_calls id key) s failure = answer_action id key s failure
answered_to _ s failure = s

unfoldable pub show_code : Session → Option AuthSnapshot → Session
show_code s none = record s { entry = finish_code false s.entry; coding = coding_none }
show_code s (some snapshot) =
    if accepts_code snapshot
    then record s { coding = coding_calls }
    else record s { entry = finish_code false s.entry; coding = coding_none }

code_accepted : Option DriverError → Bool
code_accepted none = true
code_accepted (some e) = false

unfoldable pub answer_code : Session → Option DriverError → Session
unfolding code_accepted
answer_code s failure = record s {
  entry = finish_code (code_accepted failure) s.entry;
  coding = coding_none;
  code_calls = s.code_calls ++ code_accepted failure ∷ [];
}

unfoldable pub begun_code : Session → Entry × Result CodeRefusal (Unit {0}) → Session
begun_code s (e, ok _) = record s { entry = e; coding = coding_looks }
begun_code s (e, err _) = record s { entry = e }

unfoldable pub happen : Session → Event → Session
unfolding begun_code
happen s (observes snapshot now) = record s {
  entry = (observe_auth_snapshot snapshot now s.entry).0;
}
happen s closes = record s { entry = record s.entry { closed = true } }
happen s (asks_action now id confirmed) =
    begun_action (trim_space id) s (begin_action now (trim_space id) confirmed s.entry)
happen s (shows_action now shown capable) = shown_to s.acting now s shown capable
happen s (answers_action failure) = answered_to s.acting s failure
happen s (asks_code now code) = begun_code s (begin_code now code s.entry)
happen s (shows_code shown) = elim s.coding [
  | coding_none ↦ s
  | coding_looks ↦ show_code s shown
  | coding_calls ↦ s
]
happen s (answers_code failure) = elim s.coding [
  | coding_none ↦ s
  | coding_looks ↦ s
  | coding_calls ↦ answer_code s failure
]

unfoldable pub run : Session → List Event → Session
unfolding happen
run s [] = s
run s (e ∷ rest) = run (happen s e) rest
