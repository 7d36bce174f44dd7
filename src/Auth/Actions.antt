-- ===== src/Auth/Actions.antt =====
-- The actions of a login screen: which are offered, and `performAuthAction` in its stages.
use wechatcopilot.Prelude.{
  ℕ, suc, String, Bool, true, false, not, ◌&&◌, ◌||◌, Option, none, some, List, [], ◌∷◌, ◌==◌, leb,
  ltb, nat_beq, codes, trim_space, contains, dict_get, dict_put, if◌then◌else◌, Result, ok, err,
  ◌>>=◌,
}
use Prim.Native.String
use wechatcopilot.Driver.{
  DriverError, FailureKind, state_online, state_auth_required, invalid_argument, auth_required,
  client_incompatible, target_ambiguous, user_action_required, stale, driver_unavailable,
  classify_failure, auth_action_was_consumed,
}
use wechatcopilot.Auth.{AuthAction, AuthSnapshot, Entry, completed, is_gone}

pub data Refusal : Type 0 where
  not_exist too_many_attempts in_flight confirmation_required unavailable : Refusal

abbrev pub max_attempts_per_action : ℕ
max_attempts_per_action = 3

abbrev pub max_attempts_per_challenge : ℕ
max_attempts_per_challenge = 6

all_printable : List ℕ → Bool
all_printable [] = true
all_printable (c ∷ cs) = not (ltb c 0x21 || ltb 0x7e c) && all_printable cs

valid_replay_key : String → Option String
unfolding all_printable
valid_replay_key key =
    if key == "" || not (trim_space key == key) || ltb 256 (Prim.Native.String.len key)
    then none
    else if all_printable (codes key)
    then some key
    else none

-- `authActionReplayKey`
unfoldable pub auth_action_replay_key : AuthAction → Option String
unfolding valid_replay_key
auth_action_replay_key a = valid_replay_key (if a.replay_key == "" then a.id else a.replay_key)

-- How many actions have this identifier, and how many this replay key.
unfoldable pub count_id : String → List AuthAction → ℕ
count_id id [] = 0
count_id id (a ∷ rest) = let n = count_id id rest in if a.id == id then suc n else n

has_replay_key : String → Option String → Bool
has_replay_key key none = false
has_replay_key key (some k) = k == key

unfoldable pub count_replay_key : String → List AuthAction → ℕ
unfolding has_replay_key
count_replay_key key [] = 0
count_replay_key key (a ∷ rest) =
    let n = count_replay_key key rest in
    if has_replay_key key (auth_action_replay_key a) then suc n else n

unfoldable pub or_zero : Option ℕ → ℕ
or_zero none = 0
or_zero (some n) = n

unfoldable pub attempts_of : String → Entry → ℕ
unfolding or_zero
attempts_of id e = or_zero (dict_get e.action_attempts id)

-- The test of one action against the whole screen.
unfoldable pub is_offered_key : AuthSnapshot → Entry → AuthAction → Option String → Bool
is_offered_key snapshot e a none = false
is_offered_key snapshot e a (some key) =
    nat_beq (count_replay_key key snapshot.actions) 1
    && not (contains a.id e.performed_actions)
    && not (contains key e.performed_replay_keys)
    && ltb (attempts_of a.id e) max_attempts_per_action

unfoldable pub is_offered : AuthSnapshot → Entry → AuthAction → Bool
is_offered snapshot e a =
    not (a.id == "")
    && trim_space a.id == a.id
    && nat_beq (count_id a.id snapshot.actions) 1
    && is_offered_key snapshot e a (auth_action_replay_key a)

unfoldable pub keep_offered : AuthSnapshot → Entry → List AuthAction → List AuthAction
keep_offered snapshot e [] = []
keep_offered snapshot e (a ∷ rest) =
    let more = keep_offered snapshot e rest in if is_offered snapshot e a then a ∷ more else more

-- `availableAuthActionsLocked`
unfoldable pub available_auth_actions : AuthSnapshot → Entry → List AuthAction
unfolding keep_offered
available_auth_actions snapshot e =
    if e.action_in_flight || completed e || not (snapshot.state == state_auth_required)
    then []
    else if leb max_attempts_per_challenge e.total_action_attempts
    then []
    else keep_offered snapshot e snapshot.actions

unfoldable pub enter_action : Entry → Entry
enter_action e = record e { action_in_flight = true }

-- `performAuthAction` until it asks for a snapshot. The identifier is trimmed already.
unfoldable pub begin_action : ℕ → String → Bool → Entry → Result Refusal Entry
begin_action now id confirmed e =
    if is_gone now e
    then err not_exist
    else if e.action_in_flight
    then err in_flight
    else if contains id e.performed_actions
    then err unavailable
    else if not confirmed
    then err confirmation_required
    else ok (enter_action e)

-- The first action that has the identifier.
unfoldable pub find_action : String → List AuthAction → Option AuthAction
find_action id [] = none
find_action id (a ∷ rest) = if a.id == id then some a else find_action id rest

unfoldable pub unique_key : AuthSnapshot → Option String → Result Refusal String
unique_key snapshot none = err unavailable
unique_key snapshot (some key) =
    if nat_beq (count_replay_key key snapshot.actions) 1 then ok key else err unavailable

unfoldable pub advertised_action : String → List AuthAction → Result Refusal AuthAction
advertised_action id actions =
    if ltb 1 (count_id id actions)
    then err unavailable
    else elim (find_action id actions) [ none ↦ err unavailable | some a ↦ ok a ]

-- What the snapshot says of the action: its replay key, if it is there once and its key is its own.
unfoldable pub advertised_key : String → AuthSnapshot → Result Refusal String
advertised_key id snapshot =
    if snapshot.state == state_online
    then err not_exist
    else if not (snapshot.state == state_auth_required)
    then err unavailable
    else (do
      a ← advertised_action id snapshot.actions
      unique_key snapshot (auth_action_replay_key a))

-- The attempt is counted, and the action and its replay key are marked, before the driver is called.
unfoldable pub mark_action : String → String → Entry → Entry
mark_action id key e = record e {
  action_attempts = dict_put e.action_attempts id (suc (attempts_of id e));
  total_action_attempts = suc e.total_action_attempts;
  performed_actions = id ∷ e.performed_actions;
  performed_replay_keys = key ∷ e.performed_replay_keys;
}

-- The last checks, and the marks.
unfoldable pub reserve_action : ℕ → String → String → Entry → Result Refusal Entry
reserve_action now id key e =
    if is_gone now e
    then err not_exist
    else if contains id e.performed_actions || contains key e.performed_replay_keys
    then err unavailable
    else if leb max_attempts_per_action (attempts_of id e)
        || leb max_attempts_per_challenge e.total_action_attempts
    then err too_many_attempts
    else ok (mark_action id key e)

unfoldable pub definitive_kind : FailureKind → Bool
definitive_kind invalid_argument = true
definitive_kind auth_required = true
definitive_kind client_incompatible = true
definitive_kind target_ambiguous = true
definitive_kind user_action_required = true
definitive_kind stale = true
definitive_kind driver_unavailable = true
definitive_kind _ = false

unfoldable pub is_definitive : Option FailureKind → Bool
unfolding definitive_kind
is_definitive none = false
is_definitive (some kind) = definitive_kind kind

-- `authActionDefinitivelyRejected`
unfoldable pub auth_action_definitively_rejected : DriverError → Bool
unfolding is_definitive
auth_action_definitively_rejected e =
    not (auth_action_was_consumed e) && is_definitive (classify_failure e)

-- `delete(set, key)`
unfoldable pub discard : String → List String → List String
discard k [] = []
discard k (x ∷ xs) = let rest = discard k xs in if x == k then rest else x ∷ rest

-- Whether the driver's error proves that nothing happened.
unfoldable pub was_rejected : Option DriverError → Bool
was_rejected none = false
was_rejected (some e) = auth_action_definitively_rejected e

-- After the driver's answer, and the deferred end.
unfoldable pub finish_action : String → String → Option DriverError → Entry → Entry
finish_action id key failure e =
    if was_rejected failure
    then record e {
      performed_actions = discard id e.performed_actions;
      performed_replay_keys = discard key e.performed_replay_keys;
      action_in_flight = false;
    }
    else record e { action_in_flight = false }
