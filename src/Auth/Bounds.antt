-- ===== src/Auth/Bounds.antt =====
-- How often the driver is asked to perform an action.
use wechatcopilot.Prelude.{
  ℕ, suc, ◌+◌, ◌≤◌, ◌<◌, String, Bool, Option, none, some, List, [], ◌∷◌, ◌++◌, ◌==◌, ◌≡◌, refl,
  sym, ap, subst, inl, inr, if◌then◌else◌, Result, ok, err, arith, length, length-append, dict_get,
  dict_put, dict_get-put, trim_space, Bool-cases, text_cases, Dict,
}
use wechatcopilot.Driver.{DriverError}
use wechatcopilot.Auth.{AuthSnapshot, Entry}
use wechatcopilot.Auth.Actions.{
  Refusal, or_zero, attempts_of, begin_action, reserve_action, mark_action, enter_action,
  finish_action, was_rejected, max_attempts_per_action, max_attempts_per_challenge,
}
use wechatcopilot.Auth.Session.{
  Acting, acting_none, acting_looks, acting_calls, ActionCall, may_have_acted, Session, Event,
  observes, closes, asks_action, shows_action, answers_action, asks_code, shows_code, answers_code,
  happen, run, leave_action, reserve_shown, reserved_action, begun_action, shown_to, answered_to,
  show_action, answer_action,
}
use wechatcopilot.Auth.Ledger.{Kept, kept, Ledger, IsElsewhere, happen-ledger}
use wechatcopilot.Auth.Reserved.{IsReserved, reserve_action-IsReserved, begin_action-IsBegun}

-- How many calls were made for an action.
unfoldable pub count_calls : String → List ActionCall → ℕ
count_calls id [] = 0
count_calls id (c ∷ rest) = let n = count_calls id rest in if c.action_id == id then suc n else n

count_calls-append :
    (id : String) (xs : List ActionCall) (c : ActionCall)
    → count_calls id (xs ++ c ∷ [])
      ≡ (if c.action_id == id then suc (count_calls id xs) else count_calls id xs)
unfolding count_calls
count_calls-append id [] c = refl
count_calls-append id (x ∷ xs) c = ground (arith, count_calls-append id xs c)

unfoldable pending : Acting → ℕ
pending (acting_calls id key) = 1
pending _ = 0

unfoldable pending_of : String → Acting → ℕ
pending_of id (acting_calls j key) = if j == id then 1 else 0
pending_of id _ = 0

record IsBounded (k : Kept) (a : Acting) (calls : List ActionCall) : Type 0 where
  each : (id : String) → count_calls id calls + pending_of id a ≤ or_zero (dict_get k.attempts id)
  each_bound : (id : String) → or_zero (dict_get k.attempts id) ≤ max_attempts_per_action
  all : length calls + pending a ≤ k.total
  all_bound : k.total ≤ max_attempts_per_challenge

abbrev Bounded : Session → Type 0
Bounded s = IsBounded (kept s.entry) s.acting s.action_calls

idle-IsBounded :
    (k : Kept) (a : Acting) (calls : List ActionCall)
    → IsBounded k a calls
    → IsBounded k acting_none calls
unfolding pending pending_of
idle-IsBounded k a calls b = record {
  each = λ id. omega (arith, b.each id);
  each_bound = b.each_bound;
  all = omega (arith, b.all);
  all_bound = b.all_bound;
}

leave-Bounded : (s : Session) → Bounded s → Bounded (leave_action s)
unfolding leave_action pending pending_of
leave-Bounded s b = record {
  each = λ id. omega (arith, b.each id);
  each_bound = b.each_bound;
  all = omega (arith, b.all);
  all_bound = b.all_bound;
}

-- The count of one action goes up by one.
or_zero-marked :
    (m : Dict ℕ) (id j : String)
    → or_zero (dict_get (dict_put m id (suc (or_zero (dict_get m id)))) j)
      ≡ (if id == j then 1 else 0) + or_zero (dict_get m j)
unfolding or_zero
or_zero-marked m id j =
    rw (dict_get-put m id j (suc (or_zero (dict_get m id)))) (elim (text_cases id j) [
      | inl (h, e) ↦ rw h (omega (arith, ap (λ x. or_zero (dict_get m x)) e))
      | inr (h, _) ↦ rw h (omega arith)
    ])

marked_bound :
    (m : Dict ℕ) (id j : String) (n : ℕ)
    → ((x : String) → or_zero (dict_get m x) ≤ n)
    → or_zero (dict_get m id) < n
    → (if id == j then 1 else 0) + or_zero (dict_get m j) ≤ n
marked_bound m id j n h below = elim (text_cases id j) [
  | inl (p, e) ↦ rw p (omega (arith, subst (λ x. or_zero (dict_get m x) < n) e below))
  | inr (p, _) ↦ rw p (omega (arith, h j))
]

marked-Bounded :
    (s : Session) (id key : String) (e : Entry)
    → IsReserved id key s.entry e
    → Bounded s
    → Bounded (record s { entry = e; acting = acting_calls id key })
unfolding mark_action pending pending_of attempts_of
marked-Bounded s id key e r b =
    subst (λ x. Bounded (record s { entry = x; acting = acting_calls id key })) (sym r.marks)
      (record {
        each = λ j. rw (or_zero-marked s.entry.action_attempts id j) (omega (arith, b.each j));
        each_bound = λ j. rw (or_zero-marked s.entry.action_attempts id j) (
            marked_bound s.entry.action_attempts id j max_attempts_per_action b.each_bound
              r.below_action);
        all = omega (arith, b.all);
        all_bound = omega (arith, r.below_challenge);
      })

reserved_action-Bounded :
    (id key : String) (s : Session) (r : Result Refusal Entry)
    → ((e : Entry) → r ≡ ok e → IsReserved id key s.entry e)
    → Bounded s
    → Bounded (reserved_action id key s r)
unfolding reserved_action
reserved_action-Bounded id key s (err r) h b = leave-Bounded s b
reserved_action-Bounded id key s (ok e) h b = marked-Bounded s id key e (h e refl) b

reserve_shown-Bounded :
    (now : ℕ) (id : String) (s : Session) (r : Result Refusal String)
    → Bounded s
    → Bounded (reserve_shown now id s r)
unfolding reserve_shown
reserve_shown-Bounded now id s (err r) b = leave-Bounded s b
reserve_shown-Bounded now id s (ok key) b =
    reserved_action-Bounded id key s (reserve_action now id key s.entry)
      (λ e h. reserve_action-IsReserved now id key s.entry e h) b

show_action-Bounded :
    (now : ℕ) (id : String) (s : Session) (o : Option AuthSnapshot) (capable : Bool)
    → Bounded s
    → Bounded (show_action now id s o capable)
unfolding show_action
show_action-Bounded now id s none capable b = leave-Bounded s b
show_action-Bounded now id s (some snapshot) capable b = reserve_shown-Bounded now id s _ b

shown_to-Bounded :
    (a : Acting) (now : ℕ) (s : Session) (o : Option AuthSnapshot) (capable : Bool)
    → Bounded s
    → Bounded (shown_to a now s o capable)
unfolding shown_to
shown_to-Bounded acting_none now s o capable b = b
shown_to-Bounded (acting_looks id) now s o capable b = show_action-Bounded now id s o capable b
shown_to-Bounded (acting_calls id key) now s o capable b = b

-- The counts of attempts are kept when a call ends, however it ends.
finish_action-attempts :
    (id key : String) (failure : Option DriverError) (e : Entry)
    → ((finish_action id key failure e).action_attempts ≡ e.action_attempts)
      × ((finish_action id key failure e).total_action_attempts ≡ e.total_action_attempts)
unfolding finish_action
finish_action-attempts id key failure e = elim (Bool-cases (was_rejected failure)) [
  | inl h ↦ rw h (refl, refl)
  | inr h ↦ rw h (refl, refl)
]

answered_to-Bounded :
    (a : Acting) (s : Session) (failure : Option DriverError)
    → s.acting ≡ a
    → Bounded s
    → Bounded (answered_to a s failure)
unfolding answered_to answer_action pending pending_of
answered_to-Bounded acting_none s failure q b = b
answered_to-Bounded (acting_looks id) s failure q b = b
answered_to-Bounded (acting_calls id key) s failure q b =
    let c : ActionCall = record {
      action_id = id;
      replay_key = key;
      may_have_acted = may_have_acted failure;
    } in
    let (same, total) = finish_action-attempts id key failure s.entry in
    let b' : IsBounded (kept s.entry) (acting_calls id key) s.action_calls =
      subst (λ x. IsBounded (kept s.entry) x s.action_calls) q b in
    record {
      each = λ j. rw (same, count_calls-append j s.action_calls c) (added j (b'.each j));
      each_bound = λ j. rw same (b.each_bound j);
      all = rw (total, length-append s.action_calls (c ∷ [])) (omega (arith, b'.all));
      all_bound = rw total b.all_bound;
    }
  where
    added :
        (j : String)
        → count_calls j s.action_calls + (if id == j then 1 else 0)
          ≤ or_zero (dict_get s.entry.action_attempts j)
        → (if id == j then suc (count_calls j s.action_calls) else count_calls j s.action_calls) + 0
          ≤ or_zero (dict_get s.entry.action_attempts j)
    added j h = ground arith

begun_action-Bounded :
    (id : String) (s : Session) (r : Result Refusal Entry)
    → ((e : Entry) → r ≡ ok e → e ≡ enter_action s.entry)
    → Bounded s
    → Bounded (begun_action id s r)
unfolding begun_action enter_action pending pending_of
begun_action-Bounded id s (err r) h b = b
begun_action-Bounded id s (ok e) h b =
    subst (λ x. Bounded (record s { entry = x; acting = acting_looks id })) (sym (h e refl))
      (record {
        each = λ j. omega (arith, b.each j);
        each_bound = b.each_bound;
        all = omega (arith, b.all);
        all_bound = b.all_bound;
      })

abbrev BoundedLedger : Ledger → Type 0
BoundedLedger l = IsBounded l.kept l.acting l.calls

elsewhere-Bounded : (s : Session) (e : Event) → IsElsewhere e → Bounded s → Bounded (happen s e)
elsewhere-Bounded s e u b = subst BoundedLedger (sym (happen-ledger s e u)) b

happen-Bounded : (s : Session) (e : Event) → Bounded s → Bounded (happen s e)
unfolding happen
happen-Bounded s (observes snapshot now) b = elsewhere-Bounded s (observes snapshot now) tt b
happen-Bounded s closes b = elsewhere-Bounded s closes tt b
happen-Bounded s (asks_action now id confirmed) b =
    begun_action-Bounded (trim_space id) s (begin_action now (trim_space id) confirmed s.entry)
      (λ x h. (begin_action-IsBegun now (trim_space id) confirmed s.entry x h).entered) b
happen-Bounded s (shows_action now shown capable) b =
    shown_to-Bounded s.acting now s shown capable b
happen-Bounded s (answers_action failure) b = answered_to-Bounded s.acting s failure refl b
happen-Bounded s (asks_code now code) b = elsewhere-Bounded s (asks_code now code) tt b
happen-Bounded s (shows_code shown) b = elsewhere-Bounded s (shows_code shown) tt b
happen-Bounded s (answers_code failure) b = elsewhere-Bounded s (answers_code failure) tt b

run-Bounded : (s : Session) (events : List Event) → Bounded s → Bounded (run s events)
unfolding run
run-Bounded s [] b = b
run-Bounded s (e ∷ rest) b = run-Bounded (happen s e) rest (happen-Bounded s e b)

-- In every history of a challenge that begins with no attempt made and no call, the driver is asked at
-- most six times to perform an action, and at most three times to perform the same one.
pub run-bounds_calls :
    (s : Session) (events : List Event) (id : String)
    → s.action_calls ≡ []
    → s.acting ≡ acting_none
    → s.entry.action_attempts ≡ []
    → s.entry.total_action_attempts ≡ 0
    → (length (run s events).action_calls ≤ 6) × (count_calls id (run s events).action_calls ≤ 3)
unfolding pending pending_of count_calls or_zero dict_get
run-bounds_calls s events id no_call idle no_attempt none_made =
    let b = run-Bounded s events (record {
      each = λ j. rw (no_call, idle, no_attempt) (omega arith);
      each_bound = λ j. rw no_attempt (omega arith);
      all = rw (no_call, idle) (omega arith);
      all_bound = rw none_made (omega arith);
    }) in
    (omega (arith, b.all, b.all_bound), omega (arith, b.each id, b.each_bound id))
