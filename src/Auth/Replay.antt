-- ===== src/Auth/Replay.antt =====
-- An action that may have been performed is not performed again.
use wechatcopilot.Prelude.{
  ℕ, String, Bool, true, false, Option, none, some, List, [], ◌∷◌, ◌++◌, ◌≡◌, ◌≢◌, refl, sym, ap,
  subst, ◌∙◌, inl, inr, Result, ok, err, arith, eq_iff, contains, Bool-cases, trim_space, All,
  All-map, All-of, All-append, All-at, Pairs, Pairs-append, Pairs-at, In,
}
use wechatcopilot.Driver.{
  FailureKind, send_uncertain, unsupported, not_found, confirmation_required,
  auth_action_was_consumed, classify_failure, DriverError,
}
use wechatcopilot.Auth.{AuthSnapshot, Entry}
use wechatcopilot.Auth.Actions.{
  Refusal, begin_action, reserve_action, mark_action, enter_action, finish_action, was_rejected,
  is_definitive, definitive_kind, auth_action_definitively_rejected,
}
use wechatcopilot.Auth.Session.{
  Acting, acting_none, acting_looks, acting_calls, ActionCall, may_have_acted, acted_anyway,
  Session, Event, observes, closes, asks_action, shows_action, answers_action, asks_code,
  shows_code, answers_code, happen, run, leave_action, reserve_shown, reserved_action, begun_action,
  shown_to, answered_to, show_action, answer_action,
}
use wechatcopilot.Auth.Ledger.{Kept, kept, Ledger, ledger, IsElsewhere, happen-ledger}
use wechatcopilot.Auth.Reserved.{
  IsReserved, reserve_action-IsReserved, begin_action-IsBegun, contains-discard,
}

-- A call that may have acted has left its marks.
abbrev HasMarks : Kept → ActionCall → Type 0
HasMarks k c =
    c.may_have_acted ≡ true
    → (contains c.action_id k.ids ≡ true) × (contains c.replay_key k.keys ≡ true)

-- After a call that may have acted, another action with another replay key.
abbrev IsOther : String → String → ActionCall → Type 0
IsOther id key c = c.may_have_acted ≡ true → (c.action_id ≢ id) × (c.replay_key ≢ key)

abbrev RulesOut : ActionCall → ActionCall → Type 0
RulesOut c d = IsOther d.action_id d.replay_key c

abbrev IsCurrent : Ledger → Acting → Type 0
IsCurrent l acting_none = Unit
IsCurrent l (acting_looks id) = Unit
IsCurrent l (acting_calls id key) =
    All (IsOther id key) l.calls
    × (contains id l.kept.ids ≡ true)
    × (contains key l.kept.keys ≡ true)

record IsSafe (l : Ledger) : Type 0 where
  marks : All (HasMarks l.kept) l.calls
  once : Pairs RulesOut l.calls
  current : IsCurrent l l.acting

leave-IsSafe : (s : Session) → IsSafe (ledger s) → IsSafe (ledger (leave_action s))
unfolding leave_action
leave-IsSafe s v = record { marks = v.marks; once = v.once; current = tt }

contains-head : (x : String) (xs : List String) → contains x (x ∷ xs) ≡ true
unfolding contains
contains-head x xs = ground (arith, eq_iff x x)

contains-tail :
    (x y : String) (xs : List String) → contains x xs ≡ true → contains x (y ∷ xs) ≡ true
unfolding contains
contains-tail x y xs h = ground arith

-- A mark that is not there belongs to no call.
clash : (x y : String) (xs : List String) → contains x xs ≡ true → contains y xs ≡ false → x ≢ y
clash x y xs h n e = no (sym h ∙ ap (λ z. contains z xs) e ∙ n)
  where
    no : true ≡ false → ⊥
    no p = cc

reserved-IsSafe :
    (s : Session) (id key : String) (e : Entry)
    → IsReserved id key s.entry e
    → IsSafe (ledger s)
    → IsSafe (ledger (record s { entry = e; acting = acting_calls id key }))
unfolding mark_action
reserved-IsSafe s id key e r v =
    subst (λ x. IsSafe (ledger (record s { entry = x; acting = acting_calls id key })))
      (sym r.marks)
      (record {
        marks =
            All-map (HasMarks (kept s.entry)) (HasMarks (kept (mark_action id key s.entry)))
              s.action_calls
              (λ c h n. (
                contains-tail c.action_id id s.entry.performed_actions (h n).0,
                contains-tail c.replay_key key s.entry.performed_replay_keys (h n).1,
              ))
              v.marks;
        once = v.once;
        current = (
          All-map (HasMarks (kept s.entry)) (IsOther id key) s.action_calls
              (λ c h n. (
                clash c.action_id id s.entry.performed_actions (h n).0 r.new_id,
                clash c.replay_key key s.entry.performed_replay_keys (h n).1 r.new_key,
              ))
              v.marks,
          contains-head id s.entry.performed_actions,
          contains-head key s.entry.performed_replay_keys,
        );
      })

reserved_action-IsSafe :
    (id key : String) (s : Session) (r : Result Refusal Entry)
    → ((e : Entry) → r ≡ ok e → IsReserved id key s.entry e)
    → IsSafe (ledger s)
    → IsSafe (ledger (reserved_action id key s r))
unfolding reserved_action
reserved_action-IsSafe id key s (err r) h v = leave-IsSafe s v
reserved_action-IsSafe id key s (ok e) h v = reserved-IsSafe s id key e (h e refl) v

reserve_shown-IsSafe :
    (now : ℕ) (id : String) (s : Session) (r : Result Refusal String)
    → IsSafe (ledger s)
    → IsSafe (ledger (reserve_shown now id s r))
unfolding reserve_shown
reserve_shown-IsSafe now id s (err r) v = leave-IsSafe s v
reserve_shown-IsSafe now id s (ok key) v =
    reserved_action-IsSafe id key s (reserve_action now id key s.entry)
      (λ e h. reserve_action-IsReserved now id key s.entry e h) v

show_action-IsSafe :
    (now : ℕ) (id : String) (s : Session) (o : Option AuthSnapshot) (capable : Bool)
    → IsSafe (ledger s)
    → IsSafe (ledger (show_action now id s o capable))
unfolding show_action
show_action-IsSafe now id s none capable v = leave-IsSafe s v
show_action-IsSafe now id s (some snapshot) capable v = reserve_shown-IsSafe now id s _ v

-- The marks that an answer leaves: those of the call itself go only when it was rejected.
finished-HasMarks :
    (id key : String) (failure : Option DriverError) (e : Entry) (c : ActionCall)
    → IsOther id key c
    → HasMarks (kept e) c
    → HasMarks (kept (finish_action id key failure e)) c
unfolding finish_action
finished-HasMarks id key failure e c other h = elim (Bool-cases (was_rejected failure)) [
  | inl q ↦ rw q (λ n. (
    contains-discard c.action_id id e.performed_actions (other n).0 (h n).0,
    contains-discard c.replay_key key e.performed_replay_keys (other n).1 (h n).1,
  ))
  | inr q ↦ rw q h
]

acted_anyway-is_definitive :
    (o : Option FailureKind) → acted_anyway o ≡ true → is_definitive o ≡ false
unfolding acted_anyway is_definitive definitive_kind
acted_anyway-is_definitive none h = refl
acted_anyway-is_definitive (some k) h =
    elim k as (λ x. acted_anyway (some x) ≡ true → definitive_kind x ≡ false) [
      | send_uncertain ↦ λ _. refl
      | unsupported ↦ λ _. refl
      | not_found ↦ λ _. refl
      | confirmation_required ↦ λ _. refl
      | _ ↦ λ q. sym q
    ]
      h

-- After an answer that may mean an action, the marks stay.
may_have_acted-was_rejected :
    (failure : Option DriverError) → may_have_acted failure ≡ true → was_rejected failure ≡ false
unfolding may_have_acted was_rejected auth_action_definitively_rejected auth_action_was_consumed
    classify_failure
may_have_acted-was_rejected none h = refl
may_have_acted-was_rejected (some e) h = elim (Bool-cases e.consumed) [
  | inl q ↦ ground arith
  | inr q ↦ ground (arith, acted_anyway-is_definitive e.failure)
]

own-HasMarks :
    (id key : String) (failure : Option DriverError) (e : Entry)
    → (contains id e.performed_actions ≡ true)
    → (contains key e.performed_replay_keys ≡ true)
    → HasMarks
        (kept (finish_action id key failure e))
        (record { action_id = id; replay_key = key; may_have_acted = may_have_acted failure })
unfolding finish_action
own-HasMarks id key failure e h k n = rw (may_have_acted-was_rejected failure n) (h, k)

answer_action-IsSafe :
    (id key : String) (s : Session) (failure : Option DriverError)
    → All (IsOther id key) s.action_calls
    → (contains id s.entry.performed_actions ≡ true)
    → (contains key s.entry.performed_replay_keys ≡ true)
    → IsSafe (ledger s)
    → IsSafe (ledger (answer_action id key s failure))
unfolding answer_action
answer_action-IsSafe id key s failure other h k v =
    let c : ActionCall = record {
      action_id = id;
      replay_key = key;
      may_have_acted = may_have_acted failure;
    } in
    let k' = kept (finish_action id key failure s.entry) in
    record {
      marks =
          All-append (HasMarks k') s.action_calls (c ∷ [])
            (All-of (HasMarks k') s.action_calls (λ d i.
              finished-HasMarks id key failure s.entry d (All-at (IsOther id key) i other)
                (All-at (HasMarks (kept s.entry)) i v.marks)))
            (own-HasMarks id key failure s.entry h k, tt);
      once = Pairs-append RulesOut s.action_calls c v.once other;
      current = tt;
    }

answered_to-IsSafe :
    (a : Acting) (s : Session) (failure : Option DriverError)
    → IsCurrent (ledger s) a
    → IsSafe (ledger s)
    → IsSafe (ledger (answered_to a s failure))
unfolding answered_to
answered_to-IsSafe acting_none s failure c v = v
answered_to-IsSafe (acting_looks id) s failure c v = v
answered_to-IsSafe (acting_calls id key) s failure (other, h, k) v =
    answer_action-IsSafe id key s failure other h k v

shown_to-IsSafe :
    (a : Acting) (now : ℕ) (s : Session) (o : Option AuthSnapshot) (capable : Bool)
    → IsSafe (ledger s)
    → IsSafe (ledger (shown_to a now s o capable))
unfolding shown_to
shown_to-IsSafe acting_none now s o capable v = v
shown_to-IsSafe (acting_looks id) now s o capable v = show_action-IsSafe now id s o capable v
shown_to-IsSafe (acting_calls id key) now s o capable v = v

begun_action-IsSafe :
    (id : String) (s : Session) (r : Result Refusal Entry)
    → ((e : Entry) → r ≡ ok e → e ≡ enter_action s.entry)
    → IsSafe (ledger s)
    → IsSafe (ledger (begun_action id s r))
unfolding begun_action enter_action
begun_action-IsSafe id s (err r) h v = v
begun_action-IsSafe id s (ok e) h v =
    subst (λ x. IsSafe (ledger (record s { entry = x; acting = acting_looks id }))) (sym (h e refl))
      (record { marks = v.marks; once = v.once; current = tt })

elsewhere-IsSafe :
    (s : Session) (e : Event) → IsElsewhere e → IsSafe (ledger s) → IsSafe (ledger (happen s e))
elsewhere-IsSafe s e u v = subst IsSafe (sym (happen-ledger s e u)) v

happen-IsSafe : (s : Session) (e : Event) → IsSafe (ledger s) → IsSafe (ledger (happen s e))
unfolding happen
happen-IsSafe s (observes snapshot now) v = elsewhere-IsSafe s (observes snapshot now) tt v
happen-IsSafe s closes v = elsewhere-IsSafe s closes tt v
happen-IsSafe s (asks_action now id confirmed) v =
    begun_action-IsSafe (trim_space id) s (begin_action now (trim_space id) confirmed s.entry)
      (λ x h. (begin_action-IsBegun now (trim_space id) confirmed s.entry x h).entered) v
happen-IsSafe s (shows_action now shown capable) v = shown_to-IsSafe s.acting now s shown capable v
happen-IsSafe s (answers_action failure) v = answered_to-IsSafe s.acting s failure v.current v
happen-IsSafe s (asks_code now code) v = elsewhere-IsSafe s (asks_code now code) tt v
happen-IsSafe s (shows_code shown) v = elsewhere-IsSafe s (shows_code shown) tt v
happen-IsSafe s (answers_code failure) v = elsewhere-IsSafe s (answers_code failure) tt v

run-IsSafe :
    (s : Session) (events : List Event) → IsSafe (ledger s) → IsSafe (ledger (run s events))
unfolding run
run-IsSafe s [] v = v
run-IsSafe s (e ∷ rest) v = run-IsSafe (happen s e) rest (happen-IsSafe s e v)

-- In every history of a challenge that begins with no action called and none awaited, a call of an
-- action that the driver performed, or answered with an error that is marked as consumed, is not
-- classified or says that the outcome is uncertain, is followed by no call of the same action, nor
-- of one with the same replay key.
pub run-acts_once :
    (s : Session) (events : List Event) (before after : List ActionCall) (c d : ActionCall)
    → s.action_calls ≡ []
    → s.acting ≡ acting_none
    → (run s events).action_calls ≡ before ++ c ∷ after
    → In d after
    → c.may_have_acted ≡ true
    → (c.action_id ≢ d.action_id) × (c.replay_key ≢ d.replay_key)
run-acts_once s events before after c d no_call idle split i =
    let v : IsSafe (ledger s) = record {
      marks = subst (All (HasMarks (kept s.entry))) (sym no_call) tt;
      once = subst (Pairs RulesOut) (sym no_call) tt;
      current = subst (IsCurrent (ledger s)) (sym idle) tt;
    } in
    All-at (RulesOut c) i
      (Pairs-at RulesOut before c after (subst (Pairs RulesOut) split (run-IsSafe s events v).once))
