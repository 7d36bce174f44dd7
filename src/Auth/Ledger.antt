-- ===== src/Auth/Ledger.antt =====
-- What the actions of a challenge are accounted by, and the events that leave it alone.
use wechatcopilot.Prelude.{
  ℕ, suc, String, Bool, not, Option, none, some, List, ◌==◌, ◌≡◌, refl, inl, inr, Dict, Result, ok,
  err, ltb, Bool-cases, if-both, ap,
}
use wechatcopilot.Driver.{state_online}
use wechatcopilot.Auth.{
  AuthSnapshot, Entry, is_stable, candidate_after, note_snapshot, note_candidate, forget_candidate,
  hold_candidate, mark_completed, observe_auth_snapshot, is_gone,
}
use wechatcopilot.Auth.Codes.{begin_code, matches_code, finish_code, accepts_code, CodeRefusal}
use wechatcopilot.Auth.Session.{
  Acting, ActionCall, Session, Event, coding_none, coding_looks, coding_calls, observes, closes,
  asks_action, shows_action, answers_action, asks_code, shows_code, answers_code, happen,
  begun_code, show_code, answer_code,
}

pub record Kept : Type 0 where
  pub attempts : Dict ℕ
  pub total : ℕ
  pub in_flight : Bool
  pub ids : List String
  pub keys : List String

abbrev pub kept : Entry → Kept
kept e = record {
  attempts = e.action_attempts;
  total = e.total_action_attempts;
  in_flight = e.action_in_flight;
  ids = e.performed_actions;
  keys = e.performed_replay_keys;
}

pub record Ledger : Type 0 where
  pub kept : Kept
  pub acting : Acting
  pub calls : List ActionCall

abbrev pub ledger : Session → Ledger
ledger s = record { kept = kept s.entry; acting = s.acting; calls = s.action_calls }

candidate_after-kept :
    (o : Option ℕ) (now : ℕ) (e : Entry) → kept (candidate_after o now e) ≡ kept e
unfolding candidate_after
candidate_after-kept none now e = refl
candidate_after-kept (some t) now e = refl

note_candidate-kept : (now : ℕ) (e : Entry) → kept (note_candidate now e) ≡ kept e
unfolding note_candidate
note_candidate-kept now e = candidate_after-kept e.online_candidate_since now e

pub observe-kept :
    (snapshot : AuthSnapshot) (now : ℕ) (e : Entry)
    → kept (observe_auth_snapshot snapshot now e).0 ≡ kept e
unfolding observe_auth_snapshot note_snapshot forget_candidate hold_candidate mark_completed
observe-kept snapshot now e = elim (Bool-cases (not (snapshot.state == state_online))) [
  | inl h ↦ rw h refl
  | inr h ↦
      rw h (elim (Bool-cases (is_stable now (note_candidate now (note_snapshot snapshot now e)))) [
        | inl k ↦ rw k (note_candidate-kept now (note_snapshot snapshot now e))
        | inr k ↦ rw k (note_candidate-kept now (note_snapshot snapshot now e))
      ])
]

begin_code-kept : (now : ℕ) (code : String) (e : Entry) → kept (begin_code now code e).0 ≡ kept e
unfolding begin_code
begin_code-kept now code e =
    let k : Entry × Result CodeRefusal (Unit {0}) → Kept = λ p. kept p.0 in
    if-both k (not (matches_code code)) refl (
      if-both k (is_gone now e) refl (
        if-both k e.code_in_flight refl
          (if-both k e.code_submitted refl (if-both k (ltb 8 (suc e.code_attempts)) refl refl))))

begun_code-ledger :
    (s : Session) (p : Entry × Result CodeRefusal (Unit {0}))
    → kept p.0 ≡ kept s.entry
    → ledger (begun_code s p) ≡ ledger s
unfolding begun_code
begun_code-ledger s (e, ok _) h =
    ap (λ (k : Kept). record { kept = k; acting = s.acting; calls = s.action_calls }) h
begun_code-ledger s (e, err _) h =
    ap (λ (k : Kept). record { kept = k; acting = s.acting; calls = s.action_calls }) h

show_code-ledger : (s : Session) (o : Option AuthSnapshot) → ledger (show_code s o) ≡ ledger s
unfolding show_code finish_code
show_code-ledger s none = refl
show_code-ledger s (some snapshot) = if-both ledger (accepts_code snapshot) refl refl

-- An event that concerns no action.
abbrev pub IsElsewhere : Event → Type 0
IsElsewhere (asks_action now id confirmed) = ⊥
IsElsewhere (shows_action now shown capable) = ⊥
IsElsewhere (answers_action failure) = ⊥
IsElsewhere _ = Unit

pub happen-ledger : (s : Session) (e : Event) → IsElsewhere e → ledger (happen s e) ≡ ledger s
unfolding happen answer_code finish_code
happen-ledger s (observes snapshot now) u =
    ap (λ (k : Kept). record { kept = k; acting = s.acting; calls = s.action_calls })
      (observe-kept snapshot now s.entry)
happen-ledger s closes u = refl
happen-ledger s (asks_action now id confirmed) u = absurd u
happen-ledger s (shows_action now shown capable) u = absurd u
happen-ledger s (answers_action failure) u = absurd u
happen-ledger s (asks_code now code) u =
    begun_code-ledger s (begin_code now code s.entry) (begin_code-kept now code s.entry)
happen-ledger s (shows_code shown) u =
    elim s.coding
      as (λ x.
        ledger (elim x as (λ _. Session) [
          | coding_none ↦ s
          | coding_looks ↦ show_code s shown
          | coding_calls ↦ s
        ])
        ≡ ledger s) [
          | coding_none ↦ refl
          | coding_looks ↦ show_code-ledger s shown
          | coding_calls ↦ refl
        ]
happen-ledger s (answers_code failure) u =
    elim s.coding
      as (λ x.
        ledger (elim x as (λ _. Session) [
          | coding_none ↦ s
          | coding_looks ↦ s
          | coding_calls ↦ answer_code s failure
        ])
        ≡ ledger s) [ coding_none ↦ refl | coding_looks ↦ refl | coding_calls ↦ refl ]
