-- ===== src/Account/Evolution.antt =====
-- The changes that calls make of an entry evolve it.
use wechatcopilot.Prelude.{
  ℕ, String, false, ◌&&◌, ◌==◌, ◌≡◌, refl, inl, inr, text_cases, Bool-cases,
}
use wechatcopilot.Driver.{Status}
use wechatcopilot.Account.Registry.{Account}
use wechatcopilot.Account.Update.{stop_entry, start_entry, set_status}
use wechatcopilot.Account.Deletion.{failure_entry, mark_entry}
use wechatcopilot.Account.Keys.{Evolves, Evolves-refl}
use wechatcopilot.Account.Loops.{activated, deactivated}

stop_entry-Evolves : (now : ℕ) (a : Account) → Evolves a (stop_entry now a)
unfolding stop_entry
stop_entry-Evolves now a = record {
  same_id = refl;
  same_alias = refl;
  same_platform = refl;
  marked = λ h. h;
  still_quiet = λ q h. (refl, refl);
}

start_entry-Evolves : (now : ℕ) (a : Account) → a.deleting ≡ false → Evolves a (start_entry now a)
unfolding start_entry
start_entry-Evolves now a idle = record {
  same_id = refl;
  same_alias = refl;
  same_platform = refl;
  marked = λ h. h;
  still_quiet = λ q h. cc;
}

pub deactivated-Evolves : (now : ℕ) (id : String) (a : Account) → Evolves a (deactivated now id a)
deactivated-Evolves now id a = elim (Bool-cases (a.id == id)) [
  | inl h ↦ simp h (stop_entry-Evolves now a)
  | inr h ↦ simp h (Evolves-refl a)
]

pub activated-Evolves :
    (now : ℕ) (target a : Account)
    → (a.id ≡ target.id → a.deleting ≡ false)
    → Evolves a (activated now target.id target.platform a)
activated-Evolves now target a idle = elim (text_cases a.id target.id) [
  | inl (h, e) ↦ simp h (start_entry-Evolves now a (idle e))
  | inr (h, _) ↦ simp h (elim (Bool-cases (a.platform == target.platform && a.active)) [
    | inl r ↦ simp r (stop_entry-Evolves now a)
    | inr r ↦ simp r (Evolves-refl a)
  ])
]

pub set_status-Evolves :
    (status : Status) (now : ℕ) (a : Account)
    → a.deleting ≡ false
    → Evolves a (set_status status now a)
unfolding set_status
set_status-Evolves status now a idle = record {
  same_id = refl;
  same_alias = refl;
  same_platform = refl;
  marked = λ h. h;
  still_quiet = λ q h. cc;
}

pub failure_entry-Evolves :
    (failure : String) (now : ℕ) (a : Account) → Evolves a (failure_entry failure now a)
unfolding failure_entry
failure_entry-Evolves failure now a = record {
  same_id = refl;
  same_alias = refl;
  same_platform = refl;
  marked = λ h. h;
  still_quiet = λ q h. q h;
}

pub mark_entry-Evolves : (now : ℕ) (a : Account) → Evolves a (mark_entry now a)
unfolding mark_entry
mark_entry-Evolves now a = record {
  same_id = refl;
  same_alias = refl;
  same_platform = refl;
  marked = λ h. refl;
  still_quiet = λ q h. (refl, refl);
}
