-- ===== src/Control/Targets.antt =====
-- Which account a removal marks before its purge.
use wechatcopilot.Prelude.{String, Option, ◌≡◌, inl, inr, Result, ok, err, In, Result-cases}
use wechatcopilot.Account.Registry.{Account, Store}
use wechatcopilot.Account.Registry as Registry
use wechatcopilot.Account.Keys.{IsWellFormed}
use wechatcopilot.Account.Update.{resolve}
use wechatcopilot.Account.Deletion.{Root, begin_delete}
use wechatcopilot.Account.Calls as Calls
use wechatcopilot.Account.Found.{find_account-In, resolve-own}
use wechatcopilot.Account.Invariant.{step-IsWellFormed}
use wechatcopilot.Account.Targets.{Begins, begin_delete-Begins}
use wechatcopilot.Runtime.{Manager, registry, Answers}
use wechatcopilot.Runtime.Lifecycle.{
  Outcome, with_accounts, begun_delete, begin_delete_locked, begin_delete_found,
  begin_delete_account,
}

pub resolve-In :
    (s : Store) (value : String) (a : Account) → resolve s value ≡ ok a → In a s.registry.accounts
unfolding resolve
resolve-In s value a h = find_account-In value s.registry.accounts a h

-- What the marker was set on: an entry of a well-formed registry, with the identifier of the account.
abbrev pub Begun : String → Outcome Account → Type 0
Begun id (l, ok item) =
    (item.id ≡ id)
    × In item l.accounts.registry.accounts
    × IsWellFormed l.accounts.registry.accounts
Begun id (l, err e) = Unit

begun_delete-Begun :
    (m : Manager) (id : String) (o : Store × Result Registry.Error Account)
    → Begins id o
    → IsWellFormed o.0.registry.accounts
    → Begun id (begun_delete m o)
unfolding begun_delete with_accounts
begun_delete-Begun m id (s, err e) h w = tt
begun_delete-Begun m id (s, ok item) h w = (h.0, h.1, w)

pub begin_delete_account-Begun :
    (relative : Root → String → Option String) (w : Answers) (m : Manager) (value : String)
    (named : Account)
    → IsWellFormed m.accounts.registry.accounts
    → resolve m.accounts value ≡ ok named
    → Begun named.id (begin_delete_account w m value)
unfolding begin_delete_account begin_delete_found begin_delete_locked
begin_delete_account-Begun relative w m value named formed found =
    let i = resolve-In m.accounts value named found in
    rw (found, begin_delete_found)
      (rw ((resolve-own m.accounts named formed i).0, begin_delete_locked)
        (begun_delete-Begun m named.id (begin_delete m.accounts named.id w.now w.status_written)
          (begin_delete-Begins m.accounts named w.now w.status_written formed i)
          (unfold Calls.step in
            step-IsWellFormed relative m.accounts w.now
              (Calls.begins_delete named.id w.status_written) formed)))

-- A call that sets the marker has found the account that the value names.
pub begun-named :
    (w : Answers) (m l : Manager) (value : String) (item : Account)
    → begin_delete_account w m value ≡ (l, ok item)
    → (named : Account) × (resolve m.accounts value ≡ ok named)
unfolding begin_delete_account begin_delete_found
begun-named w m l value item h = elim (Result-cases (resolve m.accounts value)) [
  | inl (named, e) ↦ (named, e)
  | inr (x, e) ↦ absurd (failed x (rw (e, begin_delete_found) at h))
]
  where
    failed : (x : Registry.Error) → ◌≡◌ {A = Outcome Account} (m, err (registry x)) (l, ok item) → ⊥
    failed x q = cc
