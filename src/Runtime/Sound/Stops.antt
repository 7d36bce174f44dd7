-- ===== src/Runtime/Sound/Stops.antt =====
-- Deactivation, the deletion marker and the repair of an ingest loop keep the manager sound.
use wechatcopilot.Prelude.{
  String, true, Option, none, some, ◌==◌, ◌≡◌, refl, ◌⊎◌, inl, inr, Result, ok, err, dict_get,
  Bool-cases,
}
use wechatcopilot.Account.Registry.{Account, Store}
use wechatcopilot.Account.Registry as Registry
use wechatcopilot.Account.Update.{resolve, deactivate}
use wechatcopilot.Account.Deletion.{Root, begin_delete}
use wechatcopilot.Account.Keys.{IsWellFormed}
use wechatcopilot.Account.Calls as Calls
use wechatcopilot.Runtime.{
  ActiveRuntime, Repair, Manager, Error, Answers, stop_runtime, keep_stopped, clear_slot,
  start_ingest,
}
use wechatcopilot.Runtime.Lifecycle.{
  deactivated_entry, deactivate_free, deactivate_stopped, deactivate_slot, deactivate_locked,
  deactivate_found, deactivate_account, begun_delete, begin_delete_locked, begin_delete_found,
  begin_delete_account, may_repair, repaired, repair,
}
use wechatcopilot.Runtime.Sound.{Reaches, step-Reaches, with_accounts-IsSound}
use wechatcopilot.Runtime.Sound.Slots.{IsFree, stop_runtime-account, put_slot-IsSlotted}
use wechatcopilot.Runtime.Sound.Steps.{Sound, keep_stopped-Sound, clear_slot-Sound, stopped_slot}

module _ (relative : Root → String → Option String) (base : Store)
    (formed : IsWellFormed base.registry.accounts) where
  abbrev Kept : Manager → Type 0
  Kept m = Sound relative base formed m

  deactivated_entry-Sound :
      (m : Manager) (o : Store × Result Registry.Error Account)
      → Reaches relative m.accounts o.0
      → Kept m
      → Kept (deactivated_entry m o).0
  unfolding deactivated_entry
  deactivated_entry-Sound m (s, err e) r v = with_accounts-IsSound relative base s m r v
  deactivated_entry-Sound m (s, ok a) r v = with_accounts-IsSound relative base s m r v

  deactivate_free-Sound :
      (w : Answers) (target : Account) (m : Manager) → Kept m → Kept (deactivate_free w target m).0
  unfolding deactivate_free
  deactivate_free-Sound w target m v =
      deactivated_entry-Sound m (deactivate m.accounts target.id w.now w.deactivate_written)
        (unfold Calls.step in
          step-Reaches relative m.accounts w.now (Calls.deactivates target.id w.deactivate_written))
        v

  deactivate_stopped-Sound :
      (w : Answers) (target : Account) (m : Manager) (o : Option Error)
      → (o ≡ none → (m.closed ≡ true) ⊎ IsFree target.platform m.running)
      → Kept m
      → Kept (deactivate_stopped w target m o).0
  unfolding deactivate_stopped
  deactivate_stopped-Sound w target m (some e) free v = v
  deactivate_stopped-Sound w target m none free v =
      deactivate_free-Sound w target (clear_slot target.platform m)
        (clear_slot-Sound relative base formed m target.platform (free refl) v)

  deactivate_slot-Sound :
      (w : Answers) (target : Account) (m : Manager) (o : Option ActiveRuntime)
      → dict_get m.active target.platform ≡ o
      → Kept m
      → Kept (deactivate_slot w target m o).0
  unfolding deactivate_slot keep_stopped
  deactivate_slot-Sound w target m none slot v = deactivate_free-Sound w target m v
  deactivate_slot-Sound w target m (some r) slot v =
      let s = stop_runtime w true r in
      let same = stop_runtime-account w true r in
      elim (Bool-cases (r.account.id == target.id)) [
        | inl h ↦ rw h (
            deactivate_stopped-Sound w target (keep_stopped target.platform s m) s.failure
              (λ e. stopped_slot relative base formed m target.platform r s slot same e v)
              (keep_stopped-Sound relative base formed m target.platform r s slot same v))
        | inr h ↦ rw h (deactivate_free-Sound w target m v)
      ]

  deactivate_locked-Sound :
      (w : Answers) (m : Manager) (o : Result Registry.Error Account)
      → Kept m
      → Kept (deactivate_locked w m o).0
  unfolding deactivate_locked
  deactivate_locked-Sound w m (err e) v = v
  deactivate_locked-Sound w m (ok target) v = elim (Bool-cases target.deleting) [
    | inl d ↦ simp d v
    | inr d ↦ simp d (deactivate_slot-Sound w target m (dict_get m.active target.platform) refl v)
  ]

  deactivate_found-Sound :
      (w : Answers) (m : Manager) (o : Result Registry.Error Account)
      → Kept m
      → Kept (deactivate_found w m o).0
  unfolding deactivate_found
  deactivate_found-Sound w m (err e) v = v
  deactivate_found-Sound w m (ok target) v = elim (Bool-cases target.deleting) [
    | inl d ↦ simp d v
    | inr d ↦ simp d (elim (Bool-cases w.locks) [
      | inl l ↦ simp l (deactivate_locked-Sound w m (resolve m.accounts target.id) v)
      | inr l ↦ simp l v
    ])
  ]

  pub deactivate_account-Sound :
      (w : Answers) (m : Manager) (value : String) → Kept m → Kept (deactivate_account w m value).0
  unfolding deactivate_account
  deactivate_account-Sound w m value v = deactivate_found-Sound w m (resolve m.accounts value) v

  begun_delete-Sound :
      (m : Manager) (o : Store × Result Registry.Error Account)
      → Reaches relative m.accounts o.0
      → Kept m
      → Kept (begun_delete m o).0
  unfolding begun_delete
  begun_delete-Sound m (s, err e) r v = with_accounts-IsSound relative base s m r v
  begun_delete-Sound m (s, ok a) r v = with_accounts-IsSound relative base s m r v

  begin_delete_locked-Sound :
      (w : Answers) (m : Manager) (o : Result Registry.Error Account)
      → Kept m
      → Kept (begin_delete_locked w m o).0
  unfolding begin_delete_locked
  begin_delete_locked-Sound w m (err e) v = v
  begin_delete_locked-Sound w m (ok target) v =
      begun_delete-Sound m (begin_delete m.accounts target.id w.now w.status_written)
        (unfold Calls.step in
          step-Reaches relative m.accounts w.now (Calls.begins_delete target.id w.status_written))
        v

  begin_delete_found-Sound :
      (w : Answers) (m : Manager) (o : Result Registry.Error Account)
      → Kept m
      → Kept (begin_delete_found w m o).0
  unfolding begin_delete_found
  begin_delete_found-Sound w m (err e) v = v
  begin_delete_found-Sound w m (ok target) v =
      begin_delete_locked-Sound w m (resolve m.accounts target.id) v

  pub begin_delete_account-Sound :
      (w : Answers) (m : Manager) (value : String)
      → Kept m
      → Kept (begin_delete_account w m value).0
  unfolding begin_delete_account
  begin_delete_account-Sound w m value v = begin_delete_found-Sound w m (resolve m.accounts value) v

  repaired-Sound :
      (platform : String) (m : Manager) (o : Option ActiveRuntime)
      → dict_get m.active platform ≡ o
      → Kept m
      → Kept (repaired platform o m)
  unfolding repaired start_ingest
  repaired-Sound platform m none e v = v
  repaired-Sound platform m (some r) e v = record {
    reached = v.reached;
    slotted = put_slot-IsSlotted m platform r (start_ingest r) e refl v.slotted;
  }

  pub repair-Sound : (p : Repair) (m : Manager) → Kept m → Kept (repair p m)
  unfolding repair
  repair-Sound p m v = elim (Bool-cases (may_repair p m (resolve m.accounts p.account_id))) [
    | inl h ↦ rw h (repaired-Sound p.platform m (dict_get m.active p.platform) refl v)
    | inr h ↦ rw h v
  ]
