-- ===== src/Control/Gone.antt =====
-- What a removal that succeeds has done.
use wechatcopilot.Prelude.{
  String, Bool, true, false, Option, none, some, ◌≡◌, refl, ap, subst, ◌∙◌, inl, inr, Result, In,
  ok, err, Bool-cases,
}
use wechatcopilot.Account.Registry.{Account, Store}
use wechatcopilot.Account.Registry as Registry
use wechatcopilot.Account.Names.{is_id}
use wechatcopilot.Account.Update.{resolve}
use wechatcopilot.Account.Deletion.{Root, begin_delete, finalize_delete}
use wechatcopilot.Account.Keys.{IsWellFormed}
use wechatcopilot.Account.Gone.{IsGone, finalize_delete-IsGone}
use wechatcopilot.Account.Targets.{finalize_delete-target}
use wechatcopilot.Control.Targets.{Begun, begin_delete_account-Begun, begun-named}
use wechatcopilot.Runtime.{Manager, Error, Answers}
use wechatcopilot.Runtime.Lifecycle.{
  Outcome, with_accounts, begun_delete, begin_delete_locked, begin_delete_found,
  begin_delete_account,
}
use wechatcopilot.Runtime.Closing.{purge}
use wechatcopilot.Send.Failure.{app, code_invalid_argument, code_confirmation_required}
use wechatcopilot.Control.{
  Served, Removing, record_removal_failure, finalize_answer, after_purge, removal_begun,
  remove_account,
}

-- The drivers and the slots are as they were.
abbrev SameDrivers : Manager → Manager → Type 0
SameDrivers m n = (n.running ≡ m.running) × (n.active ≡ m.active)

begun_delete-SameDrivers :
    (m : Manager) (o : Store × Result Registry.Error Account) → SameDrivers m (begun_delete m o).0
unfolding begun_delete with_accounts
begun_delete-SameDrivers m (s, err e) = (refl, refl)
begun_delete-SameDrivers m (s, ok a) = (refl, refl)

begin_delete_locked-SameDrivers :
    (w : Answers) (m : Manager) (o : Result Registry.Error Account)
    → SameDrivers m (begin_delete_locked w m o).0
unfolding begin_delete_locked
begin_delete_locked-SameDrivers w m (err e) = (refl, refl)
begin_delete_locked-SameDrivers w m (ok a) =
    begun_delete-SameDrivers m (begin_delete m.accounts a.id w.now w.status_written)

begin_delete_found-SameDrivers :
    (w : Answers) (m : Manager) (o : Result Registry.Error Account)
    → SameDrivers m (begin_delete_found w m o).0
unfolding begin_delete_found
begin_delete_found-SameDrivers w m (err e) = (refl, refl)
begin_delete_found-SameDrivers w m (ok a) =
    begin_delete_locked-SameDrivers w m (resolve m.accounts a.id)

module _ (is_missing : Error → Bool) (wording : Error → String)
    (relative : Root → String → Option String) where
  -- A removal that went through: the account that the value names got the marker, its purge went well, and nothing of it
  -- is left.
  pub record IsRemoved (w : Removing is_missing wording) (m : Manager) (value : String)
      (n : Manager) (removed : Account) : Type 0 where
    pub exact : is_id value ≡ true
    pub named : Account
    pub found : resolve m.accounts value ≡ ok named
    pub same : removed.id ≡ named.id
    pub item : Account
    pub marked : (begin_delete_account w.answers m value).1 ≡ ok item
    pub purged : purge w.answers w.purging (begin_delete_account w.answers m value).0 item.id ≡ none
    pub gone : IsGone removed.id n.accounts
    pub running_kept : n.running ≡ m.running
    pub slots_kept : n.active ≡ m.active

  abbrev Leaves : Manager → Account → Served Account → Type 0
  Leaves m item (n, ok removed) =
      IsGone removed.id n.accounts × SameDrivers m n × (removed.id ≡ item.id)
  Leaves m item (n, err e) = Unit

  finalize_answer-Leaves :
      (w : Removing is_missing wording) (m : Manager) (item : Account)
      (o : Store × Result Registry.Error Account)
      → ((t : Store) (a : Account) → o ≡ (t, ok a) → IsGone a.id t × (a.id ≡ item.id))
      → Leaves m item (finalize_answer is_missing wording relative w m item o)
  unfolding finalize_answer with_accounts record_removal_failure
  finalize_answer-Leaves w m item (s, ok a) gone =
      ((gone s a refl).0, (refl, refl), (gone s a refl).1)
  finalize_answer-Leaves w m item (s, err e) gone = tt

  -- The answer of a removal behind its marker.
  abbrev Purged : Removing is_missing wording → Manager → Account → Served Account → Type 0
  Purged w m item (n, ok removed) =
      (purge w.answers w.purging m item.id ≡ none)
      × IsGone removed.id n.accounts
      × SameDrivers m n
      × (removed.id ≡ item.id)
  Purged w m item (n, err e) = Unit

  with_purge :
      (w : Removing is_missing wording) (m : Manager) (item : Account) (o : Served Account)
      → purge w.answers w.purging m item.id ≡ none
      → Leaves m item o
      → Purged w m item o
  with_purge w m item (n, ok removed) p h = (p, h.0, h.1, h.2)
  with_purge w m item (n, err e) p h = tt

  after_purge-Purged :
      (w : Removing is_missing wording) (m : Manager) (item : Account) (o : Option Error)
      → IsWellFormed m.accounts.registry.accounts
      → In item m.accounts.registry.accounts
      → purge w.answers w.purging m item.id ≡ o
      → Purged w m item (after_purge is_missing wording relative w m item o)
  unfolding after_purge record_removal_failure
  after_purge-Purged w m item (some e) formed i p = tt
  after_purge-Purged w m item none formed i p =
      let o = finalize_delete relative m.accounts item.id w.removal in
      with_purge w m item (finalize_answer is_missing wording relative w m item o) p (
        finalize_answer-Leaves w m item o (λ t a e. (
          finalize_delete-IsGone relative m.accounts t item.id w.removal a e,
          finalize_delete-target relative m.accounts t item a w.removal formed i e,
        )))

  removal_from :
      (w : Removing is_missing wording) (m n : Manager) (value : String) (removed named : Account)
      (o : Outcome Account)
      → resolve m.accounts value ≡ ok named
      → begin_delete_account w.answers m value ≡ o
      → Begun named.id o
      → SameDrivers m o.0
      → is_id value ≡ true
      → removal_begun is_missing wording relative w o ≡ (n, ok removed)
      → IsRemoved w m value n removed
  unfolding removal_begun
  removal_from w m n value removed named (l, err e) found begun b same exact h = absurd (lost h)
    where
      lost : removal_begun is_missing wording relative w (l, err e) ≡ (n, ok removed) → ⊥
      lost q = cc
  removal_from w m n value removed named (l, ok item) found begun b same exact h =
      let v : Purged w l item (n, ok removed) =
        subst (Purged w l item) h
          (after_purge-Purged w l item (purge w.answers w.purging l item.id) b.2 b.1 refl) in
      record {
        exact = exact;
        named = named;
        found = found;
        same = v.3 ∙ b.0;
        item = item;
        marked = ap (λ (x : Outcome Account). x.1) begun;
        purged = ap (λ (x : Outcome Account). purge w.answers w.purging x.0 item.id) begun ∙ v.0;
        gone = v.1;
        running_kept = v.2.0 ∙ same.0;
        slots_kept = v.2.1 ∙ same.1;
      }

  begin_delete_account-SameDrivers :
      (w : Answers) (m : Manager) (value : String)
      → SameDrivers m (begin_delete_account w m value).0
  unfolding begin_delete_account
  begin_delete_account-SameDrivers w m value =
      begin_delete_found-SameDrivers w m (resolve m.accounts value)

  -- A call behind the checks of the arguments.
  removal_from-outcome :
      (w : Removing is_missing wording) (m n : Manager) (value : String) (removed : Account)
      (o : Outcome Account)
      → IsWellFormed m.accounts.registry.accounts
      → begin_delete_account w.answers m value ≡ o
      → is_id value ≡ true
      → removal_begun is_missing wording relative w o ≡ (n, ok removed)
      → IsRemoved w m value n removed
  unfolding removal_begun
  removal_from-outcome w m n value removed (l, err e) formed begun exact h = absurd (lost h)
    where
      lost : removal_begun is_missing wording relative w (l, err e) ≡ (n, ok removed) → ⊥
      lost q = cc
  removal_from-outcome w m n value removed (l, ok item) formed begun exact h =
      let (named, found) = begun-named w.answers m l value item begun in
      removal_from w m n value removed named (l, ok item) found begun
        (subst (Begun named.id) begun
          (begin_delete_account-Begun relative w.answers m value named formed found))
        (subst (λ (x : Outcome Account). SameDrivers m x.0) begun
          (begin_delete_account-SameDrivers w.answers m value))
        exact h

  -- A removal over a well-formed registry that answers with an account was confirmed, asked for a purge, and was given a
  -- value of the form of an identifier. It removed the account that the value names, by its identifier or by its alias:
  -- the marker was set before the driver had purged the runtime, and then neither an entry nor a directory of that account
  -- was left, and no driver and no slot had changed.
  pub remove_account-IsRemoved :
      (w : Removing is_missing wording) (m n : Manager) (value : String) (purges confirmed : Bool)
      (removed : Account)
      → IsWellFormed m.accounts.registry.accounts
      → remove_account is_missing wording relative w m value purges confirmed ≡ (n, ok removed)
      → (confirmed ≡ true) × (purges ≡ true) × IsRemoved w m value n removed
  unfolding remove_account
  remove_account-IsRemoved w m n value purges false removed formed h = absurd (refused h)
    where
      refused :
          ◌≡◌ {A = Served Account} (m, err (app 409 code_confirmation_required)) (n, ok removed) → ⊥
      refused q = cc
  remove_account-IsRemoved w m n value false true removed formed h = absurd (refused h)
    where
      refused :
          ◌≡◌ {A = Served Account} (m, err (app 400 code_invalid_argument)) (n, ok removed) → ⊥
      refused q = cc
  remove_account-IsRemoved w m n value true true removed formed h =
      elim (Bool-cases (is_id value)) [
        | inr i ↦ absurd (refused (rw i at h))
        | inl i ↦ (
          refl,
          refl,
          removal_from-outcome w m n value removed (begin_delete_account w.answers m value) formed
              refl i (rw i at h),
        )
      ]
    where
      refused :
          ◌≡◌ {A = Served Account} (m, err (app 400 code_invalid_argument)) (n, ok removed) → ⊥
      refused q = cc
