-- ===== src/Send/Transactions/Frame.antt =====
-- The care of the transactions touches neither the journals nor the history of sends.
use wechatcopilot.Prelude.{
  ℕ, String, Bool, false, not, ◌&&◌, Option, none, some, [], ◌∷◌, ◌==◌, ◌≡◌, refl, ◌∙◌, inl, inr,
  Dict, dict_get, dict_put, Result, ok, err, Bool-cases,
}
use wechatcopilot.Journal.{Codec}
use wechatcopilot.Send.Transactions.{
  Service, PreparedTransaction, is_over, cleanup_transaction_locked, cleanup_transaction,
  cleanup_found, after_cleanup, release_transaction_commit, release_found,
  prune_transactions_locked, prune_each, drop_transaction, expire_at_once,
}

pub record KeepsSends {c : Codec} (s t : Service c) : Type 0 where
  pub same_journals : t.journals ≡ s.journals
  pub same_sendings : t.sendings ≡ s.sendings

module _ {c : Codec} where
  pub KeepsSends-refl : (s : Service c) → KeepsSends s s
  KeepsSends-refl s = record { same_journals = refl; same_sendings = refl }

  pub KeepsSends-trans : (s t u : Service c) → KeepsSends s t → KeepsSends t u → KeepsSends s u
  KeepsSends-trans s t u k l = record {
    same_journals = l.same_journals ∙ k.same_journals;
    same_sendings = l.same_sendings ∙ k.same_sendings;
  }

  cleanup_found-KeepsSends :
      (removed : Bool) (id : String) (o : Option PreparedTransaction) (s : Service c)
      → KeepsSends s (cleanup_found removed id o s).0
  unfolding cleanup_found drop_transaction
  cleanup_found-KeepsSends removed id none s = KeepsSends-refl s
  cleanup_found-KeepsSends removed id (some t) s =
      elim (Bool-cases (not (t.stage_dir == "") && not removed)) [
        | inl h ↦ rw h (KeepsSends-refl s)
        | inr h ↦ rw h (record { same_journals = refl; same_sendings = refl })
      ]

  pub cleanup_locked-KeepsSends :
      (removed : Bool) (id : String) (s : Service c)
      → KeepsSends s (cleanup_transaction_locked removed id s).0
  unfolding cleanup_transaction_locked
  cleanup_locked-KeepsSends removed id s =
      cleanup_found-KeepsSends removed id (dict_get s.transactions id) s

  expire_at_once-KeepsSends :
      (id : String) (o : Option PreparedTransaction) (s : Service c)
      → KeepsSends s (expire_at_once id o s)
  unfolding expire_at_once
  expire_at_once-KeepsSends id none s = KeepsSends-refl s
  expire_at_once-KeepsSends id (some t) s = record { same_journals = refl; same_sendings = refl }

  after_cleanup-KeepsSends :
      (id : String) (s : Service c) (r : Result (Unit {0}) (Unit {0}))
      → KeepsSends s (after_cleanup id (s, r))
  unfolding after_cleanup
  after_cleanup-KeepsSends id s (ok _) = KeepsSends-refl s
  after_cleanup-KeepsSends id s (err _) =
      expire_at_once-KeepsSends id (dict_get s.transactions id) s

  pub cleanup-KeepsSends :
      (removed : Bool) (id : String) (s : Service c)
      → KeepsSends s (cleanup_transaction removed id s)
  unfolding cleanup_transaction
  cleanup-KeepsSends removed id s =
      let (s', r) = cleanup_transaction_locked removed id s in
      KeepsSends-trans s s' _ (cleanup_locked-KeepsSends removed id s)
        (after_cleanup-KeepsSends id s' r)

  release_found-KeepsSends :
      (now : ℕ) (removed : Bool) (id : String) (o : Option PreparedTransaction) (s : Service c)
      → KeepsSends s (release_found now removed id o s)
  unfolding release_found
  release_found-KeepsSends now removed id none s = KeepsSends-refl s
  release_found-KeepsSends now removed id (some t) s =
      let s' = record s {
        transactions = dict_put s.transactions id (record t { committing = false });
      } in
      let k : KeepsSends s s' = record { same_journals = refl; same_sendings = refl } in
      elim (Bool-cases (is_over now t)) [
        | inl h ↦ rw h (KeepsSends-trans s s' _ k (cleanup_locked-KeepsSends removed id s'))
        | inr h ↦ rw h k
      ]

  pub release-KeepsSends :
      (now : ℕ) (removed : Bool) (id : String) (s : Service c)
      → KeepsSends s (release_transaction_commit now removed id s)
  unfolding release_transaction_commit
  release-KeepsSends now removed id s =
      release_found-KeepsSends now removed id (dict_get s.transactions id) s

  prune_each-KeepsSends :
      (now : ℕ) (removed : String → Bool) (m : Dict PreparedTransaction) (s : Service c)
      → KeepsSends s (prune_each now removed m s)
  unfolding prune_each
  prune_each-KeepsSends now removed [] s = KeepsSends-refl s
  prune_each-KeepsSends now removed ((id, t) ∷ m) s =
      elim (Bool-cases (not t.committing && is_over now t)) [
        | inl h ↦ rw h (
            KeepsSends-trans s (cleanup_transaction_locked (removed id) id s).0 _
              (cleanup_locked-KeepsSends (removed id) id s) (prune_each-KeepsSends now removed m _))
        | inr h ↦ rw h (prune_each-KeepsSends now removed m s)
      ]

  pub prune-KeepsSends :
      (now : ℕ) (removed : String → Bool) (s : Service c)
      → KeepsSends s (prune_transactions_locked now removed s)
  unfolding prune_transactions_locked
  prune-KeepsSends now removed s = prune_each-KeepsSends now removed s.transactions s
