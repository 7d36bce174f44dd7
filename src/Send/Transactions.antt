-- ===== src/Send/Transactions.antt =====
-- internal/service/transactions.go: the prepared transactions, their expiry and their cleanup.
pub mod Frame
use wechatcopilot.Prelude.{
  ℕ, String, Bool, true, false, not, ◌&&◌, ◌||◌, Option, none, some, List, [], ◌∷◌, ◌==◌, leb, Dict,
  dict_get, dict_put, dict_remove, if◌then◌else◌, Result, ok, err,
}
use wechatcopilot.Driver.{Attachment}
use wechatcopilot.Account.Registry.{Store}
use wechatcopilot.Account.Deletion.{remove_dir}
use wechatcopilot.Journal.{Codec, Journal}

pub record PreparedAttachment : Type 0 where
  pub name : String
  pub size : ℕ
  pub sha256 : String

pub record PreparedSend : Type 0 where
  pub id : String
  pub account_id : String
  pub account_alias : String
  pub conversation_id : String
  pub conversation_title : String
  pub text : String
  pub attachments : List PreparedAttachment
  pub share_surface_id : String
  pub warnings : List String
  pub request_hash : String
  pub expires_at : ℕ

pub record PreparedTransaction : Type 0 where
  pub preview : PreparedSend
  pub attachments : List Attachment
  pub stage_dir : String
  pub committing : Bool

-- A call of a driver's `Send`: the account, the transaction and the key that it was made for, and
-- whether the driver may have sent the message.
pub record Sending : Type 0 where
  pub account_id : String
  pub transaction_id : String
  pub idempotency_key : String
  pub maybe_sent : Bool

-- What the service keeps: the accounts, the transactions, the staging directories that exist, and the
-- journal in each account's index. `sendings` is the history of the calls of `Send`, oldest first.
pub record Service (c : Codec) : Type 0 where
  pub accounts : Store
  pub transactions : Dict PreparedTransaction
  pub stage_dirs : List String
  pub journals : String → Journal c
  pub sendings : List Sending

-- `!now.Before(ExpiresAt)`
abbrev pub is_over : ℕ → PreparedTransaction → Bool
is_over now t = leb t.preview.expires_at now

module _ {c : Codec} where
  drop_transaction : String → PreparedTransaction → Service c → Service c
  drop_transaction id t s = record s {
    transactions = dict_remove s.transactions id;
    stage_dirs = if t.stage_dir == "" then s.stage_dirs else remove_dir t.stage_dir s.stage_dirs;
  }

  cleanup_found :
      Bool
      → String
      → Option PreparedTransaction
      → Service c
      → Service c × Result (Unit {0}) (Unit {0})
  unfolding drop_transaction
  cleanup_found removed id none s = (s, ok tt)
  cleanup_found removed id (some t) s =
      if not (t.stage_dir == "") && not removed
      then (s, err tt)
      else (drop_transaction id t s, ok tt)

  -- `cleanupTransactionLocked`; `removed` says whether the staging directory can be removed.
  unfoldable pub cleanup_transaction_locked :
      Bool → String → Service c → Service c × Result (Unit {0}) (Unit {0})
  unfolding cleanup_found
  cleanup_transaction_locked removed id s = cleanup_found removed id (dict_get s.transactions id) s

  expire_at_once : String → Option PreparedTransaction → Service c → Service c
  expire_at_once id none s = s
  expire_at_once id (some t) s = record s {
    transactions =
        dict_put s.transactions id (record t { preview = record t.preview { expires_at = 0 } });
  }

  after_cleanup : String → Service c × Result (Unit {0}) (Unit {0}) → Service c
  unfolding expire_at_once
  after_cleanup id (s, ok _) = s
  after_cleanup id (s, err _) = expire_at_once id (dict_get s.transactions id) s

  -- `cleanupTransaction`: what cannot be cleaned up now expires at once.
  unfoldable pub cleanup_transaction : Bool → String → Service c → Service c
  unfolding cleanup_transaction_locked after_cleanup
  cleanup_transaction removed id s = after_cleanup id (cleanup_transaction_locked removed id s)

  release_found : ℕ → Bool → String → Option PreparedTransaction → Service c → Service c
  release_found now removed id none s = s
  release_found now removed id (some t) s =
      let s' = record s {
        transactions = dict_put s.transactions id (record t { committing = false });
      } in
      if is_over now t then (cleanup_transaction_locked removed id s').0 else s'

  -- `releaseTransactionCommit`
  unfoldable pub release_transaction_commit : ℕ → Bool → String → Service c → Service c
  unfolding release_found
  release_transaction_commit now removed id s =
      release_found now removed id (dict_get s.transactions id) s

  prune_each : ℕ → (String → Bool) → Dict PreparedTransaction → Service c → Service c
  prune_each now removed [] s = s
  prune_each now removed ((id, t) ∷ rest) s = prune_each now removed rest (
      if not t.committing && is_over now t
      then (cleanup_transaction_locked (removed id) id s).0
      else s)

  -- `pruneTransactionsLocked`
  unfoldable pub prune_transactions_locked : ℕ → (String → Bool) → Service c → Service c
  unfolding prune_each
  prune_transactions_locked now removed s = prune_each now removed s.transactions s
