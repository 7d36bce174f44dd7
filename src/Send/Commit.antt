-- ===== src/Send/Commit.antt =====
-- `CommitSend`, `findCommittedSend` and `sendOutcome` of internal/service/service.go.
use wechatcopilot.Prelude.{
  ℕ, String, Bool, true, false, not, ◌&&◌, ◌||◌, Option, none, some, List, [], ◌∷◌, ◌++◌, ◌==◌, ltb,
  dict_get, dict_put, if◌then◌else◌, Result, ok, err, is_blank,
}
use Prim.Native.String
use wechatcopilot.Driver.{Attachment, SendResult, DriverError}
use wechatcopilot.Account.Registry.{Account}
use wechatcopilot.Account.Registry as Registry
use wechatcopilot.Account.Update.{resolve}
use wechatcopilot.Journal.{
  Codec, Journal, Error, get_send_result, get_send_result_for_transaction, reserve_send,
  finalize_send, delete_send_reservation,
}
use wechatcopilot.Send.Failure.{
  Failure, app, uncertain_send, raw, code_not_found, code_conflict, code_confirmation_required,
  code_invalid_argument, code_account_inactive, code_partial_failure, classified_driver_error,
}
use wechatcopilot.Send.Transactions.{
  Service, PreparedTransaction, is_over, cleanup_transaction_locked, cleanup_transaction,
  release_transaction_commit,
}

pub record SendRequest : Type 0 where
  pub conversation_id : String
  pub text : String
  pub attachments : List Attachment
  pub share_surface_id : String
  pub idempotency_key : String

-- What the world answers during one commit: the clock when it begins and when it is released; which
-- indexes open, answer, and close; which statements of the journal are carried out; which staging
-- directories can be removed; and the `Send` of the active driver, if the account has one.
pub record World : Type 0 where
  pub now : ℕ
  pub later : ℕ
  pub opens : String → Bool
  pub closes : String → Bool
  pub reads_transaction : String → Bool
  pub reads_key : Bool
  pub reserves : Bool
  pub deletes : Bool
  pub finalizes : Bool
  pub removes_expired : Bool
  pub removes_done : Bool
  pub removes_released : Bool
  pub driver : Option (SendRequest → SendResult × Option DriverError)

-- The results of a Go call that returns a value and an error.
abbrev pub Answer : Type 0
Answer = SendResult × Option Failure

abbrev pub no_result : SendResult
no_result = record { message_id = ""; verified = false; uncertain = false; detail = "" }

abbrev pub failed : Failure → Answer
failed f = (no_result, some f)

-- `sendOutcome`
unfoldable pub send_outcome : SendResult → Answer
send_outcome r = if r.uncertain || not r.verified then (r, some (uncertain_send r)) else (r, none)

abbrev pub provisional : SendResult
provisional = record {
  message_id = "";
  verified = false;
  uncertain = true;
  detail =
      "send attempt was durably reserved, but no verified completion was recorded; it will not be retried";
}

-- A result that is not verified is uncertain.
unfoldable pub mark_unverified : SendResult → SendResult
mark_unverified r = if r.verified then r else record r {
  uncertain = true;
  detail =
      if r.detail == "" then "client could not verify whether the message was sent" else r.detail;
}

-- The driver says that nothing was sent.
unfoldable pub definitely_unsent : SendResult → Option DriverError → Bool
definitely_unsent r none = false
definitely_unsent r (some e) = not r.uncertain

-- What the history keeps of the driver's answer: the message may have been sent, unless the driver
-- failed and does not call the result uncertain.
unfoldable pub may_have_sent : SendResult → Option DriverError → Bool
may_have_sent r none = true
may_have_sent r (some e) = r.uncertain

-- The error of a send that did not happen.
pub unsent_failure : Option DriverError → Failure
unsent_failure none = raw
unsent_failure (some e) = elim (classified_driver_error e) [
  | none ↦ app 502 code_partial_failure
  | some f ↦ f
]

-- `s.Account(value)`, which refuses an account that is being deleted.
unfoldable pub found_account : Result Registry.Error Account → Result Failure Account
found_account (err Registry.not_exist) = err (app 404 code_not_found)
found_account (err e) = err raw
found_account (ok a) = if a.deleting then err (app 409 code_conflict) else ok a

-- `OpenIndex`
unfoldable pub open_index : World → Account → Bool
open_index w a = not a.deleting && w.opens a.id

module _ (c : Codec) where
  open c use {Json}

  unfoldable pub service_account : Service c → String → Result Failure Account
  unfolding found_account
  service_account s value = found_account (resolve s.accounts value)

  unfoldable pub put_journal : String → Journal c → Service c → Service c
  put_journal id rows s = record s {
    journals = λ other. if other == id then rows else s.journals other;
  }

  -- The deletion of the reservation of a send that did not happen.
  unfoldable pub settle_unsent :
      World → String → Option DriverError → Service c → Result Error (Unit {0}) → Service c × Answer
  settle_unsent w id sent_err s (err e) =
      (cleanup_transaction w.removes_done id s, send_outcome provisional)
  settle_unsent w id sent_err s (ok _) = (s, failed (unsent_failure sent_err))

  -- The final record of a send that may have happened.
  unfoldable pub settle_sent :
      World → String → SendResult → Service c → Result Error (Unit {0}) → Service c × Answer
  settle_sent w id r s (err e) = (cleanup_transaction w.removes_done id s, send_outcome provisional)
  settle_sent w id r s (ok _) = (cleanup_transaction w.removes_done id s, send_outcome r)

  -- What follows the driver's answer.
  unfoldable pub settle :
      World
      → String
      → String
      → String
      → Account
      → SendResult
      → Option DriverError
      → Service c
      → Service c × Answer
  settle w id key hash a r sent_err s =
      if definitely_unsent r sent_err
      then (let (rows, done) = delete_send_reservation c w.deletes (s.journals a.id) key id hash in
          settle_unsent w id sent_err (put_journal a.id rows s) done)
      else (let (rows, done) =
            finalize_send c w.finalizes (s.journals a.id) key id hash (mark_unverified r) in
          settle_sent w id (mark_unverified r) (put_journal a.id rows s) done)

  unfoldable pub request_of : PreparedTransaction → String → SendRequest
  request_of t key = record {
    conversation_id = t.preview.conversation_id;
    text = t.preview.text;
    attachments = t.attachments;
    share_surface_id = t.preview.share_surface_id;
    idempotency_key = key;
  }

  -- The call of the driver, which enters the history.
  unfoldable pub log_sending : String → String → Account → Bool → Service c → Service c
  log_sending id key a maybe s = record s {
    sendings =
        s.sendings
        ++ record {
          account_id = a.id;
          transaction_id = id;
          idempotency_key = key;
          maybe_sent = maybe;
        }
          ∷ [];
  }

  -- The reservation is durable before the driver is called.
  unfoldable pub dispatch :
      World
      → String
      → String
      → PreparedTransaction
      → Account
      → (SendRequest → SendResult × Option DriverError)
      → Service c
      → Result Error (Journal c)
      → Service c × Answer
  dispatch w id key t a send s (err e) = (s, failed (app 409 code_conflict))
  dispatch w id key t a send s (ok rows) =
      let (r, sent_err) = send (request_of t key) in
      settle w id key t.preview.request_hash a r sent_err
        (log_sending id key a (may_have_sent r sent_err) (put_journal a.id rows s))

  unfoldable pub with_driver :
      World
      → String
      → String
      → PreparedTransaction
      → Account
      → Option (SendRequest → SendResult × Option DriverError)
      → Service c
      → Service c × Answer
  with_driver w id key t a none s = (s, failed (app 409 code_account_inactive))
  with_driver w id key t a (some send) s =
      dispatch w id key t a send s
        (reserve_send c w.reserves (s.journals a.id) key id t.preview.request_hash provisional)

  -- The result that the journal has under this key, if any.
  unfoldable pub with_key_result :
      World
      → String
      → String
      → PreparedTransaction
      → Account
      → Service c
      → Result Error (Option SendResult)
      → Service c × Answer
  with_key_result w id key t a s (err e) = (s, failed (app 409 code_conflict))
  with_key_result w id key t a s (ok (some r)) =
      (cleanup_transaction w.removes_done id s, send_outcome r)
  with_key_result w id key t a s (ok none) = with_driver w id key t a w.driver s

  -- The result that the journal has for this transaction, if any.
  unfoldable pub with_transaction_result :
      World
      → String
      → String
      → PreparedTransaction
      → Account
      → Service c
      → Result Error (Option (String × SendResult))
      → Service c × Answer
  with_transaction_result w id key t a s (err e) = (s, failed raw)
  with_transaction_result w id key t a s (ok (some (stored_key, r))) = (
    cleanup_transaction w.removes_done id s,
    if stored_key == key then send_outcome r else failed (app 409 code_conflict),
  )
  with_transaction_result w id key t a s (ok none) =
      with_key_result w id key t a s
        (get_send_result c w.reads_key (s.journals a.id) key t.preview.request_hash)

  unfoldable pub with_account :
      World
      → String
      → String
      → PreparedTransaction
      → Service c
      → Result Failure Account
      → Service c × Answer
  with_account w id key t s (err f) = (s, failed f)
  with_account w id key t s (ok a) =
      if open_index w a
      then with_transaction_result w id key t a s
          (get_send_result_for_transaction c (w.reads_transaction a.id) (s.journals a.id) id)
      else (s, failed raw)

  -- The body after the transaction was claimed, with the deferred release at its end.
  unfoldable pub commit_claimed :
      World → String → String → PreparedTransaction → Service c → Service c × Answer
  commit_claimed w id key t s =
      let (s', answer) = with_account w id key t s (service_account s t.preview.account_id) in
      (release_transaction_commit w.later w.removes_released id s', answer)

  committed_in :
      String
      → Result Error (Option (String × SendResult))
      → Bool
      → Option (Result Failure SendResult)
  committed_in key (err e) closed = some (err raw)
  committed_in key (ok found) false = some (err raw)
  committed_in key (ok none) true = none
  committed_in key (ok (some (stored_key, r))) true =
      some (if stored_key == key then ok r else err (app 409 code_conflict))

  -- `findCommittedSend` over the accounts that are listed: an error, a result, or nothing.
  unfoldable pub find_committed_send :
      World → Service c → String → String → List Account → Option (Result Failure SendResult)
  unfolding committed_in
  find_committed_send w s id key [] = none
  find_committed_send w s id key (a ∷ rest) =
      let further = find_committed_send w s id key rest in
      if open_index w a
      then elim (committed_in key
          (get_send_result_for_transaction c (w.reads_transaction a.id) (s.journals a.id) id)
          (w.closes a.id)) [ none ↦ further | some r ↦ some r ]
      else some (err raw)

  unfoldable pub replayed : Option (Result Failure SendResult) → Answer
  replayed none = failed (app 404 code_not_found)
  replayed (some (err f)) = failed f
  replayed (some (ok r)) = send_outcome r

  -- `listed` is the order in which `List` returns the accounts.
  module _ (listed : List Account → List Account) where
    -- The transaction that is looked up, unless it is over.
    unfoldable pub claim :
        World → String → String → Option PreparedTransaction → Service c → Service c × Answer
    unfolding replayed
    claim w id key none s =
        (s, replayed (find_committed_send w s id key (listed s.accounts.registry.accounts)))
    claim w id key (some t) s =
        if is_over w.now t
        then (let s' = (cleanup_transaction_locked w.removes_expired id s).0 in
            (s', replayed (find_committed_send w s' id key (listed s'.accounts.registry.accounts))))
        else (let t' = record t { committing = true } in
            commit_claimed w id key t' (record s { transactions = dict_put s.transactions id t' }))

    -- `CommitSend`
    unfoldable pub commit_send : World → Service c → String → String → Bool → Service c × Answer
    commit_send w s id key confirmed =
        if not confirmed
        then (s, failed (app 409 code_confirmation_required))
        else if is_blank key || ltb 128 (String.len key)
        then (s, failed (app 400 code_invalid_argument))
        else claim w id key (dict_get s.transactions id) s
