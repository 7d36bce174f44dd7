-- ===== src/Send/Answers.antt =====
-- What an answer of `CommitSend` without an error says of the message.
use wechatcopilot.Prelude.{
  String, Bool, true, false, not, ◌||◌, Option, none, some, List, ◌==◌, ◌≡◌, refl, ap, subst, inl,
  inr, Result, ok, err, arith, Bool-cases, ltb, is_blank, dict_get, dict_put,
}
use Prim.Native.String
use wechatcopilot.Driver.{SendResult, DriverError}
use wechatcopilot.Account.Registry.{Account}
use wechatcopilot.Journal.{
  Codec, Journal, Error, reserve_send, get_send_result, get_send_result_for_transaction,
  delete_send_reservation, finalize_send,
}
use wechatcopilot.Send.Failure.{Failure}
use wechatcopilot.Send.Transactions.{
  Service, PreparedTransaction, is_over, cleanup_transaction_locked,
}
use wechatcopilot.Send.Commit.{
  World, Answer, SendRequest, send_outcome, definitely_unsent, may_have_sent, mark_unverified,
  open_index, service_account, put_journal, log_sending, request_of, settle_unsent, settle_sent,
  settle, dispatch, with_driver, with_key_result, with_transaction_result, with_account,
  commit_claimed, replayed, find_committed_send, claim, commit_send, provisional,
}

-- An answer without an error is a message that the client verified.
abbrev IsHonest : Answer → Type 0
IsHonest (r, failure) = failure ≡ none → (r.verified ≡ true) × (r.uncertain ≡ false)

send_outcome-IsHonest : (r : SendResult) → IsHonest (send_outcome r)
unfolding send_outcome
send_outcome-IsHonest r = elim (Bool-cases (r.uncertain || not r.verified)) [
  | inl h ↦ rw h (λ e. cc)
  | inr h ↦ rw h (λ e. (ground arith, ground arith))
]

module _ (c : Codec) where
  settle_unsent-IsHonest :
      (w : World) (id : String) (e : Option DriverError) (s : Service c)
      (d : Result Error (Unit {0}))
      → IsHonest (settle_unsent c w id e s d).1
  unfolding settle_unsent
  settle_unsent-IsHonest w id e s (err x) = send_outcome-IsHonest provisional
  settle_unsent-IsHonest w id e s (ok x) = λ h. cc

  settle_sent-IsHonest :
      (w : World) (id : String) (r : SendResult) (s : Service c) (d : Result Error (Unit {0}))
      → IsHonest (settle_sent c w id r s d).1
  unfolding settle_sent
  settle_sent-IsHonest w id r s (err x) = send_outcome-IsHonest provisional
  settle_sent-IsHonest w id r s (ok x) = send_outcome-IsHonest r

  settle-IsHonest :
      (w : World) (id key hash : String) (a : Account) (r : SendResult) (e : Option DriverError)
      (s : Service c)
      → IsHonest (settle c w id key hash a r e s).1
  unfolding settle
  settle-IsHonest w id key hash a r e s = elim (Bool-cases (definitely_unsent r e)) [
    | inl h ↦ rw h (
        let d = delete_send_reservation c w.deletes (s.journals a.id) key id hash in
        settle_unsent-IsHonest w id e (put_journal c a.id d.0 s) d.1)
    | inr h ↦ rw h (
        let d = finalize_send c w.finalizes (s.journals a.id) key id hash (mark_unverified r) in
        settle_sent-IsHonest w id (mark_unverified r) (put_journal c a.id d.0 s) d.1)
  ]

  dispatch-IsHonest :
      (w : World) (id key : String) (t : PreparedTransaction) (a : Account)
      (send : SendRequest → SendResult × Option DriverError) (s : Service c)
      (r : Result Error (Journal c))
      → IsHonest (dispatch c w id key t a send s r).1
  unfolding dispatch
  dispatch-IsHonest w id key t a send s (err x) = λ h. cc
  dispatch-IsHonest w id key t a send s (ok rows) =
      let (r, e) = send (request_of c t key) in
      settle-IsHonest w id key t.preview.request_hash a r e
        (log_sending c id key a (may_have_sent r e) (put_journal c a.id rows s))

  with_driver-IsHonest :
      (w : World) (id key : String) (t : PreparedTransaction) (a : Account)
      (o : Option (SendRequest → SendResult × Option DriverError)) (s : Service c)
      → IsHonest (with_driver c w id key t a o s).1
  unfolding with_driver
  with_driver-IsHonest w id key t a none s = λ h. cc
  with_driver-IsHonest w id key t a (some send) s =
      dispatch-IsHonest w id key t a send s
        (reserve_send c w.reserves (s.journals a.id) key id t.preview.request_hash provisional)

  with_key_result-IsHonest :
      (w : World) (id key : String) (t : PreparedTransaction) (a : Account) (s : Service c)
      (r : Result Error (Option SendResult))
      → IsHonest (with_key_result c w id key t a s r).1
  unfolding with_key_result
  with_key_result-IsHonest w id key t a s (err x) = λ h. cc
  with_key_result-IsHonest w id key t a s (ok (some x)) = send_outcome-IsHonest x
  with_key_result-IsHonest w id key t a s (ok none) = with_driver-IsHonest w id key t a w.driver s

  with_transaction_result-IsHonest :
      (w : World) (id key : String) (t : PreparedTransaction) (a : Account) (s : Service c)
      (r : Result Error (Option (String × SendResult)))
      → IsHonest (with_transaction_result c w id key t a s r).1
  unfolding with_transaction_result
  with_transaction_result-IsHonest w id key t a s (err x) = λ h. cc
  with_transaction_result-IsHonest w id key t a s (ok (some (k, x))) =
      elim (Bool-cases (k == key)) [
        | inl h ↦ rw h (send_outcome-IsHonest x)
        | inr h ↦ rw h (λ e. cc)
      ]
  with_transaction_result-IsHonest w id key t a s (ok none) =
      with_key_result-IsHonest w id key t a s
        (get_send_result c w.reads_key (s.journals a.id) key t.preview.request_hash)

  with_account-IsHonest :
      (w : World) (id key : String) (t : PreparedTransaction) (s : Service c)
      (r : Result Failure Account)
      → IsHonest (with_account c w id key t s r).1
  unfolding with_account
  with_account-IsHonest w id key t s (err x) = λ h. cc
  with_account-IsHonest w id key t s (ok a) = elim (Bool-cases (open_index w a)) [
    | inl h ↦ rw h (
        with_transaction_result-IsHonest w id key t a s
          (get_send_result_for_transaction c (w.reads_transaction a.id) (s.journals a.id) id))
    | inr h ↦ rw h (λ e. cc)
  ]

  replayed-IsHonest : (o : Option (Result Failure SendResult)) → IsHonest (replayed c o)
  unfolding replayed
  replayed-IsHonest none = λ h. cc
  replayed-IsHonest (some (err f)) = λ h. cc
  replayed-IsHonest (some (ok r)) = send_outcome-IsHonest r

  module _ (listed : List Account → List Account) where
    claim-IsHonest :
        (w : World) (id key : String) (o : Option PreparedTransaction) (s : Service c)
        → IsHonest (claim c listed w id key o s).1
    unfolding claim commit_claimed
    claim-IsHonest w id key none s =
        replayed-IsHonest (find_committed_send c w s id key (listed s.accounts.registry.accounts))
    claim-IsHonest w id key (some t) s = elim (Bool-cases (is_over w.now t)) [
      | inl h ↦ rw h (
          let s' = (cleanup_transaction_locked w.removes_expired id s).0 in
          replayed-IsHonest
            (find_committed_send c w s' id key (listed s'.accounts.registry.accounts)))
      | inr h ↦ rw h (
          let t' = record t { committing = true } in
          let s' = record s { transactions = dict_put s.transactions id t' } in
          with_account-IsHonest w id key t' s' (service_account c s' t'.preview.account_id))
    ]

    commit_send-IsHonest :
        (w : World) (s : Service c) (id key : String) (confirmed : Bool)
        → IsHonest (commit_send c listed w s id key confirmed).1
    unfolding commit_send
    commit_send-IsHonest w s id key confirmed = elim (Bool-cases (not confirmed)) [
      | inl h ↦ rw h (λ e. cc)
      | inr h ↦ rw h (elim (Bool-cases (is_blank key || ltb 128 (Prim.Native.String.len key))) [
        | inl k ↦ rw k (λ e. cc)
        | inr k ↦ rw k (claim-IsHonest w id key (dict_get s.transactions id) s)
      ])
    ]

    -- An answer of a commit without an error carries a result that the client verified and that is not
    -- uncertain, whether the message was sent now or before.
    pub commit_send-verified :
        (w : World) (s s' : Service c) (id key : String) (confirmed : Bool) (r : SendResult)
        → commit_send c listed w s id key confirmed ≡ (s', (r, none))
        → (r.verified ≡ true) × (r.uncertain ≡ false)
    commit_send-verified w s s' id key confirmed r h =
        subst IsHonest (ap (λ (x : Service c × Answer). x.1) h)
          (commit_send-IsHonest w s id key confirmed) refl
