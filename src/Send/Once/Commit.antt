-- ===== src/Send/Once/Commit.antt =====
-- `CommitSend` keeps what rules out a second call of the driver, whatever the world answers.
use wechatcopilot.Prelude.{
  String, Bool, true, not, ◌||◌, Option, none, some, List, ◌≡◌, refl, arith, false, inl, inr,
  Result, ok, err, Bool-cases, ltb, is_blank, dict_get, dict_put,
}
use Prim.Native.String
use wechatcopilot.Driver.{SendResult, DriverError}
use wechatcopilot.Account.Registry.{Account}
use wechatcopilot.Journal.{
  Codec, Journal, Error, reserve_send, get_send_result, get_send_result_for_transaction,
}
use wechatcopilot.Journal.Effects.{reserve_send-Reserved}
use wechatcopilot.Send.Failure.{Failure}
use wechatcopilot.Send.Transactions.{
  Service, PreparedTransaction, is_over, cleanup_transaction_locked, cleanup_transaction,
  release_transaction_commit,
}
use wechatcopilot.Send.Transactions.Frame.{
  cleanup_locked-KeepsSends, cleanup-KeepsSends, release-KeepsSends,
}
use wechatcopilot.Send.Commit.{
  World, SendRequest, definitely_unsent, may_have_sent, open_index, service_account, request_of,
  dispatch, with_driver, with_key_result, with_transaction_result, with_account, commit_claimed,
  claim, commit_send, provisional,
}
use wechatcopilot.Send.Once.{
  IsOnce, KeepsSends-IsOnce, log_sending-IsOnce, settle-IsOnce, log_sending-IsUnused,
}

-- A send that is given up was none.
definitely_unsent-may_have_sent :
    (r : SendResult) (e : Option DriverError)
    → definitely_unsent r e ≡ true
    → may_have_sent r e ≡ false
unfolding definitely_unsent may_have_sent
definitely_unsent-may_have_sent r none h = cc
definitely_unsent-may_have_sent r (some e) h = ground arith

module _ (c : Codec) where
  cleaned-IsOnce :
      (removed : Bool) (id : String) (s : Service c)
      → IsOnce c s
      → IsOnce c (cleanup_transaction removed id s)
  cleaned-IsOnce removed id s v =
      KeepsSends-IsOnce c s (cleanup_transaction removed id s) (cleanup-KeepsSends removed id s) v

  dispatch-IsOnce :
      (w : World) (id key : String) (t : PreparedTransaction) (a : Account)
      (send : SendRequest → SendResult × Option DriverError) (s : Service c)
      (r : Result Error (Journal c))
      → reserve_send c w.reserves (s.journals a.id) key id t.preview.request_hash provisional ≡ r
      → IsOnce c s
      → IsOnce c (dispatch c w id key t a send s r).0
  unfolding dispatch
  dispatch-IsOnce w id key t a send s (err x) h v = v
  dispatch-IsOnce w id key t a send s (ok rows) h v =
      let d =
        reserve_send-Reserved c w.reserves (s.journals a.id) rows key id t.preview.request_hash
          provisional h in
      let (r, e) = send (request_of c t key) in
      settle-IsOnce c w id key t.preview.request_hash a r e _
        (λ u.
          rw (definitely_unsent-may_have_sent r e u)
            (log_sending-IsUnused c a id key t.preview.request_hash s rows d v))
        (log_sending-IsOnce c a id key t.preview.request_hash (may_have_sent r e) s rows d v)

  with_driver-IsOnce :
      (w : World) (id key : String) (t : PreparedTransaction) (a : Account)
      (o : Option (SendRequest → SendResult × Option DriverError)) (s : Service c)
      → IsOnce c s
      → IsOnce c (with_driver c w id key t a o s).0
  unfolding with_driver
  with_driver-IsOnce w id key t a none s v = v
  with_driver-IsOnce w id key t a (some send) s v =
      dispatch-IsOnce w id key t a send s
        (reserve_send c w.reserves (s.journals a.id) key id t.preview.request_hash provisional) refl
        v

  with_key_result-IsOnce :
      (w : World) (id key : String) (t : PreparedTransaction) (a : Account) (s : Service c)
      (r : Result Error (Option SendResult))
      → IsOnce c s
      → IsOnce c (with_key_result c w id key t a s r).0
  unfolding with_key_result
  with_key_result-IsOnce w id key t a s (err x) v = v
  with_key_result-IsOnce w id key t a s (ok (some x)) v = cleaned-IsOnce w.removes_done id s v
  with_key_result-IsOnce w id key t a s (ok none) v = with_driver-IsOnce w id key t a w.driver s v

  with_transaction_result-IsOnce :
      (w : World) (id key : String) (t : PreparedTransaction) (a : Account) (s : Service c)
      (r : Result Error (Option (String × SendResult)))
      → IsOnce c s
      → IsOnce c (with_transaction_result c w id key t a s r).0
  unfolding with_transaction_result
  with_transaction_result-IsOnce w id key t a s (err x) v = v
  with_transaction_result-IsOnce w id key t a s (ok (some (k, x))) v =
      cleaned-IsOnce w.removes_done id s v
  with_transaction_result-IsOnce w id key t a s (ok none) v =
      with_key_result-IsOnce w id key t a s
        (get_send_result c w.reads_key (s.journals a.id) key t.preview.request_hash) v

  with_account-IsOnce :
      (w : World) (id key : String) (t : PreparedTransaction) (s : Service c)
      (r : Result Failure Account)
      → IsOnce c s
      → IsOnce c (with_account c w id key t s r).0
  unfolding with_account
  with_account-IsOnce w id key t s (err x) v = v
  with_account-IsOnce w id key t s (ok a) v = elim (Bool-cases (open_index w a)) [
    | inl h ↦ rw h (
        with_transaction_result-IsOnce w id key t a s
          (get_send_result_for_transaction c (w.reads_transaction a.id) (s.journals a.id) id) v)
    | inr h ↦ rw h v
  ]

  commit_claimed-IsOnce :
      (w : World) (id key : String) (t : PreparedTransaction) (s : Service c)
      → IsOnce c s
      → IsOnce c (commit_claimed c w id key t s).0
  unfolding commit_claimed
  commit_claimed-IsOnce w id key t s v =
      let s' = (with_account c w id key t s (service_account c s t.preview.account_id)).0 in
      KeepsSends-IsOnce c s' (release_transaction_commit w.later w.removes_released id s')
        (release-KeepsSends w.later w.removes_released id s')
        (with_account-IsOnce w id key t s (service_account c s t.preview.account_id) v)

  module _ (listed : List Account → List Account) where
    claim-IsOnce :
        (w : World) (id key : String) (o : Option PreparedTransaction) (s : Service c)
        → IsOnce c s
        → IsOnce c (claim c listed w id key o s).0
    unfolding claim
    claim-IsOnce w id key none s v = v
    claim-IsOnce w id key (some t) s v = elim (Bool-cases (is_over w.now t)) [
      | inl h ↦ rw h (
          KeepsSends-IsOnce c s (cleanup_transaction_locked w.removes_expired id s).0
            (cleanup_locked-KeepsSends w.removes_expired id s) v)
      | inr h ↦ rw h (
          let t' = record t { committing = true } in
          let s' = record s { transactions = dict_put s.transactions id t' } in
          commit_claimed-IsOnce w id key t' s'
            (KeepsSends-IsOnce c s s' (record { same_journals = refl; same_sendings = refl }) v))
    ]

    pub commit_send-IsOnce :
        (w : World) (s : Service c) (id key : String) (confirmed : Bool)
        → IsOnce c s
        → IsOnce c (commit_send c listed w s id key confirmed).0
    unfolding commit_send
    commit_send-IsOnce w s id key confirmed v = elim (Bool-cases (not confirmed)) [
      | inl h ↦ rw h v
      | inr h ↦ rw h (elim (Bool-cases (is_blank key || ltb 128 (Prim.Native.String.len key))) [
        | inl k ↦ rw k v
        | inr k ↦ rw k (claim-IsOnce w id key (dict_get s.transactions id) s v)
      ])
    ]
