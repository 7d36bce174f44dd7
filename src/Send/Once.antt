-- ===== src/Send/Once.antt =====
-- No message is sent twice: what the journal holds rules out a second call of the driver.
pub mod Commit
pub mod Run
use wechatcopilot.Prelude.{
  ℕ, String, Bool, true, false, not, ◌&&◌, ◌||◌, Option, none, some, List, [], ◌∷◌, ◌++◌, ◌==◌, ◌≡◌,
  ◌≢◌, refl, sym, ◌∙◌, ap, subst, ◌⊎◌, inl, inr, if◌then◌else◌, Result, ok, err, All, All-append,
  All-map, All-of, All-at, Pairs, Pairs-append, In, arith, eq_iff, Bool-cases, text_cases,
  Result-cases, Option-cases, ltb, is_blank, dict_get, dict_put,
}
use wechatcopilot.Driver.{SendResult, DriverError}
use wechatcopilot.Account.Registry.{Account}
use wechatcopilot.Account.Registry as Registry
use wechatcopilot.Journal.{
  Codec, Row, Journal, Error, finalize_send, delete_send_reservation, reserve_send, encode,
  get_send_result, get_send_result_for_transaction,
}
use wechatcopilot.Journal.Unique.{HasRow, Inserted}
use wechatcopilot.Journal.Effects.{
  finalize_send-HasRow, delete_send_reservation-HasRow, reserve_send-Reserved, Reserved,
}
use wechatcopilot.Send.Failure.{Failure}
use wechatcopilot.Send.Transactions.{
  Service, Sending, PreparedTransaction, is_over, cleanup_transaction_locked, cleanup_transaction,
  release_transaction_commit, prune_transactions_locked,
}
use wechatcopilot.Send.Transactions.Frame.{
  KeepsSends, KeepsSends-refl, cleanup_locked-KeepsSends, cleanup-KeepsSends, release-KeepsSends,
}
use wechatcopilot.Send.Commit.{
  World, Answer, SendRequest, definitely_unsent, mark_unverified, open_index, service_account,
  put_journal, log_sending, settle_unsent, settle_sent, settle, request_of, dispatch, with_driver,
  with_key_result, with_transaction_result, with_account, commit_claimed, claim, commit_send,
  provisional,
}

module _ (c : Codec) where
  open c use {Json}

  -- After a call that may have sent, every later call for the same account is for another key and
  -- another transaction.
  abbrev pub RulesOut : Sending → Sending → Type 0
  RulesOut e f =
      e.maybe_sent ≡ true
      → e.account_id ≡ f.account_id
      → (e.idempotency_key ≢ f.idempotency_key) × (e.transaction_id ≢ f.transaction_id)

  -- The journal has a row for a call that may have sent.
  abbrev pub IsHeld : Service c → Sending → Type 0
  IsHeld s e =
      e.maybe_sent ≡ true → HasRow c e.idempotency_key e.transaction_id (s.journals e.account_id)

  pub record IsOnce (s : Service c) : Type 0 where
    pub held : All (IsHeld s) s.sendings
    pub once : Pairs RulesOut s.sendings

  pub KeepsSends-IsOnce : (s t : Service c) → KeepsSends s t → IsOnce s → IsOnce t
  KeepsSends-IsOnce s t k v = record {
    held =
        subst (λ sent. All (IsHeld t) sent) (sym k.same_sendings)
          (All-map (IsHeld s) (IsHeld t) s.sendings
            (λ e h m.
              subst (λ j. HasRow c e.idempotency_key e.transaction_id (j e.account_id))
                (sym k.same_journals) (h m))
            v.held);
    once = subst (Pairs RulesOut) (sym k.same_sendings) v.once;
  }

  -- A new journal for one account keeps what it held of the calls that may have sent.
  put_journal-IsOnce :
      (id : String) (rows : Journal c) (s : Service c)
      → ((e : Sending)
          → In e s.sendings
          → e.maybe_sent ≡ true
          → e.account_id ≡ id
          → HasRow c e.idempotency_key e.transaction_id (s.journals id)
          → HasRow c e.idempotency_key e.transaction_id rows)
      → IsOnce s
      → IsOnce (put_journal c id rows s)
  unfolding put_journal
  put_journal-IsOnce id rows s keep v = record {
    held = All-of (IsHeld (put_journal c id rows s)) s.sendings (λ e i m.
        elim (text_cases e.account_id id) [
          | inl (h, q) ↦ rw h (
              keep e i m q (
                subst (λ x. HasRow c e.idempotency_key e.transaction_id (s.journals x)) q
                  (All-at (IsHeld s) i v.held m)))
          | inr (h, _) ↦ rw h (All-at (IsHeld s) i v.held m)
        ]);
    once = v.once;
  }

  pub put_journal-own :
      (id : String) (rows : Journal c) (s : Service c)
      → (put_journal c id rows s).journals id ≡ rows
  unfolding put_journal
  put_journal-own id rows s = let e : (id == id) ≡ true = ground (arith, eq_iff id id) in rw e refl

  -- What held of the journal before a reservation tells the new call from those of old.
  Reserved-apart :
      (a : Account) (id key hash : String) (s : Service c) (rows : Journal c) (f : Sending)
      → Reserved c key id hash provisional (s.journals a.id) rows
      → HasRow c f.idempotency_key f.transaction_id (s.journals a.id)
      → (f.idempotency_key ≢ key) × (f.transaction_id ≢ id)
  Reserved-apart a id key hash s rows f d (r, i, x, y) =
      let n =
        All-at
          (λ (q : Row Json).
            (q.idempotency_key ≢ d.row.idempotency_key) × (q.transaction_id ≢ d.row.transaction_id))
          i d.inserted.fresh in
      (λ e. n.0 (x ∙ e ∙ sym d.row_key), λ e. n.1 (y ∙ e ∙ sym d.row_transaction))

  -- A call of the driver enters the history once its reservation stands in the journal.
  pub log_sending-IsOnce :
      (a : Account) (id key hash : String) (maybe : Bool) (s : Service c) (rows : Journal c)
      → Reserved c key id hash provisional (s.journals a.id) rows
      → IsOnce s
      → IsOnce (log_sending c id key a maybe (put_journal c a.id rows s))
  unfolding log_sending put_journal
  log_sending-IsOnce a id key hash maybe s rows d v =
      let s' = put_journal c a.id rows s in
      let v' = put_journal-IsOnce a.id rows s (λ e i m q h. kept h) v in
      let e : Sending = record {
        account_id = a.id;
        transaction_id = id;
        idempotency_key = key;
        maybe_sent = maybe;
      } in
      record {
        held = All-append (IsHeld s') s.sendings (e ∷ []) v'.held (λ m. own, tt);
        once = Pairs-append RulesOut s.sendings e v.once (
            All-of (λ f. RulesOut f e) s.sendings
              (λ f i m q. Reserved-apart a id key hash s rows f d (old f i m q)));
      }
    where
      kept : {k t : String} → HasRow c k t (s.journals a.id) → HasRow c k t rows
      kept (r, i, x, y) = (r, d.inserted.kept r i, x, y)

      own : HasRow c key id ((put_journal c a.id rows s).journals a.id)
      own =
          subst (HasRow c key id) (sym (put_journal-own a.id rows s))
            (d.row, d.inserted.added, d.row_key, d.row_transaction)

      old :
          (f : Sending)
          → In f s.sendings
          → f.maybe_sent ≡ true
          → f.account_id ≡ a.id
          → HasRow c f.idempotency_key f.transaction_id (s.journals a.id)
      old f i m q =
          subst (λ x. HasRow c f.idempotency_key f.transaction_id (s.journals x)) q
            (All-at (IsHeld s) i v.held m)

  -- No call that may have sent was made under this key for this account.
  abbrev pub IsUnused : String → Account → Service c → Type 0
  IsUnused key a s =
      (e : Sending)
      → In e s.sendings
      → e.maybe_sent ≡ true
      → e.account_id ≡ a.id
      → e.idempotency_key ≢ key

  settle_unsent-IsOnce :
      (w : World) (id : String) (e : Option DriverError) (s : Service c)
      (r : Result Error (Unit {0}))
      → IsOnce s
      → IsOnce (settle_unsent c w id e s r).0
  unfolding settle_unsent
  settle_unsent-IsOnce w id e s (err x) v =
      KeepsSends-IsOnce s (cleanup_transaction w.removes_done id s)
        (cleanup-KeepsSends w.removes_done id s) v
  settle_unsent-IsOnce w id e s (ok x) v = v

  settle_sent-IsOnce :
      (w : World) (id : String) (r : SendResult) (s : Service c) (d : Result Error (Unit {0}))
      → IsOnce s
      → IsOnce (settle_sent c w id r s d).0
  unfolding settle_sent
  settle_sent-IsOnce w id r s (err x) v =
      KeepsSends-IsOnce s (cleanup_transaction w.removes_done id s)
        (cleanup-KeepsSends w.removes_done id s) v
  settle_sent-IsOnce w id r s (ok x) v =
      KeepsSends-IsOnce s (cleanup_transaction w.removes_done id s)
        (cleanup-KeepsSends w.removes_done id s) v

  pub settle-IsOnce :
      (w : World) (id key hash : String) (a : Account) (r : SendResult) (e : Option DriverError)
      (s : Service c)
      → (definitely_unsent r e ≡ true → IsUnused key a s)
      → IsOnce s
      → IsOnce (settle c w id key hash a r e s).0
  unfolding settle
  settle-IsOnce w id key hash a r e s unused v = elim (Bool-cases (definitely_unsent r e)) [
    | inl h ↦ rw h (
        let d = delete_send_reservation c w.deletes (s.journals a.id) key id hash in
        settle_unsent-IsOnce w id e (put_journal c a.id d.0 s) d.1 (
          put_journal-IsOnce a.id d.0 s
            (λ f i m q k.
              delete_send_reservation-HasRow c w.deletes (s.journals a.id) key id hash
                f.idempotency_key f.transaction_id (unused h f i m q) k)
            v))
    | inr h ↦ rw h (
        let d = finalize_send c w.finalizes (s.journals a.id) key id hash (mark_unverified r) in
        settle_sent-IsOnce w id (mark_unverified r) (put_journal c a.id d.0 s) d.1 (
          put_journal-IsOnce a.id d.0 s
            (λ f i m q k.
              finalize_send-HasRow c w.finalizes (s.journals a.id) key id hash (mark_unverified r)
                f.idempotency_key f.transaction_id k)
            v))
  ]

  -- The new call, when it sent nothing, leaves its key unused.
  pub log_sending-IsUnused :
      (a : Account) (id key hash : String) (s : Service c) (rows : Journal c)
      → Reserved c key id hash provisional (s.journals a.id) rows
      → IsOnce s
      → IsUnused key a (log_sending c id key a false (put_journal c a.id rows s))
  unfolding log_sending put_journal
  log_sending-IsUnused a id key hash s rows d v e i m q =
      All-at (λ f. f.maybe_sent ≡ true → f.account_id ≡ a.id → f.idempotency_key ≢ key) i
        (All-append (λ f. f.maybe_sent ≡ true → f.account_id ≡ a.id → f.idempotency_key ≢ key)
          s.sendings _
          (All-of (λ f. f.maybe_sent ≡ true → f.account_id ≡ a.id → f.idempotency_key ≢ key)
            s.sendings
            (λ f j n p.
              (Reserved-apart a id key hash s rows f d (
                subst (λ x. HasRow c f.idempotency_key f.transaction_id (s.journals x)) p
                  (All-at (IsHeld s) j v.held n))).0))
          (λ n. cc, tt))
        m q
