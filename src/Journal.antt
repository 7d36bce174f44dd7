-- ===== src/Journal.antt =====
-- internal/index/store.go: the journal of sends, which is the table `send_results` of an account's
-- index. The SQL statements are read as SQL defines them: `idempotency_key` is the primary key, and a
-- unique index stands on `transaction_id`. A statement that the engine fails changes nothing.
pub mod Unique
pub mod Effects
pub mod Roundtrip
use wechatcopilot.Prelude.{
  ℕ, zero, suc, String, Bool, true, false, ◌&&◌, ◌||◌, Option, none, some, List, [], ◌∷◌, ◌++◌,
  ◌==◌, nat_beq, if◌then◌else◌, Result, ok, err, ◌>>=◌, ◌≡◌,
}
use wechatcopilot.Driver.{SendResult}

-- encoding/json on a `SendResult`: `none` is its error.
pub record Codec : Type 1 where
  pub Json : Type 0
  pub marshal : SendResult → Option Json
  pub unmarshal : Json → Option SendResult
  pub unmarshal-marshal : (r : SendResult) (j : Json) → marshal r ≡ some j → unmarshal j ≡ some r

pub data RowState : Type 0 where
  in_flight terminal : RowState

-- The column `created_at` is never read.
pub record Row (Json : Type 0) : Type 0 where
  pub idempotency_key : String
  pub transaction_id : String
  pub request_hash : String
  pub state : RowState
  pub result_json : Json

pub data Error : Type 0 where
  engine_failed not_encodable not_decodable constraint_violated key_reused not_in_flight : Error

module _ (c : Codec) where
  open c use {Json, marshal, unmarshal}

  abbrev pub Journal : Type 0
  Journal = List (Row Json)

  unfoldable pub encode : SendResult → Result Error Json
  encode r = elim (marshal r) [ none ↦ err not_encodable | some j ↦ ok j ]

  unfoldable pub decode : Json → Result Error SendResult
  decode j = elim (unmarshal j) [ none ↦ err not_decodable | some r ↦ ok r ]

  -- `WHERE idempotency_key=?`
  unfoldable pub row_of_key : String → Journal → Option (Row Json)
  row_of_key key [] = none
  row_of_key key (r ∷ rows) = if r.idempotency_key == key then some r else row_of_key key rows

  -- `WHERE transaction_id=?`
  unfoldable pub row_of_transaction : String → Journal → Option (Row Json)
  row_of_transaction id [] = none
  row_of_transaction id (r ∷ rows) =
      if r.transaction_id == id then some r else row_of_transaction id rows

  stored_result : String → Option (Row Json) → Result Error (Option SendResult)
  stored_result hash none = ok none
  stored_result hash (some r) =
      if r.request_hash == hash
      then (do result ← decode r.result_json; ok (some result))
      else err key_reused

  -- `read` says whether the engine answers the query.
  unfoldable pub get_send_result :
      Bool → Journal → String → String → Result Error (Option SendResult)
  unfolding stored_result
  get_send_result false rows key hash = err engine_failed
  get_send_result true rows key hash = stored_result hash (row_of_key key rows)

  stored_for_transaction : Option (Row Json) → Result Error (Option (String × SendResult))
  stored_for_transaction none = ok none
  stored_for_transaction (some r) = do
    result ← decode r.result_json
    ok (some (r.idempotency_key, result))

  unfoldable pub get_send_result_for_transaction :
      Bool → Journal → String → Result Error (Option (String × SendResult))
  unfolding stored_for_transaction
  get_send_result_for_transaction false rows id = err engine_failed
  get_send_result_for_transaction true rows id = stored_for_transaction (row_of_transaction id rows)

  -- The unique columns admit a row of this key and this transaction.
  unfoldable pub admits : String → String → Journal → Bool
  admits key id [] = true
  admits key id (r ∷ rows) =
      if r.idempotency_key == key || r.transaction_id == id then false else admits key id rows

  unfoldable pub insert_row : Bool → Row Json → Journal → Result Error Journal
  insert_row written r rows =
      if written
      then (if admits r.idempotency_key r.transaction_id rows
          then ok (rows ++ r ∷ [])
          else err constraint_violated)
      else err engine_failed

  insert_result :
      RowState → Bool → Journal → String → String → String → SendResult → Result Error Journal
  insert_result state written rows key id hash result = do
    j ← encode result
    insert_row written
        (record {
          idempotency_key = key;
          transaction_id = id;
          request_hash = hash;
          state = state;
          result_json = j;
        })
        rows

  unfoldable pub save_send_result :
      Bool → Journal → String → String → String → SendResult → Result Error Journal
  unfolding insert_result
  save_send_result = insert_result terminal

  unfoldable pub reserve_send :
      Bool → Journal → String → String → String → SendResult → Result Error Journal
  unfolding insert_result
  reserve_send = insert_result in_flight

  -- `WHERE idempotency_key=? AND transaction_id=? AND request_hash=? AND state='in_flight'`
  unfoldable pub is_reservation : String → String → String → Row Json → Bool
  is_reservation key id hash r =
      r.idempotency_key == key
      && r.transaction_id == id
      && r.request_hash == hash
      && elim r.state [ in_flight ↦ true | terminal ↦ false ]

  -- The rows after the update, and how many it changed.
  unfoldable pub update_rows : String → String → String → Json → Journal → Journal × ℕ
  update_rows key id hash j [] = ([], 0)
  update_rows key id hash j (r ∷ rows) =
      let (rows', n) = update_rows key id hash j rows in
      if is_reservation key id hash r
      then (record r { state = terminal; result_json = j } ∷ rows', suc n)
      else (r ∷ rows', n)

  -- The rows after the deletion, and how many it removed.
  unfoldable pub delete_rows : String → String → String → Journal → Journal × ℕ
  delete_rows key id hash [] = ([], 0)
  delete_rows key id hash (r ∷ rows) =
      let (rows', n) = delete_rows key id hash rows in
      if is_reservation key id hash r then (rows', suc n) else (r ∷ rows', n)

  -- The journal that a call leaves behind: a statement takes effect also when it is then found to have
  -- changed another number of rows than one.
  expect_one : Journal × ℕ → Journal × Result Error (Unit {0})
  expect_one (rows, n) = (rows, if nat_beq n 1 then ok tt else err not_in_flight)

  update_encoded :
      Bool
      → Journal
      → String
      → String
      → String
      → Result Error Json
      → Journal × Result Error (Unit {0})
  unfolding expect_one
  update_encoded written rows key id hash (err e) = (rows, err e)
  update_encoded false rows key id hash (ok j) = (rows, err engine_failed)
  update_encoded true rows key id hash (ok j) = expect_one (update_rows key id hash j rows)

  unfoldable pub finalize_send :
      Bool → Journal → String → String → String → SendResult → Journal × Result Error (Unit {0})
  unfolding update_encoded
  finalize_send written rows key id hash result =
      update_encoded written rows key id hash (encode result)

  unfoldable pub delete_send_reservation :
      Bool → Journal → String → String → String → Journal × Result Error (Unit {0})
  unfolding expect_one
  delete_send_reservation false rows key id hash = (rows, err engine_failed)
  delete_send_reservation true rows key id hash = expect_one (delete_rows key id hash rows)
