-- ===== src/Journal/Effects.antt =====
-- What the calls of the journal do to the rows for a key and a transaction.
use wechatcopilot.Prelude.{String, Bool, true, false, ◌≡◌, ◌≢◌, refl, Result, ok, err, chain_steps}
use wechatcopilot.Driver.{SendResult}
use wechatcopilot.Journal.{
  Codec, Row, in_flight, Journal, Error, encode, reserve_send, update_encoded, finalize_send,
  delete_send_reservation,
}
use wechatcopilot.Journal.Unique.{
  HasRow, Inserted, insert_row-Inserted, update_rows-HasRow, delete_rows-HasRow,
}

module _ (c : Codec) where
  open c use {Json}

  -- The row of a reservation.
  pub record Reserved (key id hash : String) (result : SendResult) (rows rows' : Journal c)
      : Type 0 where
    pub row : Row Json
    pub row_key : row.idempotency_key ≡ key
    pub row_transaction : row.transaction_id ≡ id
    pub row_hash : row.request_hash ≡ hash
    pub row_state : row.state ≡ in_flight
    pub row_json : encode c result ≡ ok row.result_json
    pub inserted : Inserted c row rows rows'

  pub reserve_send-Reserved :
      (written : Bool) (rows rows' : Journal c) (key id hash : String) (result : SendResult)
      → reserve_send c written rows key id hash result ≡ ok rows'
      → Reserved key id hash result rows rows'
  unfolding reserve_send
  reserve_send-Reserved written rows rows' key id hash result h =
      let (j, e, h') = chain_steps (encode c result) _ h in
      record {
        row = record {
          idempotency_key = key;
          transaction_id = id;
          request_hash = hash;
          state = in_flight;
          result_json = j;
        };
        row_key = refl;
        row_transaction = refl;
        row_hash = refl;
        row_state = refl;
        row_json = e;
        inserted = insert_row-Inserted c written _ rows rows' h';
      }

  update_encoded-HasRow :
      (written : Bool) (rows : Journal c) (key id hash : String) (j : Result Error Json)
      (k t : String)
      → HasRow c k t rows
      → HasRow c k t (update_encoded c written rows key id hash j).0
  unfolding update_encoded
  update_encoded-HasRow written rows key id hash (err e) k t h = h
  update_encoded-HasRow false rows key id hash (ok j) k t h = h
  update_encoded-HasRow true rows key id hash (ok j) k t h =
      update_rows-HasRow c key id hash j rows k t h

  pub finalize_send-HasRow :
      (written : Bool) (rows : Journal c) (key id hash : String) (result : SendResult)
      (k t : String)
      → HasRow c k t rows
      → HasRow c k t (finalize_send c written rows key id hash result).0
  unfolding finalize_send
  finalize_send-HasRow written rows key id hash result k t h =
      update_encoded-HasRow written rows key id hash _ k t h

  pub delete_send_reservation-HasRow :
      (written : Bool) (rows : Journal c) (key id hash k t : String)
      → k ≢ key
      → HasRow c k t rows
      → HasRow c k t (delete_send_reservation c written rows key id hash).0
  unfolding delete_send_reservation
  delete_send_reservation-HasRow false rows key id hash k t n h = h
  delete_send_reservation-HasRow true rows key id hash k t n h =
      delete_rows-HasRow c key id hash rows k t n h
