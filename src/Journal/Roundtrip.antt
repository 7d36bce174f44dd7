-- ===== src/Journal/Roundtrip.antt =====
-- What is reserved, finalized and looked up again.
use wechatcopilot.Prelude.{
  String, Bool, true, false, Option, none, some, [], ◌∷◌, ◌++◌, ◌==◌, ◌≡◌, refl, sym, Result, ok,
  err, chain_steps, arith, eq_iff,
}
use wechatcopilot.Driver.{SendResult}
use wechatcopilot.Journal.{
  Codec, Row, RowState, in_flight, terminal, Journal, Error, not_encodable, encode, decode,
  row_of_key, row_of_transaction, get_send_result, get_send_result_for_transaction, stored_result,
  stored_for_transaction, admits, insert_row, reserve_send, is_reservation, update_rows,
  delete_rows, update_encoded, finalize_send, delete_send_reservation, expect_one,
}

module _ (c : Codec) where
  open c use {Json, marshal, unmarshal, unmarshal-marshal}

  abbrev row : String → String → String → RowState → Json → Row Json
  row key id hash state j = record {
    idempotency_key = key;
    transaction_id = id;
    request_hash = hash;
    state = state;
    result_json = j;
  }

  -- Where a key and a transaction are free, a deletion finds only what stands behind.
  delete_rows-admitted :
      (key id hash : String) (j : Json) (rows : Journal c)
      → admits c key id rows ≡ true
      → delete_rows c key id hash (rows ++ row key id hash in_flight j ∷ []) ≡ (rows, 1)
  unfolding delete_rows admits is_reservation
  delete_rows-admitted key id hash j [] h =
      ground (arith, eq_iff key key, eq_iff id id, eq_iff hash hash)
  delete_rows-admitted key id hash j (r ∷ rows) h =
      let n : is_reservation c key id hash r ≡ false = ground arith in
      rw (n, delete_rows-admitted key id hash j rows (ground arith)) refl

  update_rows-admitted :
      (key id hash : String) (i j : Json) (rows : Journal c)
      → admits c key id rows ≡ true
      → update_rows c key id hash j (rows ++ row key id hash in_flight i ∷ [])
        ≡ (rows ++ row key id hash terminal j ∷ [], 1)
  unfolding update_rows admits is_reservation
  update_rows-admitted key id hash i j [] h =
      ground (arith, eq_iff key key, eq_iff id id, eq_iff hash hash)
  update_rows-admitted key id hash i j (r ∷ rows) h =
      let n : is_reservation c key id hash r ≡ false = ground arith in
      rw (n, update_rows-admitted key id hash i j rows (ground arith)) refl

  row_of_key-admitted :
      (key id hash : String) (s : RowState) (j : Json) (rows : Journal c)
      → admits c key id rows ≡ true
      → row_of_key c key (rows ++ row key id hash s j ∷ []) ≡ some (row key id hash s j)
  unfolding row_of_key admits
  row_of_key-admitted key id hash s j [] h = ground (arith, eq_iff key key)
  row_of_key-admitted key id hash s j (r ∷ rows) h =
      ground (arith, row_of_key-admitted key id hash s j rows)

  row_of_transaction-admitted :
      (key id hash : String) (s : RowState) (j : Json) (rows : Journal c)
      → admits c key id rows ≡ true
      → row_of_transaction c id (rows ++ row key id hash s j ∷ []) ≡ some (row key id hash s j)
  unfolding row_of_transaction admits
  row_of_transaction-admitted key id hash s j [] h = ground (arith, eq_iff id id)
  row_of_transaction-admitted key id hash s j (r ∷ rows) h =
      ground (arith, row_of_transaction-admitted key id hash s j rows)

  encoded :
      (o : Option Json) (j : Json)
      → elim o as (λ _. Result Error Json) [ none ↦ err not_encodable | some i ↦ ok i ] ≡ ok j
      → o ≡ some j
  encoded none j h = cc
  encoded (some i) j h = cc

  -- What is encoded is decoded as it was.
  decode-encode : (r : SendResult) (j : Json) → encode c r ≡ ok j → decode c j ≡ ok r
  unfolding encode decode
  decode-encode r j h = rw (unmarshal-marshal r j (encoded (marshal r) j h), decode) refl

  -- A reservation was written into a journal that admits it.
  reserve_send-admitted :
      (written : Bool) (rows rows' : Journal c) (key id hash : String) (r : SendResult)
      → reserve_send c written rows key id hash r ≡ ok rows'
      → (j : Json) × (admits c key id rows ≡ true)
        × (rows ++ row key id hash in_flight j ∷ [] ≡ rows')
  unfolding reserve_send insert_row
  reserve_send-admitted written rows rows' key id hash r h =
      let (j, e, h') = chain_steps (encode c r) _ h in (j, ground arith, ground arith)

  -- A reservation that is deleted again leaves the journal as it was before, and the deletion reports
  -- no error when the engine carries it out.
  pub delete_send_reservation-reserve_send :
      (written : Bool) (rows rows' : Journal c) (key id hash : String) (r : SendResult)
      → reserve_send c written rows key id hash r ≡ ok rows'
      → delete_send_reservation c true rows' key id hash ≡ (rows, ok tt)
  unfolding delete_send_reservation expect_one
  delete_send_reservation-reserve_send written rows rows' key id hash r h =
      let (j, a, e) = reserve_send-admitted written rows rows' key id hash r h in
      rw (sym e, delete_rows-admitted key id hash j rows a) refl

  -- A result that is finalized over its reservation, and that can be encoded, is what the journal then
  -- has under the key with the hash, and what it has with the key for the transaction.
  pub get_send_result-finalize_send :
      (written : Bool) (rows rows' : Journal c) (key id hash : String) (p r : SendResult) (j : Json)
      → reserve_send c written rows key id hash p ≡ ok rows'
      → encode c r ≡ ok j
      → let (settled, done) = finalize_send c true rows' key id hash r in
        (done ≡ ok tt)
        × (get_send_result c true settled key hash ≡ ok (some r))
        × (get_send_result_for_transaction c true settled id ≡ ok (some (key, r)))
  unfolding finalize_send update_encoded expect_one get_send_result stored_result
      get_send_result_for_transaction stored_for_transaction
  get_send_result-finalize_send written rows rows' key id hash p r j h e =
      let (i, a, q) = reserve_send-admitted written rows rows' key id hash p h in
      let same : hash == hash ≡ true = ground (arith, eq_iff hash hash) in
      rw (sym q, e, update_rows-admitted key id hash i j rows a)
        (rw
          (
            row_of_key-admitted key id hash terminal j rows a,
            row_of_transaction-admitted key id hash terminal j rows a,
            same,
            decode-encode r j e,
          )
          (refl, refl, refl))
