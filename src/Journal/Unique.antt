-- ===== src/Journal/Unique.antt =====
-- The unique columns of the journal, and the rows that its statements leave.
use wechatcopilot.Prelude.{
  String, Bool, true, false, [], ◌∷◌, ◌++◌, ◌≡◌, ◌≢◌, sym, ap, subst, ◌∙◌, inl, inr, ok, All, In,
  In-cons, In-head, In-snoc, In-last, here, there, arith, eq_iff, Bool-cases,
}
use wechatcopilot.Journal.{
  Codec, Row, terminal, Journal, admits, insert_row, is_reservation, update_rows, delete_rows,
}

module _ (c : Codec) where
  open c use {Json}

  -- No two rows share an idempotency key or a transaction.
  pub record Differ (r q : Row Json) : Type 0 where
    pub keys : r.idempotency_key ≢ q.idempotency_key
    pub transactions : r.transaction_id ≢ q.transaction_id

  pub admits-true :
      (key id : String) (rows : Journal c)
      → admits c key id rows ≡ true
      → All (λ r. (r.idempotency_key ≢ key) × (r.transaction_id ≢ id)) rows
  unfolding admits
  admits-true key id [] h = tt
  admits-true key id (r ∷ rows) h = (
    (
      λ e. ground (arith, eq_iff r.idempotency_key key),
      λ e. ground (arith, eq_iff r.transaction_id id),
    ),
    admits-true key id rows (ground arith),
  )

  -- A row is not a reservation and another row at once.
  other_row :
      (key id hash : String) (q r : Row Json)
      → is_reservation c key id hash q ≡ true
      → is_reservation c key id hash r ≡ false
      → r ≢ q
  other_row key id hash q r h n e = clash (sym n ∙ ap (is_reservation c key id hash) e ∙ h)
    where
      clash : false ≡ true → ⊥
      clash p = cc

  -- A row that is no reservation of these three stays, as it is, through an update and a deletion.
  pub update_rows-In :
      (key id hash : String) (j : Json) (rows : Journal c) (r : Row Json)
      → In r rows
      → is_reservation c key id hash r ≡ false
      → In r (update_rows c key id hash j rows).0
  unfolding update_rows
  update_rows-In key id hash j [] r i n = elim i [ ]
  update_rows-In key id hash j (q ∷ rows) r i n =
      elim (Bool-cases (is_reservation c key id hash q)) [
        | inl h ↦ rw h (elim (In-cons i) [
          | inl e ↦ absurd (other_row key id hash q r h n e)
          | inr k ↦ there (update_rows-In key id hash j rows r k n)
        ])
        | inr h ↦ rw h (elim (In-cons i) [
          | inl e ↦ In-head e
          | inr k ↦ there (update_rows-In key id hash j rows r k n)
        ])
      ]

  pub delete_rows-In :
      (key id hash : String) (rows : Journal c) (r : Row Json)
      → In r rows
      → is_reservation c key id hash r ≡ false
      → In r (delete_rows c key id hash rows).0
  unfolding delete_rows
  delete_rows-In key id hash [] r i n = elim i [ ]
  delete_rows-In key id hash (q ∷ rows) r i n = elim (Bool-cases (is_reservation c key id hash q)) [
    | inl h ↦ rw h (elim (In-cons i) [
      | inl e ↦ absurd (other_row key id hash q r h n e)
      | inr k ↦ delete_rows-In key id hash rows r k n
    ])
    | inr h ↦ rw h (elim (In-cons i) [
      | inl e ↦ In-head e
      | inr k ↦ there (delete_rows-In key id hash rows r k n)
    ])
  ]

  -- A row for this key and this transaction, whatever its state.
  abbrev pub HasRow : String → String → Journal c → Type 0
  HasRow key id rows =
      (r : Row Json) × In r rows × (r.idempotency_key ≡ key) × (r.transaction_id ≡ id)

  HasRow-there :
      {key id : String} {q : Row Json} {rows : Journal c}
      → HasRow key id rows
      → HasRow key id (q ∷ rows)
  HasRow-there (r, i, k, t) = (r, there i, k, t)

  -- An update keeps the key and the transaction of every row.
  pub update_rows-HasRow :
      (key id hash : String) (j : Json) (rows : Journal c) (k t : String)
      → HasRow k t rows
      → HasRow k t (update_rows c key id hash j rows).0
  unfolding update_rows
  update_rows-HasRow key id hash j [] k t (r, i, _, _) = elim i [ ]
  update_rows-HasRow key id hash j (q ∷ rows) k t (r, i, ek, et) =
      elim (Bool-cases (is_reservation c key id hash q)) [
        | inl h ↦ rw h (elim (In-cons i) [
          | inl e ↦ (
            record q { state = terminal; result_json = j },
            here,
            ap (λ (x : Row Json). x.idempotency_key) (sym e) ∙ ek,
            ap (λ (x : Row Json). x.transaction_id) (sym e) ∙ et,
          )
          | inr l ↦ HasRow-there (update_rows-HasRow key id hash j rows k t (r, l, ek, et))
        ])
        | inr h ↦ rw h (elim (In-cons i) [
          | inl e ↦ (
            q,
            here,
            ap (λ (x : Row Json). x.idempotency_key) (sym e) ∙ ek,
            ap (λ (x : Row Json). x.transaction_id) (sym e) ∙ et,
          )
          | inr l ↦ HasRow-there (update_rows-HasRow key id hash j rows k t (r, l, ek, et))
        ])
      ]

  -- A deletion keeps the rows of other keys.
  pub delete_rows-HasRow :
      (key id hash : String) (rows : Journal c) (k t : String)
      → k ≢ key
      → HasRow k t rows
      → HasRow k t (delete_rows c key id hash rows).0
  delete_rows-HasRow key id hash rows k t n (r, i, ek, et) =
      (r, delete_rows-In key id hash rows r i (not_reserved r (λ e. n (sym ek ∙ e))), ek, et)
    where
      not_reserved :
          (x : Row Json) → x.idempotency_key ≢ key → is_reservation c key id hash x ≡ false
      not_reserved x d = unfold is_reservation in ground (arith, eq_iff x.idempotency_key key)

  -- A row that could be inserted stands in the journal, beside all that stood there, whose keys and
  -- transactions are others.
  pub record Inserted (r : Row Json) (rows rows' : Journal c) : Type 0 where
    pub added : In r rows'
    pub kept : (q : Row Json) → In q rows → In q rows'
    pub fresh :
        All
          (λ q. (q.idempotency_key ≢ r.idempotency_key) × (q.transaction_id ≢ r.transaction_id))
          rows

  pub insert_row-Inserted :
      (written : Bool) (r : Row Json) (rows rows' : Journal c)
      → insert_row c written r rows ≡ ok rows'
      → Inserted r rows rows'
  unfolding insert_row
  insert_row-Inserted written r rows rows' h =
      let e : rows ++ r ∷ [] ≡ rows' = ground arith in
      record {
        added = subst (In r) e (In-last rows r);
        kept = λ q i. subst (In q) e (In-snoc rows r q i);
        fresh = admits-true r.idempotency_key r.transaction_id rows (ground arith);
      }
