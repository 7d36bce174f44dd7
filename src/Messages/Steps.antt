-- ===== src/Messages/Steps.antt =====
-- What AddMessages does with one message.
use wechatcopilot.Prelude.{
  ℕ, suc, Bool, true, false, not, ◌&&◌, ◌||◌, List, [], ◌∷◌, ◌++◌, ◌==◌, ◌≡◌, refl, sym, subst, ◌∙◌,
  inl, inr, contains, nat_beq, Result, ok, err, Bool-cases, AllPairs, AllPairs-refl, here, arith,
  eq_iff, eq_refl,
}
use mathlib.Core.List.{append-nil}
use wechatcopilot.Messages.{
  Message, Index, IndexError, Statements, collides, is_indexed, is_same, mark_gaps, count_same,
  insert_message, add_known, add_new, add_one,
}
use wechatcopilot.Messages.Recorded.{IsNamed, asks_gap, shows_gap, Marked, IsRecorded, Marked-refl}
use wechatcopilot.Messages.Batches.{is_indexed-Marked}

-- A step or a loop that succeeds has recorded its messages.
abbrev pub Records : List Message → Index → Result IndexError (Index × List Message) → Type 0
Records ms x (ok (n, inserted)) = IsRecorded ms x n inserted
Records ms x (err e) = Unit

rows-kept : (ms : List Message) (rows : List Message) → AllPairs (Marked ms) (rows ++ []) rows
rows-kept ms rows =
    subst (λ (l : List Message). AllPairs (Marked ms) l rows) (sym (append-nil rows))
      (AllPairs-refl (Marked ms) rows (Marked-refl ms))

pub nothing-IsRecorded : (x : Index) → IsRecorded [] x x []
nothing-IsRecorded x = record {
  named = tt;
  known = tt;
  gaps = tt;
  rows = rows-kept [] x.messages;
  fresh = tt;
  requested = tt;
  numbered = refl;
  words = sym (append-nil x.words);
  conversations = refl;
}

-- The row of a message that is known is kept as it is when no gap stands before the message.
known-IsRecorded :
    (x : Index) (m : Message)
    → IsNamed m
    → is_indexed m x.messages ≡ true
    → m.gap_before ≡ false
    → IsRecorded (m ∷ []) x x []
known-IsRecorded x m named known g = record {
  named = (named, tt);
  known = (known, tt);
  gaps = (λ h. absurd (clash (sym h ∙ g)), tt);
  rows = rows-kept (m ∷ []) x.messages;
  fresh = tt;
  requested = tt;
  numbered = refl;
  words = sym (append-nil x.words);
  conversations = refl;
}
  where
    clash : true ≡ false → ⊥
    clash q = cc

mark_gaps-Marked :
    (m : Message) (rows : List Message)
    → m.gap_before ≡ true
    → AllPairs (Marked (m ∷ [])) rows (mark_gaps m rows)
unfolding mark_gaps
mark_gaps-Marked m [] g = tt
mark_gaps-Marked m (r ∷ rows) g = elim (Bool-cases (is_same m r)) [
  | inr c ↦ rw c (Marked-refl (m ∷ []) r, mark_gaps-Marked m rows g)
  | inl c ↦ rw c (
    record { same = refl; kept = λ h. refl; asked = λ h. unfold asks_gap in ground (arith, g, c) },
    mark_gaps-Marked m rows g,
  )
]

marked_hit :
    (m r : Message) (b : Bool)
    → is_same m r ≡ true
    → (is_same m (record r { gap_before = true }) && true || b) ≡ true
unfolding is_same
marked_hit m r b c = ground (arith, c)

-- An update that changed a row has marked it.
shows_gap-mark_gaps :
    (m : Message) (rows : List Message)
    → count_same m rows ≡ 1
    → shows_gap m (mark_gaps m rows) ≡ true
unfolding mark_gaps shows_gap count_same
shows_gap-mark_gaps m [] h = absurd (omega (arith, h))
shows_gap-mark_gaps m (r ∷ rows) h = elim (Bool-cases (is_same m r)) [
  | inr c ↦ rw c (later (shows_gap-mark_gaps m rows (rw c at h)))
  | inl c ↦ rw c (marked_hit m r (shows_gap m (mark_gaps m rows)) c)
]
  where
    later :
        shows_gap m (mark_gaps m rows) ≡ true
        → (is_same m r && r.gap_before || shows_gap m (mark_gaps m rows)) ≡ true
    later e = ground (arith, e)

marked-IsRecorded :
    (x : Index) (m : Message)
    → IsNamed m
    → is_indexed m x.messages ≡ true
    → m.gap_before ≡ true
    → count_same m x.messages ≡ 1
    → IsRecorded (m ∷ []) x (record x { messages = mark_gaps m x.messages }) []
marked-IsRecorded x m named known g one =
    let rows = mark_gaps-Marked m x.messages g in
    record {
      named = (named, tt);
      known = (is_indexed-Marked (m ∷ []) m x.messages (mark_gaps m x.messages) rows ∙ known, tt);
      gaps = (λ h. shows_gap-mark_gaps m x.messages one, tt);
      rows =
          subst (λ (l : List Message). AllPairs (Marked (m ∷ [])) l (mark_gaps m x.messages))
            (sym (append-nil x.messages)) rows;
      fresh = tt;
      requested = tt;
      numbered = refl;
      words = sym (append-nil x.words);
      conversations = refl;
    }

is_indexed-last :
    (m : Message) (n : ℕ) (rows : List Message)
    → is_indexed m (rows ++ record m { sequence = n } ∷ []) ≡ true
unfolding is_indexed collides
is_indexed-last m n [] = rw (eq_refl m.id) refl
is_indexed-last m n (r ∷ rows) = ground (arith, is_indexed-last m n rows)

shows_gap-last :
    (m : Message) (n : ℕ) (rows : List Message)
    → m.gap_before ≡ true
    → shows_gap m (rows ++ record m { sequence = n } ∷ []) ≡ true
unfolding shows_gap is_same
shows_gap-last m n [] g =
    rw (eq_refl m.id, eq_refl m.external_id, eq_refl m.conversation_id, g) refl
shows_gap-last m n (r ∷ rows) g = ground (arith, shows_gap-last m n rows g)

is_indexed-numbered :
    (m : Message) (n : ℕ) (rows : List Message)
    → is_indexed (record m { sequence = n }) rows ≡ is_indexed m rows
unfolding is_indexed collides
is_indexed-numbered m n [] = refl
is_indexed-numbered m n (r ∷ rows) = rw (is_indexed-numbered m n rows) refl

insert_message-IsRecorded :
    (x : Index) (m : Message)
    → IsNamed m
    → is_indexed m x.messages ≡ false
    → IsRecorded (m ∷ []) x (insert_message x m) (record m { sequence = suc x.last_sequence } ∷ [])
unfolding insert_message
insert_message-IsRecorded x m named new =
    let r : Message = record m { sequence = suc x.last_sequence } in
    record {
      named = (named, tt);
      known = (is_indexed-last m (suc x.last_sequence) x.messages, tt);
      gaps = (shows_gap-last m (suc x.last_sequence) x.messages, tt);
      rows = AllPairs-refl (Marked (m ∷ [])) (x.messages ++ r ∷ []) (Marked-refl (m ∷ []));
      fresh = (is_indexed-numbered m (suc x.last_sequence) x.messages ∙ new, tt);
      requested = (record { message = m; listed = here; row = refl }, tt);
      numbered = (refl, refl);
      words = refl;
      conversations = refl;
    }

counted_once : (n : ℕ) → nat_beq n 1 ≡ true → n ≡ 1
counted_once n h = ground (arith, h)

add_known-Records :
    (e : Statements) (x : Index) (m : Message)
    → IsNamed m
    → is_indexed m x.messages ≡ true
    → Records (m ∷ []) x (add_known e x m)
unfolding add_known
add_known-Records e x m named known = elim (Bool-cases m.gap_before) [
  | inr g ↦ simp g (known-IsRecorded x m named known g)
  | inl g ↦ elim (Bool-cases e.updates) [
    | inr k ↦ simp (g, k) tt
    | inl k ↦ elim (Bool-cases (nat_beq (count_same m x.messages) 1)) [
      | inr l ↦ simp (g, k) (rw l tt)
      | inl l ↦
          simp (g, k)
            (rw l (marked-IsRecorded x m named known g (counted_once (count_same m x.messages) l)))
    ]
  ]
]

add_new-Records :
    (e : Statements) (x : Index) (m : Message)
    → IsNamed m
    → is_indexed m x.messages ≡ false
    → Records (m ∷ []) x (add_new e x m)
unfolding add_new
add_new-Records e x m named new =
    elim (Bool-cases (not (contains m.conversation_id x.conversations))) [
      | inl k ↦ rw k tt
      | inr k ↦ rw k (elim (Bool-cases (not (e.reads && e.indexes))) [
        | inl l ↦ rw l tt
        | inr l ↦ rw l (insert_message-IsRecorded x m named new)
      ])
    ]

keys_by_test :
    (m : Message)
    → (m.id == "" || m.external_id == "" || m.conversation_id == "") ≡ false
    → IsNamed m
keys_by_test m h = record {
  id = λ e. ground (arith, eq_iff m.id "");
  external_id = λ e. ground (arith, eq_iff m.external_id "");
  conversation_id = λ e. ground (arith, eq_iff m.conversation_id "");
}

pub add_one-Records :
    (e : Statements) (x : Index) (m : Message) → Records (m ∷ []) x (add_one e x m)
unfolding add_one
add_one-Records e x m =
    elim (Bool-cases (m.id == "" || m.external_id == "" || m.conversation_id == "")) [
      | inl h ↦ rw h tt
      | inr h ↦ rw h (elim (Bool-cases (not e.inserts)) [
        | inl k ↦ rw k tt
        | inr k ↦ rw k (elim (Bool-cases (is_indexed m x.messages)) [
          | inl l ↦ rw l (add_known-Records e x m (keys_by_test m h) l)
          | inr l ↦ rw l (add_new-Records e x m (keys_by_test m h) l)
        ])
      ])
    ]
