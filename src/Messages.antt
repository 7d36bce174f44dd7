-- ===== src/Messages.antt =====
-- internal/index/store.go: the messages of an account in its index, and AddMessages. A statement of SQL is
-- read as SQL defines it.
pub mod Recorded
pub mod Batches
pub mod Steps
pub mod Added
pub mod Answered
mod Examples
use wechatcopilot.Prelude.{
  ℕ, suc, zero, ◌+◌, String, Bool, true, false, not, ◌&&◌, ◌||◌, Option, none, some, List, [], ◌∷◌,
  ◌++◌, ◌==◌, contains, nat_beq, if◌then◌else◌, Result, ok, err,
}
use wechatcopilot.Driver.{Attachment}

-- `Message`, but for its confidence and its raw form.
pub record Message : Type 0 where
  pub id : String
  pub external_id : String
  pub conversation_id : String
  pub gap_before : Bool
  pub sender_id : String
  pub sender_name : String
  pub sent_at : ℕ
  pub kind : String
  pub text : String
  pub attachments : List Attachment
  pub reply_to : String
  pub surface_ref : String
  pub source : String
  pub complete : Bool
  pub sequence : ℕ

-- The tables messages, with the sequence that it gave last, and messages_fts, and the identifiers of the
-- table conversations.
pub record Index : Type 0 where
  pub messages : List Message
  pub last_sequence : ℕ
  pub words : List (String × String × String)
  pub conversations : List String

pub data IndexError : Type 0 where
  identity_required identity_mismatch engine_failed : IndexError

-- Whether the engine carries out the statements for one message: the insertion, the update of the gap, the
-- query for the sequence, and the insertion of the words.
pub record Statements : Type 0 where
  pub inserts : Bool
  pub updates : Bool
  pub reads : Bool
  pub indexes : Bool

-- The keys of two rows collide: UNIQUE id, and messages_external_conversation.
unfoldable pub collides : Message → Message → Bool
collides m r =
    r.id == m.id || (r.conversation_id == m.conversation_id && r.external_id == m.external_id)

unfoldable pub is_indexed : Message → List Message → Bool
unfolding collides
is_indexed m [] = false
is_indexed m (r ∷ rest) = collides m r || is_indexed m rest

-- The condition of the update of the gap.
unfoldable pub is_same : Message → Message → Bool
is_same m r =
    r.id == m.id && r.external_id == m.external_id && r.conversation_id == m.conversation_id

unfoldable pub mark_gaps : Message → List Message → List Message
unfolding is_same
mark_gaps m [] = []
mark_gaps m (r ∷ rest) =
    (if is_same m r then record r { gap_before = true } else r) ∷ mark_gaps m rest

unfoldable pub count_same : Message → List Message → ℕ
unfolding is_same
count_same m [] = 0
count_same m (r ∷ rest) = let n = count_same m rest in if is_same m r then suc n else n

unfoldable pub insert_message : Index → Message → Index
insert_message x m = record x {
  messages = x.messages ++ record m { sequence = suc x.last_sequence } ∷ [];
  last_sequence = suc x.last_sequence;
  words = x.words ++ (m.id, m.text, m.sender_name) ∷ [];
}

-- A row with the keys is there.
unfoldable pub add_known : Statements → Index → Message → Result IndexError (Index × List Message)
add_known e x m =
    if not m.gap_before
    then ok (x, [])
    else if not e.updates
    then err engine_failed
    else if not (nat_beq (count_same m x.messages) 1)
    then err identity_mismatch
    else ok (record x { messages = mark_gaps m x.messages }, [])

-- No row has a key of the message.
unfoldable pub add_new : Statements → Index → Message → Result IndexError (Index × List Message)
add_new e x m =
    if not (contains m.conversation_id x.conversations)
    then err engine_failed
    else if not (e.reads && e.indexes)
    then err engine_failed
    else ok (insert_message x m, record m { sequence = suc x.last_sequence } ∷ [])

-- The body of the loop.
unfoldable pub add_one : Statements → Index → Message → Result IndexError (Index × List Message)
unfolding add_known
add_one e x m =
    if m.id == "" || m.external_id == "" || m.conversation_id == ""
    then err identity_required
    else if not e.inserts
    then err engine_failed
    else if is_indexed m x.messages
    then add_known e x m
    else add_new e x m

unfoldable pub joined :
    List Message
    → Result IndexError (Index × List Message)
    → Result IndexError (Index × List Message)
joined inserted (err e) = err e
joined inserted (ok (x, inserted')) = ok (x, inserted ++ inserted')

unfoldable pub after_one :
    (Index → Result IndexError (Index × List Message))
    → Result IndexError (Index × List Message)
    → Result IndexError (Index × List Message)
after_one rest (err e) = err e
after_one rest (ok (x, inserted)) = joined inserted (rest x)

unfoldable pub add_each :
    Index → List (Statements × Message) → Result IndexError (Index × List Message)
unfolding after_one joined
add_each x [] = ok (x, [])
add_each x ((e, m) ∷ rest) = after_one (λ x'. add_each x' rest) (add_one e x m)

-- The end of the transaction: what it did is kept only when it is committed.
unfoldable pub commit_messages :
    Bool
    → Index
    → Result IndexError (Index × List Message)
    → Index × Result IndexError (List Message)
commit_messages commits x (err e) = (x, err e)
commit_messages true x (ok (x', inserted)) = (x', ok inserted)
commit_messages false x (ok (x', inserted)) = (x, err engine_failed)

-- `AddMessages`
unfoldable pub add_messages :
    Bool → Bool → Index → List (Statements × Message) → Index × Result IndexError (List Message)
add_messages begins commits x messages =
    if not begins then (x, err engine_failed) else commit_messages commits x (add_each x messages)
