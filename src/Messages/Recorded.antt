-- ===== src/Messages/Recorded.antt =====
-- What a batch of messages leaves in the index: a description that AddMessages is checked against, and how the
-- descriptions of two batches, one after the other, give that of both.
use wechatcopilot.Prelude.{
  ℕ, suc, String, Bool, true, false, ◌&&◌, ◌||◌, List, [], ◌∷◌, ◌++◌, map, ◌≡◌, ◌≢◌, refl, ap, ◌∙◌,
  All, AllPairs, In, arith,
}
use wechatcopilot.Messages.{Message, Index, is_indexed, is_same}

-- The three keys of a message are there.
pub record IsNamed (m : Message) : Type 0 where
  pub id : m.id ≢ ""
  pub external_id : m.external_id ≢ ""
  pub conversation_id : m.conversation_id ≢ ""

-- Some message of the batch is this row, and says that there is a gap before it.
unfoldable pub asks_gap : List Message → Message → Bool
unfolding is_same
asks_gap [] r = false
asks_gap (m ∷ ms) r = m.gap_before && is_same m r || asks_gap ms r

-- Some row is this message, and shows the gap before it.
unfoldable pub shows_gap : Message → List Message → Bool
unfolding is_same
shows_gap m [] = false
shows_gap m (r ∷ rows) = is_same m r && r.gap_before || shows_gap m rows

-- What becomes of a row: nothing but its gap changes, and that only if the batch asks for it.
pub record Marked (ms : List Message) (a b : Message) : Type 0 where
  pub same : b ≡ record a { gap_before = b.gap_before }
  pub kept : a.gap_before ≡ true → b.gap_before ≡ true
  pub asked : b.gap_before ≡ true → (a.gap_before || asks_gap ms a) ≡ true

-- A row that is a message of the batch, but for its sequence.
pub record Requested (ms : List Message) (r : Message) : Type 0 where
  pub message : Message
  pub listed : In message ms
  pub row : r ≡ record message { sequence = r.sequence }

-- The rows have the sequences that follow the first number, up to the second.
abbrev pub IsNumbered : ℕ → List Message → ℕ → Type 0
IsNumbered first [] last = last ≡ first
IsNumbered first (r ∷ rows) last = (r.sequence ≡ suc first) × IsNumbered (suc first) rows last

abbrev pub words_of : Message → String × String × String
words_of r = (r.id, r.text, r.sender_name)

-- The index has taken in a batch, of which these rows are new.
pub record IsRecorded (ms : List Message) (x n : Index) (inserted : List Message) : Type 0 where
  pub named : All IsNamed ms
  pub known : All (λ m. is_indexed m n.messages ≡ true) ms
  pub gaps : All (λ (m : Message). m.gap_before ≡ true → shows_gap m n.messages ≡ true) ms
  pub rows : AllPairs (Marked ms) (x.messages ++ inserted) n.messages
  pub fresh : All (λ r. is_indexed r x.messages ≡ false) inserted
  pub requested : All (Requested ms) inserted
  pub numbered : IsNumbered x.last_sequence inserted n.last_sequence
  pub words : n.words ≡ x.words ++ map words_of inserted
  pub conversations : n.conversations ≡ x.conversations

pub Marked-refl : (ms : List Message) (a : Message) → Marked ms a a
Marked-refl ms a = record { same = refl; kept = λ h. h; asked = λ h. ground (arith, h) }

asks_gap-same :
    (ms : List Message) (a : Message) (g : Bool)
    → asks_gap ms (record a { gap_before = g }) ≡ asks_gap ms a
unfolding asks_gap is_same
asks_gap-same [] a g = refl
asks_gap-same (m ∷ ms) a g = rw (asks_gap-same ms a g) refl

pub Marked-later :
    (m : Message) (ms : List Message) (a b : Message) → Marked ms a b → Marked (m ∷ ms) a b
unfolding asks_gap
Marked-later m ms a b h = record {
  same = h.same;
  kept = h.kept;
  asked = λ g. ground (arith, h.asked g);
}

pub Marked-trans :
    (m : Message) (ms : List Message) (a b c : Message)
    → Marked (m ∷ []) a b
    → Marked ms b c
    → Marked (m ∷ ms) a c
unfolding asks_gap
Marked-trans m ms a b c h k =
    let e : asks_gap ms b ≡ asks_gap ms a =
      ap (asks_gap ms) h.same ∙ asks_gap-same ms a b.gap_before in
    record {
      same = k.same ∙ ap (λ (z : Message). record z { gap_before = c.gap_before }) h.same;
      kept = λ g. k.kept (h.kept g);
      asked = λ g. joined b.gap_before (k.asked g) e h.asked;
    }
  where
    joined :
        (g : Bool)
        → (g || asks_gap ms b) ≡ true
        → asks_gap ms b ≡ asks_gap ms a
        → (g ≡ true → (a.gap_before || (m.gap_before && is_same m a || false)) ≡ true)
        → (a.gap_before || (m.gap_before && is_same m a || asks_gap ms a)) ≡ true
    joined true p e f = ground (arith, f refl)
    joined false p e f = ground (arith, e)
