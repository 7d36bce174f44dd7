-- ===== src/Messages/Answered.antt =====
-- When AddMessages succeeds.
use wechatcopilot.Prelude.{true, false, List, ◌≡◌, contains, Result, ok, err}
use wechatcopilot.Messages.{Message, Index, IndexError, Statements}
use wechatcopilot.Messages.Recorded.{IsNamed}

-- The engine carries out the statements for a message that is named, that belongs to a conversation of the index, and
-- that tells of no gap.
pub record IsCarried (x : Index) (b : Statements × Message) : Type 0 where
  pub inserts : b.0.inserts ≡ true
  pub reads : b.0.reads ≡ true
  pub indexes : b.0.indexes ≡ true
  pub named : IsNamed b.1
  pub filed : contains b.1.conversation_id x.conversations ≡ true
  pub gapless : b.1.gap_before ≡ false

-- A step that succeeds, and leaves the conversations as they are.
abbrev Goes : Index → Result IndexError (Index × List Message) → Type 0
Goes x (ok (n, inserted)) = n.conversations ≡ x.conversations
Goes x (err e) = ⊥
