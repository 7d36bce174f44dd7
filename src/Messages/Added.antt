-- ===== src/Messages/Added.antt =====
-- What AddMessages does with a batch of messages.
use wechatcopilot.Prelude.{List, map, ◌≡◌, Result, ok, err}
use wechatcopilot.Messages.{Message, Index, IndexError, Statements}
use wechatcopilot.Messages.Recorded.{IsRecorded}

abbrev pub messages_of : List (Statements × Message) → List Message
messages_of batch = map (λ (b : Statements × Message). b.1) batch

-- A call that fails leaves the index as it was, and one that succeeds has recorded the batch.
abbrev pub Adds : List Message → Index → Index × Result IndexError (List Message) → Type 0
Adds ms x (n, ok inserted) = IsRecorded ms x n inserted
Adds ms x (n, err e) = n ≡ x
