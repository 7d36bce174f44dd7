-- ===== src/Messages/Examples.antt =====
-- A batch of two messages, the first of which comes again with a gap, and the theorems at it.
use wechatcopilot.Prelude.{String, true, false, List, [], ◌∷◌, ◌≡◌, refl, contains}
use wechatcopilot.Messages.{
  collides, after_one, joined, add_known, count_same, is_same, mark_gaps, Message, Index,
  Statements, is_indexed, insert_message, add_each, add_one, add_new, commit_messages, add_messages,
}

abbrev message : String → String → Message
message id external_id = record {
  id = id;
  external_id = external_id;
  conversation_id = "c";
  gap_before = false;
  sender_id = "";
  sender_name = "";
  sent_at = 0;
  kind = "text";
  text = "hi";
  attachments = [];
  reply_to = "";
  surface_ref = "";
  source = "";
  complete = true;
  sequence = 0;
}

abbrev fresh : Index
fresh = record { messages = []; last_sequence = 0; words = []; conversations = "c" ∷ [] }

abbrev carried : Statements
carried = record { inserts = true; updates = true; reads = true; indexes = true }

abbrev first : Message
first = message "m1" "e1"

abbrev second : Message
second = message "m2" "e2"

abbrev three : List (Statements × Message)
three = (carried, first) ∷ (carried, second) ∷ (carried, record first { gap_before = true }) ∷ []

abbrev stored : List Message
stored = record first { gap_before = true; sequence = 1 } ∷ record second { sequence = 2 } ∷ []

three-added : (add_messages true true fresh three).0.messages ≡ stored
unfolding add_messages add_each add_one add_new insert_message is_indexed collides commit_messages
    contains after_one joined add_known count_same is_same mark_gaps
three-added = refl

abbrev twice : List (Statements × Message)
twice = (carried, first) ∷ (carried, first) ∷ []
