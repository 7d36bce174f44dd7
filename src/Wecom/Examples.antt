-- ===== src/Wecom/Examples.antt =====
-- A screen with a conversation, and the theorems at it.
use wechatcopilot.Prelude.{
  ℕ, zero, suc, length, subst, arith, ◌+◌, String, true, false, ◌&&◌, none, some, List, [], ◌∷◌,
  ◌≡◌, ◌≢◌, ◌↔◌, refl, Result, ok, leb, if◌then◌else◌, Dict, dict_get, dict_put, trim_space, In,
}
use wechatcopilot.Prelude.Int.{ℤ, pos, ◌≤ℤ◌, ◌+ℤ◌, ◌-ℤ◌, ◌*ℤ◌, ◌/ℤ◌, negated}
use wechatcopilot.Wecom.{
  Node, UiSnapshot, Bounds, Failure, bounds_width, bounds_height, bounds_center_x, bounds_center_y,
  usable_bounds, bounds_inside, bounds_beq,
}
use wechatcopilot.Wecom.Fold.{
  Unicode, matches_any, contains_any, semantic_fold, codes_beq, has_prefix,
}
use wechatcopilot.Wecom.Tree.{
  matching_nodes, node_label, unique_node_index, climb, last_node, is_descendant,
  is_descendant_or_self, action_semantic_nodes,
}
use wechatcopilot.Wecom.Semantics.{
  append_distinct_semantic_values, node_semantic_values, node_user_facing_values,
  node_semantic_evidence, any_value_matches, visible_snapshot_text, unique_visible_label_target,
}
use wechatcopilot.Wecom.Surfaces.{
  default_wecom_package, conversation_activity, is_wecom_activity, any_node,
}
use wechatcopilot.Wecom.Challenge.{structured_security_challenge}
use wechatcopilot.Wecom.Risk.{structured_high_risk_surface, sensitive_conversation_control}
use wechatcopilot.Wecom.Login.{
  authentication_surface, is_login_surface, structured_sms_fallback, structured_qr_fallback,
  has_login_agreement_control, has_login_method_marker, has_privacy_consent_modal_marker,
}
use wechatcopilot.Wecom.Frame.{
  ChatBinding, ChatFrame, Anchor, validate_chat_frame, check_surface, find_viewport, is_header,
  only_node, bounded_header_ancestor, bounds_header, or_failure, is_composer,
  bounded_footer_ancestor, bounds_footer, overlaps, ensure, binding_of, anchor_of,
  identity_for_surface, close_frame, is_expected, binding_beq, anchor_beq, identity_beq,
  send_or_none, unique_nearby_send, is_send, is_adjacent,
}
use wechatcopilot.Wecom.Frame.Safety.{IsSafe, validate_chat_frame-IsSafe}
use wechatcopilot.Wecom.Bubbles.{
  Watch, Observation, seen, wait_for_bubble, is_confirming, is_stable, observed, round_end,
  same_evidence, outgoing_bubble_evidence, shows_text, deepest, holds_bubble,
  directional_bubble_container, right_aligned_within,
}
use wechatcopilot.Wecom.Bubbles.Stable.{IsConfirmed, wait_for_bubble-IsConfirmed}
use wechatcopilot.Wecom.Events.{Event, EventPage, max_events, all_events}
use wechatcopilot.Wecom.Events.Bounds.{ObeysLimit, EndsWithin, all_events-EndsWithin}
use wechatcopilot.Wecom.Index.{unique_node_index-finds}

abbrev ascii : Unicode
ascii = record {
  is_cc = λ c. leb c 31;
  is_cf = λ c. false;
  is_cs = λ c. false;
  is_han = λ c. leb 0x4e00 c && leb c 0x9fff;
  to_lower = λ c. if leb 65 c && leb c 90 then c + 32 else c;
}

abbrev box : ℕ → ℕ → ℕ → ℕ → Bounds
box l t r b = record { left = pos l; top = pos t; right = pos r; bottom = pos b }

abbrev plain : String → String → String → Bounds → Node
plain id parent_id text bounds = record {
  id = id;
  parent_id = parent_id;
  class_name = "";
  view_id = "";
  text = text;
  content_description = "";
  bounds = bounds;
  clickable = false;
  checkable = false;
  checked = false;
  selected = none;
  editable = false;
  scrollable = false;
  enabled = true;
  focused = false;
  visible_to_user = true;
}

abbrev root : Node
root = plain "0" "" "" (box 0 0 1000 2000)

abbrev bar : Node
bar = plain "0/0" "0" "" (box 0 0 1000 150)

abbrev title_node : Node
title_node = plain "0/0/0" "0/0" "Ada" (box 100 20 600 120)

abbrev footer_node : Node
footer_node = plain "0/1" "0" "" (box 0 1800 1000 2000)

abbrev composer_node : Node
composer_node = record (plain "0/1/0" "0/1" "hi" (box 0 1800 800 2000)) { editable = true }

abbrev send_node : Node
send_node = record (plain "0/1/1" "0/1" "Send" (box 810 1800 1000 2000)) { clickable = true }

abbrev screen : UiSnapshot
screen = record {
  sequence = pos 7;
  package_name = default_wecom_package;
  window_id = pos 3;
  window_title = "";
  window_class = conversation_activity;
  nodes = root ∷ bar ∷ title_node ∷ footer_node ∷ composer_node ∷ send_node ∷ [];
}

abbrev anchor : Node → Anchor
anchor n = record { id = n.id; class_name = n.class_name; view_id = n.view_id; bounds = n.bounds }

abbrev prepared : ChatBinding
prepared = record {
  identity = record {
    package_name = default_wecom_package;
    window_id = pos 3;
    window_class = conversation_activity;
  };
  title = 97 ∷ 100 ∷ 97 ∷ [];
  viewport = box 0 0 1000 2000;
  header = anchor title_node;
  header_scope = anchor bar;
  composer = anchor composer_node;
  footer = anchor footer_node;
}

abbrev found_frame : ChatFrame
found_frame = record {
  snapshot = screen;
  binding = prepared;
  composer = composer_node;
  send = some send_node;
}

screen_found : validate_chat_frame ascii screen "Ada" (some prepared) true ≡ ok found_frame
unfolding check_surface authentication_surface is_login_surface structured_sms_fallback
    structured_qr_fallback has_login_agreement_control has_login_method_marker
    has_privacy_consent_modal_marker structured_security_challenge structured_high_risk_surface
    sensitive_conversation_control is_wecom_activity trim_space any_node matching_nodes
    usable_bounds bounds_inside bounds_beq contains_any semantic_fold codes_beq matches_any
    node_semantic_evidence node_semantic_values node_user_facing_values
    append_distinct_semantic_values action_semantic_nodes any_value_matches visible_snapshot_text
    unique_visible_label_target has_prefix dict_get dict_put validate_chat_frame unique_node_index
    find_viewport is_header only_node bounded_header_ancestor bounds_header or_failure is_composer
    bounded_footer_ancestor bounds_footer overlaps ensure binding_of anchor_of identity_for_surface
    close_frame is_expected binding_beq anchor_beq identity_beq send_or_none unique_nearby_send
    is_send is_adjacent climb last_node is_descendant is_descendant_or_self node_label bounds_width
    bounds_height bounds_center_x bounds_center_y ◌+ℤ◌ ◌-ℤ◌ ◌*ℤ◌ ◌/ℤ◌ negated
screen_found = refl

validate_chat_frame-IsSafe_example : IsSafe ascii screen prepared found_frame
validate_chat_frame-IsSafe_example =
    validate_chat_frame-IsSafe ascii screen "Ada" prepared found_frame screen_found

abbrev bubble_row : Node
bubble_row = plain "0/2" "0" "" (box 300 1000 990 1100)

abbrev bubble : Node
bubble = plain "0/2/0" "0/2" "hi" (box 500 1010 980 1090)

-- The screen after the send, with the bubble.
abbrev sent_screen : UiSnapshot
sent_screen = record screen {
  sequence = pos 8;
  nodes =
      root
      ∷ bar
      ∷ title_node
      ∷ bubble_row
      ∷ bubble
      ∷ footer_node
      ∷ record composer_node { text = "" }
      ∷ send_node
      ∷ [];
}

abbrev watch : Watch
watch = record {
  title = "Ada";
  binding = prepared;
  text = "hi";
  baseline = 0;
  previous_sequence = pos 7;
}

abbrev watched : List Observation
watched = seen screen false false ∷ seen sent_screen false false ∷ seen sent_screen true false ∷ []

watched_sent : wait_for_bubble ascii watch none 0 watched ≡ some (ok true)
unfolding check_surface authentication_surface is_login_surface structured_sms_fallback
    structured_qr_fallback has_login_agreement_control has_login_method_marker
    has_privacy_consent_modal_marker structured_security_challenge structured_high_risk_surface
    sensitive_conversation_control is_wecom_activity trim_space any_node matching_nodes
    usable_bounds bounds_inside bounds_beq contains_any semantic_fold codes_beq matches_any
    node_semantic_evidence node_semantic_values node_user_facing_values
    append_distinct_semantic_values action_semantic_nodes any_value_matches visible_snapshot_text
    unique_visible_label_target has_prefix dict_get dict_put validate_chat_frame unique_node_index
    find_viewport is_header only_node bounded_header_ancestor bounds_header or_failure is_composer
    bounded_footer_ancestor bounds_footer overlaps ensure binding_of anchor_of identity_for_surface
    close_frame is_expected binding_beq anchor_beq identity_beq send_or_none unique_nearby_send
    is_send is_adjacent climb last_node is_descendant is_descendant_or_self node_label bounds_width
    bounds_height bounds_center_x bounds_center_y ◌+ℤ◌ ◌-ℤ◌ ◌*ℤ◌ ◌/ℤ◌ negated wait_for_bubble
    is_confirming is_stable observed round_end same_evidence outgoing_bubble_evidence shows_text
    deepest holds_bubble directional_bubble_container right_aligned_within
watched_sent = refl

wait_for_bubble-IsConfirmed_example : IsConfirmed ascii watch watched
wait_for_bubble-IsConfirmed_example = wait_for_bubble-IsConfirmed ascii watch watched watched_sent

abbrev notice : Event
notice = record {
  sequence = pos 4;
  kind = "message";
  package_name = default_wecom_package;
  conversation_key = "k";
  conversation = "Ada";
  sender = "Ada";
  title = "";
  text = "hi";
  openable = true;
  gap_before = false;
}

-- A companion with one event.
abbrev one_event : ℕ → ℤ → ℤ → Result Failure EventPage
one_event zero cursor limit =
    ok (record { events = notice ∷ []; next_cursor = pos 4; complete = true })
one_event (suc call) cursor limit =
    ok (record { events = []; next_cursor = cursor; complete = true })

page_inj : {a b : EventPage} → ◌≡◌ {A = Result Failure EventPage} (ok a) (ok b) → a ≡ b
page_inj q = cc

one_event-ObeysLimit : ObeysLimit one_event
one_event-ObeysLimit zero cursor limit page h q =
    subst (λ (p : EventPage). pos (length p.events) ≤ℤ limit) (page_inj q) h
one_event-ObeysLimit (suc call) cursor limit page h q =
    subst (λ (p : EventPage). pos (length p.events) ≤ℤ limit) (page_inj q) (omega arith)

all_events-EndsWithin_example : EndsWithin one_event max_events (all_events one_event 2001)
all_events-EndsWithin_example = all_events-EndsWithin one_event one_event-ObeysLimit

abbrev screen_index : Dict Node
screen_index =
    ("0/1/1", send_node)
    ∷ ("0/1/0", composer_node)
    ∷ ("0/1", footer_node)
    ∷ ("0/0/0", title_node)
    ∷ ("0/0", bar)
    ∷ ("0", root)
    ∷ []

screen_indexed : unique_node_index screen.nodes ≡ ok screen_index
unfolding unique_node_index dict_get dict_put
screen_indexed = refl

unique_node_index-finds_example :
    (dict_get screen_index "0/1" ≡ some footer_node)
    ↔ (In footer_node screen.nodes × (footer_node.id ≡ "0/1") × (◌≢◌ {A = String} "0/1" ""))
unique_node_index-finds_example =
    unique_node_index-finds screen.nodes screen_index "0/1" footer_node screen_indexed
