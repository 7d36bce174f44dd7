-- ===== src/Wecom/Frame/Parts.antt =====
-- What a frame that is accepted was put together from.
use wechatcopilot.Prelude.{
  String, Bool, true, false, not, Option, ◌≡◌, refl, Dict, Result, ok, chain_steps, arith,
  trim_space,
}
use wechatcopilot.Wecom.{Node, UiSnapshot, Bounds, Failure, target_ambiguous, not_found, stale}
use wechatcopilot.Wecom.Fold.{Unicode}
use wechatcopilot.Wecom.Tree.{matching_nodes, unique_node_index}
use wechatcopilot.Wecom.Frame.{
  ChatBinding, ChatFrame, ensure, check_surface, find_viewport, is_header, is_composer, only_node,
  bounded_header_ancestor, bounded_footer_ancestor, overlaps, binding_of, is_expected, send_or_none,
  unique_nearby_send, close_frame, validate_chat_frame,
}

ensured : (b : Bool) (e : Failure) {a : Unit {0}} → ensure b e ≡ ok a → b ≡ true
unfolding ensure
ensured true e h = refl
ensured false e h = cc

ok_inj : {A : Type 0} {a b : A} → ◌≡◌ {A = Result Failure A} (ok a) (ok b) → a ≡ b
ok_inj h = cc

module _ (u : Unicode) (s : UiSnapshot) (title : String) (expected : Option ChatBinding)
    (require_send : Bool) where
  pub record Parts (frame : ChatFrame) : Type 0 where
    pub index : Dict Node
    pub viewport : Bounds
    pub header : Node
    pub scope : Node
    pub composer : Node
    pub footer : Node
    pub send : Option Node
    pub surface : check_surface u s (trim_space title) ≡ ok tt
    pub indexed : unique_node_index s.nodes ≡ ok index
    pub seen : find_viewport index ≡ ok viewport
    pub only_header :
        only_node target_ambiguous
          (matching_nodes (is_header u index viewport (trim_space title)) s.nodes)
        ≡ ok header
    pub scoped : bounded_header_ancestor header index viewport ≡ ok scope
    pub only_composer :
        only_node not_found (matching_nodes (is_composer viewport) s.nodes) ≡ ok composer
    pub based : bounded_footer_ancestor composer index viewport ≡ ok footer
    pub apart : overlaps header footer ≡ false
    pub expectation :
        is_expected expected
          (binding_of u s (trim_space title) viewport header scope composer footer)
        ≡ true
    pub sending :
        send_or_none require_send (
          unique_nearby_send u s
            (binding_of u s (trim_space title) viewport header scope composer footer))
        ≡ ok send
    pub whole :
        record {
          snapshot = s;
          binding = binding_of u s (trim_space title) viewport header scope composer footer;
          composer = composer;
          send = send;
        }
        ≡ frame

  close_frame-steps :
      (binding : ChatBinding) (composer : Node) (frame : ChatFrame)
      → close_frame u s expected require_send binding composer ≡ ok frame
      → (is_expected expected binding ≡ true)
        × ((send : Option Node) × (send_or_none require_send (unique_nearby_send u s binding)
              ≡ ok send)
            × (record { snapshot = s; binding = binding; composer = composer; send = send }
                ≡ frame))
  unfolding close_frame
  close_frame-steps binding composer frame h =
      let (_, e, h') = chain_steps (ensure (is_expected expected binding) stale) _ h in
      let (send, k, h'') =
        chain_steps (send_or_none require_send (unique_nearby_send u s binding)) _ h' in
      (ensured (is_expected expected binding) stale e, (send, k, ok_inj h''))

  pub accepted-Parts :
      (frame : ChatFrame)
      → validate_chat_frame u s title expected require_send ≡ ok frame
      → Parts frame
  unfolding validate_chat_frame
  accepted-Parts frame h =
      let name = trim_space title in
      let (_, surface, h1) = chain_steps (check_surface u s name) _ h in
      let (index, indexed, h2) = chain_steps (unique_node_index s.nodes) _ h1 in
      let (viewport, seen, h3) = chain_steps (find_viewport index) _ h2 in
      let (header, only_header, h4) =
        chain_steps
          (only_node target_ambiguous (matching_nodes (is_header u index viewport name) s.nodes)) _
          h3 in
      let (scope, scoped, h5) = chain_steps (bounded_header_ancestor header index viewport) _ h4 in
      let (composer, only_composer, h6) =
        chain_steps (only_node not_found (matching_nodes (is_composer viewport) s.nodes)) _ h5 in
      let (footer, based, h7) =
        chain_steps (bounded_footer_ancestor composer index viewport) _ h6 in
      let (_, apart, h8) =
        chain_steps (ensure (not (overlaps header footer)) target_ambiguous) _ h7 in
      let (expectation, (send, sending, whole)) =
        close_frame-steps (binding_of u s name viewport header scope composer footer) composer frame
          h8 in
      record {
        index = index;
        viewport = viewport;
        header = header;
        scope = scope;
        composer = composer;
        footer = footer;
        send = send;
        surface = surface;
        indexed = indexed;
        seen = seen;
        only_header = only_header;
        scoped = scoped;
        only_composer = only_composer;
        based = based;
        apart =
            flipped (overlaps header footer)
              (ensured (not (overlaps header footer)) target_ambiguous apart);
        expectation = expectation;
        sending = sending;
        whole = whole;
      }
    where
      flipped : (b : Bool) → not b ≡ true → b ≡ false
      flipped b q = ground arith
