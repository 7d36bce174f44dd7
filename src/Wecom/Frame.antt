-- ===== src/Wecom/Frame.antt =====
-- internal/driver/wecom/send_guard.go: the frame of a conversation, in which a message may be sent.
pub mod Parts
pub mod Safety
use wechatcopilot.Prelude.{
  ℕ, suc, String, Bool, true, false, not, ◌&&◌, ◌||◌, Option, none, some, List, [], ◌∷◌, ◌==◌, Dict,
  dict_get, Result, ok, err, ◌>>=◌, if◌then◌else◌, codes, trim_space,
}
use wechatcopilot.Prelude.Int.{ℤ, pos, ◌+ℤ◌, ◌-ℤ◌, ◌*ℤ◌, ◌/ℤ◌, negated, ltb_ℤ, leb_ℤ, beq_ℤ}
use wechatcopilot.Wecom.{
  Node, UiSnapshot, Bounds, Failure, target_ambiguous, not_found, stale, auth_required,
  user_action_required, usable_bounds, bounds_inside, bounds_width, bounds_height, bounds_center_x,
  bounds_center_y, bounds_beq,
}
use wechatcopilot.Wecom.Fold.{Unicode, semantic_fold, codes_beq, matches_any}
use wechatcopilot.Wecom.Tree.{
  matching_nodes, node_label, unique_node_index, climb, rounds, last_node, is_descendant,
  is_descendant_or_self,
}
use wechatcopilot.Wecom.Surfaces.{default_wecom_package, conversation_activity, is_wecom_activity}
use wechatcopilot.Wecom.Challenge.{structured_security_challenge}
use wechatcopilot.Wecom.Risk.{structured_high_risk_surface}
use wechatcopilot.Wecom.Login.{authentication_surface}

pub record SurfaceIdentity : Type 0 where
  pub package_name : String
  pub window_id : ℤ
  pub window_class : String

-- A node as a binding has it.
pub record Anchor : Type 0 where
  pub id : String
  pub class_name : String
  pub view_id : String
  pub bounds : Bounds

-- `title` is folded.
pub record ChatBinding : Type 0 where
  pub identity : SurfaceIdentity
  pub title : List ℕ
  pub viewport : Bounds
  pub header : Anchor
  pub header_scope : Anchor
  pub composer : Anchor
  pub footer : Anchor

pub record ChatFrame : Type 0 where
  pub snapshot : UiSnapshot
  pub binding : ChatBinding
  pub composer : Node
  pub send : Option Node

unfoldable pub ensure : Bool → Failure → Result Failure (Unit {0})
ensure true e = ok tt
ensure false e = err e

-- The checks of the title and of the surface.
unfoldable pub check_surface : Unicode → UiSnapshot → String → Result Failure (Unit {0})
check_surface u s title =
    if title == ""
    then err target_ambiguous
    else if not (s.package_name == default_wecom_package)
    then err target_ambiguous
    else if authentication_surface u s
    then err auth_required
    else if structured_security_challenge u s || structured_high_risk_surface u s
    then err user_action_required
    else if not (is_wecom_activity s conversation_activity)
    then err target_ambiguous
    else if not (ltb_ℤ (pos 0) s.sequence) || ltb_ℤ s.window_id (pos 0)
    then err stale
    else ok tt

usable_viewport : Option Node → Result Failure Bounds
usable_viewport none = err stale
usable_viewport (some root) =
    if not root.visible_to_user || not (usable_bounds root.bounds)
    then err stale
    else if ltb_ℤ (bounds_width root.bounds) (pos 100)
        || ltb_ℤ (bounds_height root.bounds) (pos 100)
    then err stale
    else ok root.bounds

unfoldable pub find_viewport : Dict Node → Result Failure Bounds
unfolding usable_viewport
find_viewport index = usable_viewport (dict_get index "0")

unfoldable pub bounds_header : Bounds → Node → Node → Bool
bounds_header viewport header p =
    not (p.id == "0")
    && p.visible_to_user
    && usable_bounds p.bounds
    && bounds_inside viewport p.bounds
    && bounds_inside p.bounds header.bounds
    && leb_ℤ p.bounds.top (viewport.top +ℤ bounds_height viewport /ℤ 10)
    && leb_ℤ p.bounds.bottom (viewport.top +ℤ (bounds_height viewport *ℤ 2) /ℤ 5)
    && leb_ℤ (bounds_height p.bounds) ((bounds_height viewport *ℤ 2) /ℤ 5)

unfoldable pub or_failure : Failure → Option Node → Result Failure Node
or_failure e none = err e
or_failure e (some n) = ok n

-- `boundedHeaderAncestor`
unfoldable pub bounded_header_ancestor : Node → Dict Node → Bounds → Result Failure Node
bounded_header_ancestor header index viewport = or_failure target_ambiguous (
    last_node (
      matching_nodes (bounds_header viewport header)
        (climb index (λ p. p.id == header.id) (rounds index) header.parent_id)))

abbrev is_found : Result Failure Node → Bool
is_found (ok n) = true
is_found (err e) = false

unfoldable pub is_header : Unicode → Dict Node → Bounds → String → Node → Bool
is_header u index viewport title n =
    not (n.id == "")
    && n.visible_to_user
    && not n.editable
    && usable_bounds n.bounds
    && codes_beq (semantic_fold u (codes (node_label n))) (semantic_fold u (codes title))
    && bounds_inside viewport n.bounds
    && is_found (bounded_header_ancestor n index viewport)

-- The only one of the nodes.
unfoldable pub only_node : Failure → List Node → Result Failure Node
only_node e [] = err e
only_node e (n ∷ []) = ok n
only_node e (n ∷ m ∷ rest) = err target_ambiguous

unfoldable pub is_composer : Bounds → Node → Bool
is_composer viewport n =
    not (n.id == "")
    && n.visible_to_user
    && n.enabled
    && n.editable
    && usable_bounds n.bounds
    && bounds_inside viewport n.bounds
    && leb_ℤ (viewport.top +ℤ (bounds_height viewport *ℤ 3) /ℤ 5) (bounds_center_y n.bounds)

unfoldable pub bounds_footer : Bounds → Node → Node → Bool
bounds_footer viewport composer p =
    not (p.id == "0")
    && p.visible_to_user
    && usable_bounds p.bounds
    && bounds_inside viewport p.bounds
    && bounds_inside p.bounds composer.bounds
    && leb_ℤ (viewport.top +ℤ bounds_height viewport /ℤ 2) p.bounds.top
    && leb_ℤ (bounds_height p.bounds) (bounds_height viewport /ℤ 2)

-- `boundedFooterAncestor`
unfoldable pub bounded_footer_ancestor : Node → Dict Node → Bounds → Result Failure Node
bounded_footer_ancestor composer index viewport = or_failure stale (
    last_node (
      matching_nodes (bounds_footer viewport composer)
        (climb index (λ p. p.id == composer.id) (rounds index) composer.parent_id)))

unfoldable pub overlaps : Node → Node → Bool
overlaps header footer =
    is_descendant_or_self header.id footer.id || leb_ℤ footer.bounds.top header.bounds.bottom

unfoldable pub anchor_of : Node → Anchor
anchor_of n = record {
  id = n.id;
  class_name = n.class_name;
  view_id = n.view_id;
  bounds = n.bounds;
}

-- `identityForSurface`
unfoldable pub identity_for_surface : UiSnapshot → SurfaceIdentity
identity_for_surface s = record {
  package_name = s.package_name;
  window_id = s.window_id;
  window_class = trim_space s.window_class;
}

unfoldable pub anchor_beq : Anchor → Anchor → Bool
anchor_beq a b =
    a.id == b.id
    && a.class_name == b.class_name
    && a.view_id == b.view_id
    && bounds_beq a.bounds b.bounds

unfoldable pub identity_beq : SurfaceIdentity → SurfaceIdentity → Bool
identity_beq a b =
    a.package_name == b.package_name
    && beq_ℤ a.window_id b.window_id
    && a.window_class == b.window_class

-- `==` on chatBinding
unfoldable pub binding_beq : ChatBinding → ChatBinding → Bool
binding_beq a b =
    identity_beq a.identity b.identity
    && codes_beq a.title b.title
    && bounds_beq a.viewport b.viewport
    && anchor_beq a.header b.header
    && anchor_beq a.header_scope b.header_scope
    && anchor_beq a.composer b.composer
    && anchor_beq a.footer b.footer

unfoldable pub is_expected : Option ChatBinding → ChatBinding → Bool
is_expected none binding = true
is_expected (some expected) binding = binding_beq binding expected

abbrev min_ℤ : ℤ → ℤ → ℤ
min_ℤ a b = if ltb_ℤ a b then a else b

abbrev max_ℤ : ℤ → ℤ → ℤ
max_ℤ a b = if ltb_ℤ b a then a else b

-- The send control lies next to the composer, on its right.
unfoldable pub is_adjacent : ChatBinding → Node → Bool
is_adjacent b n =
    let vertical_overlap =
      min_ℤ n.bounds.bottom b.composer.bounds.bottom -ℤ max_ℤ n.bounds.top b.composer.bounds.top in
    let min_height = min_ℤ (bounds_height n.bounds) (bounds_height b.composer.bounds) in
    let horizontal_gap = n.bounds.left -ℤ b.composer.bounds.right in
    not (ltb_ℤ (vertical_overlap *ℤ 2) min_height)
    && not (ltb_ℤ horizontal_gap (negated (bounds_width b.composer.bounds) /ℤ 5))
    && not (ltb_ℤ (bounds_width b.viewport /ℤ 4) horizontal_gap)
    && ltb_ℤ (bounds_center_x b.composer.bounds) (bounds_center_x n.bounds)

unfoldable pub is_send : Unicode → ChatBinding → Node → Bool
is_send u b n =
    not (n.id == "")
    && n.visible_to_user
    && n.enabled
    && n.clickable
    && usable_bounds n.bounds
    && matches_any u (codes (node_label n)) ("发送" ∷ "send" ∷ [])
    && is_descendant n.id b.footer.id
    && bounds_inside b.footer.bounds n.bounds
    && is_adjacent b n

-- `uniqueNearbySend`
unfoldable pub unique_nearby_send : Unicode → UiSnapshot → ChatBinding → Result Failure Node
unique_nearby_send u s b = only_node not_found (matching_nodes (is_send u b) s.nodes)

-- A send control that is missing is an error only where it is required.
unfoldable pub send_or_none : Bool → Result Failure Node → Result Failure (Option Node)
send_or_none required (ok n) = ok (some n)
send_or_none true (err e) = err e
send_or_none false (err not_found) = ok none
send_or_none false (err e) = err e

unfoldable pub binding_of :
    Unicode → UiSnapshot → String → Bounds → Node → Node → Node → Node → ChatBinding
binding_of u s title viewport header scope composer footer = record {
  identity = identity_for_surface s;
  title = semantic_fold u (codes title);
  viewport = viewport;
  header = anchor_of header;
  header_scope = anchor_of scope;
  composer = anchor_of composer;
  footer = anchor_of footer;
}

-- The end, behind the search for the parts of the frame.
unfoldable pub close_frame :
    Unicode → UiSnapshot → Option ChatBinding → Bool → ChatBinding → Node → Result Failure ChatFrame
close_frame u s expected require_send binding composer =
    ensure (is_expected expected binding) stale >>= λ _.
    send_or_none require_send (unique_nearby_send u s binding) >>= λ send.
    ok (record { snapshot = s; binding = binding; composer = composer; send = send })

-- `validateChatFrame`
unfoldable pub validate_chat_frame :
    Unicode → UiSnapshot → String → Option ChatBinding → Bool → Result Failure ChatFrame
validate_chat_frame u s title expected require_send =
    let name = trim_space title in
    check_surface u s name >>= λ _. unique_node_index s.nodes >>= λ index.
    find_viewport index >>= λ viewport.
    only_node target_ambiguous (matching_nodes (is_header u index viewport name) s.nodes)
    >>= λ header. bounded_header_ancestor header index viewport >>= λ scope.
        only_node not_found (matching_nodes (is_composer viewport) s.nodes) >>= λ composer.
        bounded_footer_ancestor composer index viewport >>= λ footer.
        ensure (not (overlaps header footer)) target_ambiguous >>= λ _.
        close_frame u s expected require_send
          (binding_of u s name viewport header scope composer footer) composer
