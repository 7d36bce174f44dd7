-- ===== src/Wecom/Frame/Safety.antt =====
-- What holds of a frame in which the driver may send.
use wechatcopilot.Prelude.{
  String, Bool, true, false, ◌||◌, Option, some, ◌≡◌, refl, sym, ◌∙◌, ap, subst, arith, Dict,
  Result, ok, err, trim_space,
}
use wechatcopilot.Prelude.Int.{leb_ℤ, ◌≤ℤ◌}
use wechatcopilot.Wecom.{
  bounds_inside, Node, UiSnapshot, Bounds, Failure, target_ambiguous, not_found, stale,
}
use wechatcopilot.Wecom.Fold.{Unicode}
use wechatcopilot.Wecom.Tree.{matching_nodes, is_descendant_or_self}
use wechatcopilot.Wecom.Surfaces.{conversation_activity, is_wecom_activity}
use wechatcopilot.Wecom.Challenge.{structured_security_challenge}
use wechatcopilot.Wecom.Risk.{structured_high_risk_surface}
use wechatcopilot.Wecom.Login.{authentication_surface}
use wechatcopilot.Wecom.Frame.{
  ChatBinding, ChatFrame, bounded_header_ancestor, bounds_header, bounded_footer_ancestor,
  bounds_footer, check_surface, is_composer, only_node, overlaps, binding_of, anchor_of,
  identity_for_surface, is_expected, send_or_none, unique_nearby_send, is_send, validate_chat_frame,
}
use wechatcopilot.Wecom.Frame.Parts.{accepted-Parts}
use wechatcopilot.Wecom.Equality.{same_binding}
use wechatcopilot.Wecom.Found.{IsOnly, only_node-IsOnly, last_matching-passes}

-- A conversation of the official client that asks for no login, no challenge and no payment.
pub record IsHarmless (u : Unicode) (s : UiSnapshot) : Type 0 where
  pub no_login : authentication_surface u s ≡ false
  pub no_challenge : structured_security_challenge u s ≡ false
  pub no_risk : structured_high_risk_surface u s ≡ false
  pub in_conversation : is_wecom_activity s conversation_activity ≡ true

check_surface-IsHarmless :
    (u : Unicode) (s : UiSnapshot) (title : String)
    → check_surface u s title ≡ ok tt
    → IsHarmless u s
unfolding check_surface
check_surface-IsHarmless u s title h = record {
  no_login = ground arith;
  no_challenge = ground arith;
  no_risk = ground arith;
  in_conversation = ground arith;
}

required_send :
    (u : Unicode) (s : UiSnapshot) (b : ChatBinding) (send : Option Node)
    → send_or_none true (unique_nearby_send u s b) ≡ ok send
    → (n : Node) × (send ≡ some n) × IsOnly (is_send u b) s.nodes n
unfolding unique_nearby_send
required_send u s b send h = go (only_node not_found (matching_nodes (is_send u b) s.nodes)) refl h
  where
    go :
        (o : Result Failure Node)
        → only_node not_found (matching_nodes (is_send u b) s.nodes) ≡ o
        → send_or_none true o ≡ ok send
        → (n : Node) × (send ≡ some n) × IsOnly (is_send u b) s.nodes n
    go (ok n) e q = (
      n,
      found n (unfold send_or_none in q),
      only_node-IsOnly not_found (is_send u b) s.nodes n e,
    )
      where
        found :
            (n : Node)
            → ◌≡◌ {A = Result Failure (Option Node)} (ok (some n)) (ok send)
            → send ≡ some n
        found n q = cc
    go (err e) k q = absurd (lost (unfold send_or_none in q))
      where
        lost : ◌≡◌ {A = Result Failure (Option Node)} (err e) (ok send) → ⊥
        lost q = cc

-- A frame that was accepted for a binding.
pub record IsSafe (u : Unicode) (s : UiSnapshot) (b : ChatBinding) (frame : ChatFrame)
    : Type 0 where
  pub harmless : IsHarmless u s
  pub same_snapshot : frame.snapshot ≡ s
  pub same_binding_kept : frame.binding ≡ b
  pub same_surface : identity_for_surface s ≡ b.identity
  pub apart : ¬ (b.footer.bounds.top ≤ℤ b.header.bounds.bottom)
  pub header_within : bounds_inside b.header_scope.bounds b.header.bounds ≡ true
  pub footer_around : bounds_inside b.footer.bounds b.composer.bounds ≡ true
  pub composer_anchor : anchor_of frame.composer ≡ b.composer
  pub only_composer : IsOnly (is_composer b.viewport) s.nodes frame.composer
  pub send_control : (n : Node) × (frame.send ≡ some n) × IsOnly (is_send u b) s.nodes n

not_overlapping :
    (header footer : Node)
    → overlaps header footer ≡ false
    → ¬ (footer.bounds.top ≤ℤ header.bounds.bottom)
unfolding overlaps
not_overlapping header footer h = below (is_descendant_or_self header.id footer.id) h
  where
    below :
        (x : Bool)
        → (x || leb_ℤ footer.bounds.top header.bounds.bottom) ≡ false
        → ¬ (footer.bounds.top ≤ℤ header.bounds.bottom)
    below x q k = ground arith

header_scope-holds :
    (header scope : Node) (index : Dict Node) (viewport : Bounds)
    → bounded_header_ancestor header index viewport ≡ ok scope
    → bounds_inside scope.bounds header.bounds ≡ true
unfolding bounded_header_ancestor bounds_header
header_scope-holds header scope index viewport h =
    let passed = last_matching-passes target_ambiguous (bounds_header viewport header) _ scope h in
    ground arith

footer-holds :
    (composer footer : Node) (index : Dict Node) (viewport : Bounds)
    → bounded_footer_ancestor composer index viewport ≡ ok footer
    → bounds_inside footer.bounds composer.bounds ≡ true
unfolding bounded_footer_ancestor bounds_footer
footer-holds composer footer index viewport h =
    let passed = last_matching-passes stale (bounds_footer viewport composer) _ footer h in
    ground arith

-- A frame that is accepted for the binding of a prepared send, and from which the message is to be sent: the screen is a
-- conversation of the official client that asks for no login, no challenge and no payment, the binding is exactly the
-- prepared one, the footer begins below the header, the header
-- and the composer lie within their scopes, the composer of the binding is the only one that the screen has, and
-- just one node of the screen is a send control in the footer next to that composer, which is the one of the frame.
pub validate_chat_frame-IsSafe :
    (u : Unicode) (s : UiSnapshot) (title : String) (b : ChatBinding) (frame : ChatFrame)
    → validate_chat_frame u s title (some b) true ≡ ok frame
    → IsSafe u s b frame
unfolding is_expected binding_of anchor_of identity_for_surface
validate_chat_frame-IsSafe u s title b frame h =
    let v = accepted-Parts u s title (some b) true frame h in
    let built = binding_of u s (trim_space title) v.viewport v.header v.scope v.composer v.footer in
    let same : built ≡ b = same_binding built b v.expectation in
    record {
      harmless = check_surface-IsHarmless u s (trim_space title) v.surface;
      same_snapshot = ap (λ (f : ChatFrame). f.snapshot) (sym v.whole);
      same_binding_kept = ap (λ (f : ChatFrame). f.binding) (sym v.whole) ∙ same;
      same_surface = ap (λ (x : ChatBinding). x.identity) same;
      apart =
          subst (λ (x : ChatBinding). ¬ (x.footer.bounds.top ≤ℤ x.header.bounds.bottom)) same
            (not_overlapping v.header v.footer v.apart);
      header_within =
          subst (λ (x : ChatBinding). bounds_inside x.header_scope.bounds x.header.bounds ≡ true)
            same (header_scope-holds v.header v.scope v.index v.viewport v.scoped);
      footer_around =
          subst (λ (x : ChatBinding). bounds_inside x.footer.bounds x.composer.bounds ≡ true) same
            (footer-holds v.composer v.footer v.index v.viewport v.based);
      composer_anchor =
          ap (λ (f : ChatFrame). anchor_of f.composer) (sym v.whole)
          ∙ ap (λ (x : ChatBinding). x.composer) same;
      only_composer =
          subst (λ (x : ChatBinding). IsOnly (is_composer x.viewport) s.nodes frame.composer) same
            (subst (λ n. IsOnly (is_composer v.viewport) s.nodes n)
              (ap (λ (f : ChatFrame). f.composer) v.whole)
              (only_node-IsOnly not_found (is_composer v.viewport) s.nodes v.composer
                v.only_composer));
      send_control =
          (let (n, found, only) = required_send u s built v.send v.sending in
            (
              n,
              ap (λ (f : ChatFrame). f.send) (sym v.whole) ∙ found,
              subst (λ x. IsOnly (is_send u x) s.nodes n) same only,
            ));
    }
