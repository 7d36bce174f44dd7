-- ===== src/Wecom/Login.antt =====
-- The login surfaces of internal/driver/wecom: semantic_guards.go, and driver.go.
use wechatcopilot.Prelude.{
  ℕ, suc, String, Bool, true, false, not, ◌&&◌, ◌||◌, List, [], ◌∷◌, ◌==◌, leb, Result, ok, err,
  if◌then◌else◌, codes,
}
use wechatcopilot.Prelude.Int.{pos, leb_ℤ}
use wechatcopilot.Driver.{
  RuntimeState, state_auth_required, state_starting, state_online, state_degraded,
}
use wechatcopilot.Wecom.{UiSnapshot, Failure, usable_bounds, bounds_width, bounds_height}
use wechatcopilot.Wecom.Fold.{Unicode, semantic_fold, codes_beq, matches_any, contains_any}
use wechatcopilot.Wecom.Tree.{node_label, matching_nodes}
use wechatcopilot.Wecom.Semantics.{
  node_semantic_evidence, action_matches_any, visible_snapshot_text, unique_visible_label_target,
}
use wechatcopilot.Wecom.Surfaces.{
  default_wecom_package, conversation_activity, login_wx_auth_activity, sms_verify_activity,
  launch_activity, is_wecom_activity, any_node,
}
use wechatcopilot.Wecom.Challenge.{structured_security_challenge}

abbrev only_one : {A : Type 0} → List A → Bool
only_one [] = false
only_one (x ∷ []) = true
only_one (x ∷ y ∷ rest) = false

-- `structuredSMSFallback`
unfoldable pub structured_sms_fallback : Unicode → UiSnapshot → Bool
unfolding any_node
structured_sms_fallback u s =
    s.package_name == default_wecom_package
    && not (is_wecom_activity s conversation_activity)
    && only_one (
        matching_nodes (λ n. n.visible_to_user && n.enabled && n.editable && usable_bounds n.bounds)
          s.nodes)
    && any_node
        (λ n.
          n.visible_to_user
          && contains_any u (node_semantic_evidence u n)
              ("verification code" ∷ "enter code" ∷ "sms code" ∷ "验证码" ∷ "短信验证码" ∷ []))
        s.nodes
    && any_node
        (λ n.
          n.visible_to_user
          && n.enabled
          && n.clickable
          && usable_bounds n.bounds
          && action_matches_any u s n
              ("确定" ∷ "登录" ∷ "下一步" ∷ "验证" ∷ "submit" ∷ "continue" ∷ "verify" ∷ []))
        s.nodes

-- `structuredQRFallback`
unfoldable pub structured_qr_fallback : Unicode → UiSnapshot → Bool
unfolding any_node
structured_qr_fallback u s =
    s.package_name == default_wecom_package
    && not (is_wecom_activity s conversation_activity)
    && any_node
        (λ n.
          n.visible_to_user
          && usable_bounds n.bounds
          && contains_any u (node_semantic_evidence u n)
              ("scan with wechat" ∷ "scan to log in" ∷ "登录二维码" ∷ "扫码登录" ∷ []))
        s.nodes
    && any_node
        (λ n.
          n.visible_to_user
          && usable_bounds n.bounds
          && contains_any u (codes n.class_name) ("imageview" ∷ "image" ∷ [])
          && leb_ℤ (pos 80) (bounds_width n.bounds)
          && leb_ℤ (pos 80) (bounds_height n.bounds))
        s.nodes

-- `hasWeComLoginAgreementControl`
unfoldable pub has_login_agreement_control : UiSnapshot → Bool
unfolding any_node
has_login_agreement_control s =
    any_node
      (λ n. n.class_name == "android.widget.ImageView" && n.view_id == "com.tencent.wework:id/ow")
      s.nodes

abbrev is_found : {A : Type 0} → Result Failure A → Bool
is_found (ok a) = true
is_found (err e) = false

-- `hasPrivacyConsentModalMarker`
unfoldable pub has_privacy_consent_modal_marker : Unicode → UiSnapshot → Bool
has_privacy_consent_modal_marker u s =
    let visible = visible_snapshot_text u s in
    s.package_name == default_wecom_package
    && not (is_wecom_activity s conversation_activity)
    && contains_any u visible ("privacy policy" ∷ "隐私政策" ∷ "隐私保护指引" ∷ [])
    && contains_any u visible ("welcome to wecom" ∷ "欢迎使用企业微信" ∷ [])
    && ((is_found (unique_visible_label_target u s ("Agree" ∷ "同意" ∷ []))
          && is_found (unique_visible_label_target u s ("Disagree" ∷ "不同意" ∷ [])))
        || (is_wecom_activity s login_wx_auth_activity || is_wecom_activity s launch_activity))

-- Whether a visible node has this label when both are folded.
shows_label : Unicode → UiSnapshot → String → Bool
unfolding any_node
shows_label u s label =
    any_node
      (λ n. n.visible_to_user && codes_beq (semantic_fold u (codes (node_label n))) (codes label))
      s.nodes

-- `hasWeComLoginMethodMarker`
unfoldable pub has_login_method_marker : Unicode → UiSnapshot → Bool
unfolding shows_label
has_login_method_marker u s =
    let visible = visible_snapshot_text u s in
    s.package_name == default_wecom_package
    && not (is_wecom_activity s conversation_activity)
    && contains_any u visible ("read and agree" ∷ [])
    && contains_any u visible ("software licensing and service agreements" ∷ [])
    && contains_any u visible ("privacy policy" ∷ [])
    && shows_label u s "continue with wechat"
    && shows_label u s "continue with email"
    && shows_label u s "continue with phone"
    && has_login_agreement_control s

-- The login surfaces that `authenticationSurface` and `classifyLogin` have in common.
unfoldable pub is_login_surface : Unicode → UiSnapshot → Bool
is_login_surface u s =
    is_wecom_activity s login_wx_auth_activity
    || is_wecom_activity s sms_verify_activity
    || has_login_agreement_control s
    || has_login_method_marker u s
    || has_privacy_consent_modal_marker u s

-- `authenticationSurface`
unfoldable pub authentication_surface : Unicode → UiSnapshot → Bool
authentication_surface u s =
    s.package_name == default_wecom_package
    && (is_login_surface u s || structured_sms_fallback u s || structured_qr_fallback u s)

bottom_nav : Unicode → UiSnapshot → List String → ℕ
unfolding any_node
bottom_nav u s [] = 0
bottom_nav u s (label ∷ rest) =
    let n = bottom_nav u s rest in
    if any_node (λ n. n.visible_to_user && matches_any u (codes (node_label n)) (label ∷ []))
      s.nodes
    then suc n
    else n

-- `classifyLogin`, without the words that come with the state.
unfoldable pub classify_login : Unicode → UiSnapshot → RuntimeState
unfolding bottom_nav
classify_login u s =
    let official = s.package_name == default_wecom_package in
    if structured_security_challenge u s
    then state_auth_required
    else if official && is_login_surface u s
    then state_auth_required
    else if official && is_wecom_activity s launch_activity
    then state_starting
    else if official && leb 2 (bottom_nav u s ("消息" ∷ "邮件" ∷ "文档" ∷ "工作台" ∷ "通讯录" ∷ []))
    then state_online
    else if s.package_name == ""
    then state_starting
    else state_degraded
