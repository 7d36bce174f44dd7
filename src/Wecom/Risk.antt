-- ===== src/Wecom/Risk.antt =====
-- Payments and authorizations in internal/driver/wecom/semantic_guards.go.
use wechatcopilot.Prelude.{ℕ, Bool, not, ◌&&◌, ◌||◌, List, [], ◌∷◌, ◌==◌, if◌then◌else◌, codes}
use wechatcopilot.Wecom.{Node, UiSnapshot, usable_bounds}
use wechatcopilot.Wecom.Fold.{Unicode, contains_any}
use wechatcopilot.Wecom.Tree.{action_semantic_nodes}
use wechatcopilot.Wecom.Semantics.{
  node_user_facing_values, action_semantic_evidence, any_value_matches,
}
use wechatcopilot.Wecom.Surfaces.{
  default_wecom_package, conversation_activity, high_risk_activity_markers, is_wecom_activity,
  any_node, named_activity,
}

-- `sensitiveSurfaceLabel`
unfoldable pub sensitive_surface_label : Unicode → List ℕ → Bool
sensitive_surface_label u label = contains_any u label (
    "支付" ∷ "付款" ∷ "收款" ∷ "转账" ∷ "红包" ∷ "授权" ∷ "允许" ∷ "身份验证" ∷ "实名认证" ∷ "账号安全" ∷ "账户安全" ∷ "购买" ∷ "下单"
    ∷ "充值" ∷ "提现" ∷ "签署" ∷ "登录" ∷ "密码" ∷ "银行卡" ∷ "pay" ∷ "payment" ∷ "transfer" ∷ "red packet"
    ∷ "authorize" ∷ "permission" ∷ "identity verification" ∷ "account security" ∷ "purchase"
    ∷ "checkout" ∷ "place order" ∷ "top up" ∷ "recharge" ∷ "withdraw" ∷ "sign agreement" ∷ "sign in"
    ∷ "log in" ∷ "login" ∷ "password" ∷ "bank card" ∷ [])

is_sensitive_part : Unicode → Node → Bool
is_sensitive_part u n =
    any_value_matches u (node_user_facing_values u n) (
      "支付" ∷ "立即支付" ∷ "确认支付" ∷ "付款" ∷ "确认付款" ∷ "转账" ∷ "确认转账" ∷ "发红包" ∷ "授权" ∷ "允许授权" ∷ "购买" ∷ "立即购买"
      ∷ "下单" ∷ "提交订单" ∷ "充值" ∷ "提现" ∷ "pay" ∷ "pay now" ∷ "confirm payment" ∷ "transfer"
      ∷ "send red packet" ∷ "authorize" ∷ "allow" ∷ "purchase" ∷ "buy now" ∷ "place order"
      ∷ "top up" ∷ "withdraw" ∷ [])
    || contains_any u (codes n.view_id) (
        "pay" ∷ "payment" ∷ "wallet" ∷ "transfer" ∷ "redpacket" ∷ "red_packet" ∷ "authorize"
        ∷ "purchase" ∷ "checkout" ∷ "recharge" ∷ "withdraw" ∷ [])

-- `sensitiveConversationControl`
unfoldable pub sensitive_conversation_control : Unicode → UiSnapshot → Node → Bool
unfolding any_node is_sensitive_part
sensitive_conversation_control u s target =
    any_node (is_sensitive_part u) (action_semantic_nodes s target)

is_high_risk : Unicode → UiSnapshot → Bool → Node → Bool
is_high_risk u s conversation n =
    let actionable = n.clickable || n.checkable || (not conversation && n.editable) in
    let sensitive =
      if conversation
      then sensitive_conversation_control u s n
      else sensitive_surface_label u (action_semantic_evidence u s n) in
    n.visible_to_user && n.enabled && usable_bounds n.bounds && actionable && sensitive

-- `structuredHighRiskSurface` and `surfaceHighRisk`
unfoldable pub structured_high_risk_surface : Unicode → UiSnapshot → Bool
unfolding any_node is_high_risk
structured_high_risk_surface u s =
    let conversation = is_wecom_activity s conversation_activity in
    s.package_name == default_wecom_package
    && (named_activity u s high_risk_activity_markers
        || (not conversation && sensitive_surface_label u (codes s.window_title))
        || any_node (is_high_risk u s conversation) s.nodes)
