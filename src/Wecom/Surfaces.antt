-- ===== src/Wecom/Surfaces.antt =====
-- The surfaces of the client that internal/driver/wecom tells apart.
use wechatcopilot.Prelude.{
  String, Bool, false, not, ◌&&◌, ◌||◌, List, [], ◌∷◌, ◌==◌, codes, trim_space,
}
use wechatcopilot.Wecom.{Node, UiSnapshot}
use wechatcopilot.Wecom.Fold.{Unicode, codes_beq, contains_any, lowered}

abbrev pub default_wecom_package : String
default_wecom_package = "com.tencent.wework"

abbrev pub conversation_activity : String
conversation_activity = "com.tencent.wework.msg.controller.ConversationActivity"

abbrev pub login_wx_auth_activity : String
login_wx_auth_activity = "com.tencent.wework.login.controller.LoginWxAuthActivity"

abbrev pub sms_verify_activity : String
sms_verify_activity = "com.tencent.wework.login.controller.LoginVeryfyStep2Activity"

abbrev pub launch_activity : String
launch_activity = "com.tencent.wework.launch.LaunchSplashActivity"

abbrev pub security_challenge_markers : List String
security_challenge_markers =
    "账号存在风险" ∷ "账户存在风险" ∷ "设备验证" ∷ "安全验证" ∷ "异常登录" ∷ "确认本人操作" ∷ "account risk"
    ∷ "device verification" ∷ "security verification" ∷ "unusual login" ∷ "confirm on your phone"
    ∷ "人脸验证" ∷ "人脸识别" ∷ "滑块验证" ∷ "完成验证" ∷ "face verification" ∷ "captcha" ∷ []

abbrev pub security_challenge_action_labels : List String
security_challenge_action_labels =
    "确认本人操作" ∷ "开始验证" ∷ "去验证" ∷ "继续验证" ∷ "完成验证" ∷ "重新验证" ∷ "verify" ∷ "start verification"
    ∷ "continue" ∷ "confirm" ∷ "retry" ∷ []

abbrev pub security_metadata_markers : List String
security_metadata_markers =
    "verify" ∷ "verification" ∷ "captcha" ∷ "slider" ∷ "security" ∷ "risk" ∷ "face_auth"
    ∷ "faceauth" ∷ []

abbrev pub high_risk_activity_markers : List String
high_risk_activity_markers =
    "pay" ∷ "payment" ∷ "wallet" ∷ "transfer" ∷ "cash" ∷ "bankcard" ∷ "bank_card" ∷ "checkout"
    ∷ "purchase" ∷ "orderpay" ∷ "authorize" ∷ "authorization" ∷ "permission" ∷ []

-- `isWeComActivity`
unfoldable pub is_wecom_activity : UiSnapshot → String → Bool
is_wecom_activity s activity =
    s.package_name == default_wecom_package && trim_space s.window_class == activity

unfoldable pub any_node : (Node → Bool) → List Node → Bool
any_node test [] = false
any_node test (n ∷ rest) = test n || any_node test rest

-- Whether the activity has a name, and that contains a marker.
abbrev pub named_activity : Unicode → UiSnapshot → List String → Bool
named_activity u s markers =
    let activity = lowered u (codes (trim_space s.window_class)) in
    not (codes_beq activity []) && contains_any u activity markers
