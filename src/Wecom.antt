-- ===== src/Wecom.antt =====
-- internal/driver/wecom: what the companion on the Android device reports of a screen, and the
-- geometry of its nodes.
pub mod Fold
pub mod Tree
pub mod Semantics
pub mod Surfaces
pub mod Challenge
pub mod Risk
pub mod Login
pub mod Frame
pub mod Equality
pub mod Found
pub mod Index
pub mod Bubbles
pub mod Events
mod Examples
use wechatcopilot.Prelude.{String, Bool, true, false, ◌&&◌, ◌||◌, Option, List, ◌==◌}
use wechatcopilot.Prelude.Int.{ℤ, pos, ◌+ℤ◌, ◌-ℤ◌, ◌/ℤ◌, ltb_ℤ, leb_ℤ, beq_ℤ}

pub record Bounds : Type 0 where
  pub left : ℤ
  pub top : ℤ
  pub right : ℤ
  pub bottom : ℤ

pub record Node : Type 0 where
  pub id : String
  pub parent_id : String
  pub class_name : String
  pub view_id : String
  pub text : String
  pub content_description : String
  pub bounds : Bounds
  pub clickable : Bool
  pub checkable : Bool
  pub checked : Bool
  pub selected : Option Bool
  pub editable : Bool
  pub scrollable : Bool
  pub enabled : Bool
  pub focused : Bool
  pub visible_to_user : Bool

pub record UiSnapshot : Type 0 where
  pub sequence : ℤ
  pub package_name : String
  pub window_id : ℤ
  pub window_title : String
  pub window_class : String
  pub nodes : List Node

-- What the errors are that a caller can tell apart.
pub data Failure : Type 0 where
  target_ambiguous not_found stale auth_required user_action_required : Failure

-- `boundsWidth`
unfoldable pub bounds_width : Bounds → ℤ
bounds_width b = b.right -ℤ b.left

-- `boundsHeight`
unfoldable pub bounds_height : Bounds → ℤ
bounds_height b = b.bottom -ℤ b.top

-- `boundsCenterX`
unfoldable pub bounds_center_x : Bounds → ℤ
unfolding bounds_width
bounds_center_x b = b.left +ℤ bounds_width b /ℤ 2

-- `boundsCenterY`
unfoldable pub bounds_center_y : Bounds → ℤ
unfolding bounds_height
bounds_center_y b = b.top +ℤ bounds_height b /ℤ 2

-- `usableBounds`
unfoldable pub usable_bounds : Bounds → Bool
usable_bounds b =
    ltb_ℤ b.left b.right && ltb_ℤ b.top b.bottom && ltb_ℤ (pos 0) b.right && ltb_ℤ (pos 0) b.bottom

-- `boundsInside` and `boundsContains`
unfoldable pub bounds_inside : Bounds → Bounds → Bool
bounds_inside outer inner =
    leb_ℤ outer.left inner.left
    && leb_ℤ outer.top inner.top
    && leb_ℤ inner.right outer.right
    && leb_ℤ inner.bottom outer.bottom

-- `==` on Bounds
unfoldable pub bounds_beq : Bounds → Bounds → Bool
bounds_beq a b =
    beq_ℤ a.left b.left && beq_ℤ a.top b.top && beq_ℤ a.right b.right && beq_ℤ a.bottom b.bottom
