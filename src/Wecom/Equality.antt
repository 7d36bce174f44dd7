-- ===== src/Wecom/Equality.antt =====
-- The tests of equality of internal/driver/wecom mean equality.
use wechatcopilot.Prelude.{
  ℕ, Bool, true, ◌&&◌, List, [], ◌∷◌, ◌==◌, ◌≡◌, refl, ap, arith, eq_iff, nat_beq, &&-true,
}
use wechatcopilot.Prelude.Int.{ℤ, pos, negsuc, beq_ℤ}
use wechatcopilot.Wecom.{Bounds, bounds_beq}
use wechatcopilot.Wecom.Fold.{codes_beq}
use wechatcopilot.Wecom.Frame.{
  SurfaceIdentity, Anchor, ChatBinding, anchor_beq, identity_beq, binding_beq,
}

same_int : (a b : ℤ) → beq_ℤ a b ≡ true → a ≡ b
same_int (pos m) (pos n) h = ap (λ x. pos x) (ground arith)
same_int (pos m) (negsuc n) h = absurd (ground arith)
same_int (negsuc m) (pos n) h = absurd (ground arith)
same_int (negsuc m) (negsuc n) h = ap (λ x. negsuc x) (ground arith)

pub same_codes : (a b : List ℕ) → codes_beq a b ≡ true → a ≡ b
unfolding codes_beq
same_codes [] [] h = refl
same_codes [] (d ∷ ds) h = cc
same_codes (c ∷ cs) [] h = cc
same_codes (c ∷ cs) (d ∷ ds) h =
    let (p, q) = &&-true (nat_beq c d) (codes_beq cs ds) h in
    let e : c ≡ d = ground arith in let ih = same_codes cs ds q in cc

all_four :
    (a b c d : Bool) → (a && b && c && d) ≡ true → (a ≡ true) × (b ≡ true) × (c ≡ true) × (d ≡ true)
all_four a b c d h = (ground arith, ground arith, ground arith, ground arith)

same_bounds : (a b : Bounds) → bounds_beq a b ≡ true → a ≡ b
unfolding bounds_beq
same_bounds a b h =
    let (l, t, r, o) =
      all_four (beq_ℤ a.left b.left) (beq_ℤ a.top b.top) (beq_ℤ a.right b.right)
        (beq_ℤ a.bottom b.bottom) h in
    λ i. record {
      left = same_int a.left b.left l i;
      top = same_int a.top b.top t i;
      right = same_int a.right b.right r i;
      bottom = same_int a.bottom b.bottom o i;
    }

same_anchor : (a b : Anchor) → anchor_beq a b ≡ true → a ≡ b
unfolding anchor_beq
same_anchor a b h =
    let (i, c, v, o) =
      all_four (a.id == b.id) (a.class_name == b.class_name) (a.view_id == b.view_id)
        (bounds_beq a.bounds b.bounds) h in
    λ j. record {
      id = (eq_iff a.id b.id).0 i j;
      class_name = (eq_iff a.class_name b.class_name).0 c j;
      view_id = (eq_iff a.view_id b.view_id).0 v j;
      bounds = same_bounds a.bounds b.bounds o j;
    }

same_identity : (a b : SurfaceIdentity) → identity_beq a b ≡ true → a ≡ b
unfolding identity_beq
same_identity a b h =
    let (p, w, c, _) =
      all_four (a.package_name == b.package_name) (beq_ℤ a.window_id b.window_id)
        (a.window_class == b.window_class) true (ground arith) in
    λ j. record {
      package_name = (eq_iff a.package_name b.package_name).0 p j;
      window_id = same_int a.window_id b.window_id w j;
      window_class = (eq_iff a.window_class b.window_class).0 c j;
    }

-- The test of equality on bindings.
pub same_binding : (a b : ChatBinding) → binding_beq a b ≡ true → a ≡ b
unfolding binding_beq
same_binding a b h =
    let (i, t, v, r) =
      all_four (identity_beq a.identity b.identity) (codes_beq a.title b.title)
        (bounds_beq a.viewport b.viewport)
        (anchor_beq a.header b.header
          && anchor_beq a.header_scope b.header_scope
          && anchor_beq a.composer b.composer
          && anchor_beq a.footer b.footer)
        (ground arith) in
    let (n, s, c, f) =
      all_four (anchor_beq a.header b.header) (anchor_beq a.header_scope b.header_scope)
        (anchor_beq a.composer b.composer) (anchor_beq a.footer b.footer) r in
    λ j. record {
      identity = same_identity a.identity b.identity i j;
      title = same_codes a.title b.title t j;
      viewport = same_bounds a.viewport b.viewport v j;
      header = same_anchor a.header b.header n j;
      header_scope = same_anchor a.header_scope b.header_scope s j;
      composer = same_anchor a.composer b.composer c j;
      footer = same_anchor a.footer b.footer f j;
    }
