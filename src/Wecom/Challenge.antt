-- ===== src/Wecom/Challenge.antt =====
-- The security challenges of internal/driver/wecom/semantic_guards.go.
use wechatcopilot.Prelude.{
  ℕ, String, Bool, true, false, not, ◌&&◌, ◌||◌, Option, none, some, List, [], ◌∷◌, ◌++◌, ◌==◌,
  nat_beq, Dict, Result, ok, err, if◌then◌else◌, codes, trim_space,
}
use wechatcopilot.Wecom.{Node, UiSnapshot, Failure, usable_bounds, bounds_inside}
use wechatcopilot.Wecom.Fold.{Unicode, codes_beq, contains_any, lowered}
use wechatcopilot.Wecom.Tree.{matching_nodes, unique_node_index}
use wechatcopilot.Wecom.Semantics.{node_semantic_evidence, action_matches_any}
use wechatcopilot.Wecom.Surfaces.{
  default_wecom_package, conversation_activity, login_wx_auth_activity, sms_verify_activity,
  security_challenge_markers, security_challenge_action_labels, security_metadata_markers,
  is_wecom_activity, any_node, named_activity,
}

common_parts : List (List ℕ) → List (List ℕ) → List (List ℕ)
unfolding codes_beq
common_parts [] bs = []
common_parts (a ∷ rest_a) [] = []
common_parts (a ∷ rest_a) (b ∷ bs) =
    let rest = common_parts rest_a bs in if codes_beq a b then a ∷ rest else []

-- `strings.Split(id, "/")`: the part that has begun, and those behind it.
split_slashes : List ℕ → List ℕ × List (List ℕ)
split_slashes [] = ([], [])
split_slashes (c ∷ cs) =
    let (part, parts) = split_slashes cs in
    if nat_beq c 47 then ([], part ∷ parts) else (c ∷ part, parts)

abbrev id_parts : String → List (List ℕ)
id_parts id = let (part, parts) = split_slashes (codes id) in part ∷ parts

join_slashes : List (List ℕ) → List ℕ
join_slashes [] = []
join_slashes (p ∷ []) = p
join_slashes (p ∷ q ∷ rest) = p ++ 47 ∷ join_slashes (q ∷ rest)

-- `commonAncestorID`
unfoldable pub common_ancestor_id : String → String → List ℕ
unfolding common_parts split_slashes join_slashes
common_ancestor_id left right = join_slashes (common_parts (id_parts left) (id_parts right))

-- `byID[id]`, where the identifier is given by its code points.
get_codes : Dict Node → List ℕ → Option Node
get_codes [] key = none
get_codes ((id, n) ∷ rest) key =
    let further = get_codes rest key in if codes_beq (codes id) key then some n else further

bounds_region : Option Node → Node → Node → Bool
bounds_region none left right = false
bounds_region (some a) left right =
    a.visible_to_user
    && usable_bounds a.bounds
    && bounds_inside a.bounds left.bounds
    && bounds_inside a.bounds right.bounds

-- `nodesShareBoundedRegion`
unfoldable pub nodes_share_bounded_region : Node → Node → Dict Node → Bool
unfolding get_codes bounds_region
nodes_share_bounded_region left right index =
    let ancestor = common_ancestor_id left.id right.id in
    not (codes_beq ancestor [])
    && not (codes_beq ancestor (codes "0"))
    && bounds_region (get_codes index ancestor) left right

-- A control of a challenge in the region of a marker.
challenges : Unicode → UiSnapshot → Dict Node → Node → Node → Bool
challenges u s index marker n =
    n.visible_to_user
    && n.enabled
    && usable_bounds n.bounds
    && ((n.clickable && action_matches_any u s n security_challenge_action_labels)
        || (n.editable || n.checkable))
    && nodes_share_bounded_region marker n index

challenged : Unicode → UiSnapshot → List Node → Result Failure (Dict Node) → Bool
unfolding challenges any_node
challenged u s markers (err e) = true
challenged u s markers (ok index) =
    any_node (λ marker. any_node (challenges u s index marker) s.nodes) markers

shows_metadata : Unicode → Node → Bool
shows_metadata u n =
    n.visible_to_user
    && usable_bounds n.bounds
    && contains_any u (codes n.class_name ++ 32 ∷ codes n.view_id) security_metadata_markers

challenge_content : Unicode → UiSnapshot → List Node → Bool
unfolding any_node shows_metadata challenged
challenge_content u s [] = false
challenge_content u s (m ∷ markers) =
    any_node (shows_metadata u) s.nodes
    || (is_wecom_activity s login_wx_auth_activity || is_wecom_activity s sms_verify_activity)
    || challenged u s (m ∷ markers) (unique_node_index s.nodes)

-- `structuredSecurityChallenge`
unfoldable pub structured_security_challenge : Unicode → UiSnapshot → Bool
unfolding challenge_content
structured_security_challenge u s =
    let activity = lowered u (codes (trim_space s.window_class)) in
    s.package_name == default_wecom_package
    && ((not (codes_beq activity (lowered u (codes conversation_activity)))
          && named_activity u s security_metadata_markers)
        || challenge_content u s (
            matching_nodes
              (λ n.
                n.visible_to_user
                && contains_any u (node_semantic_evidence u n) security_challenge_markers)
              s.nodes))
