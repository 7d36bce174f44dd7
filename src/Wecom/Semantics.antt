-- ===== src/Wecom/Semantics.antt =====
-- What a node says, in internal/driver/wecom/driver.go.
use wechatcopilot.Prelude.{
  ℕ, suc, zero, String, Bool, true, false, not, ◌&&◌, ◌||◌, Option, none, some, List, [], ◌∷◌, ◌++◌,
  ◌==◌, length, map, Dict, dict_get, dict_put, Result, ok, err, if◌then◌else◌, codes, trim_space,
}
use wechatcopilot.Wecom.{Node, UiSnapshot, Failure, target_ambiguous, stale, usable_bounds}
use wechatcopilot.Wecom.Fold.{Unicode, semantic_fold, codes_beq, join_words, matches_any, lowered}
use wechatcopilot.Wecom.Tree.{node_label, last_index, action_semantic_nodes}

is_seen : List ℕ → List (List ℕ) → Bool
unfolding codes_beq
is_seen key [] = false
is_seen key (k ∷ rest) = codes_beq k key || is_seen key rest

append_new : Unicode → List (List ℕ) → List String → List String
unfolding is_seen
append_new u seen [] = []
append_new u seen (c ∷ rest) =
    let candidate = trim_space c in
    let key = semantic_fold u (codes candidate) in
    let fresh = not (candidate == "") && not (codes_beq key []) && not (is_seen key seen) in
    let rest' = append_new u (if fresh then key ∷ seen else seen) rest in
    if fresh then candidate ∷ rest' else rest'

-- `appendDistinctSemanticValues`
unfoldable pub append_distinct_semantic_values : Unicode → List String → List String → List String
unfolding append_new
append_distinct_semantic_values u values candidates =
    values ++ append_new u (map (λ v. semantic_fold u (codes v)) values) candidates

-- `nodeUserFacingValues`
unfoldable pub node_user_facing_values : Unicode → Node → List String
node_user_facing_values u n =
    append_distinct_semantic_values u [] (n.text ∷ n.content_description ∷ [])

-- `nodeSemanticValues`
unfoldable pub node_semantic_values : Unicode → Node → List String
unfolding node_user_facing_values
node_semantic_values u n =
    append_distinct_semantic_values u (node_user_facing_values u n) (n.view_id ∷ n.class_name ∷ [])

-- `nodeSemanticEvidence`
unfoldable pub node_semantic_evidence : Unicode → Node → List ℕ
node_semantic_evidence u n = join_words (map codes (node_semantic_values u n))

evidence_of : Unicode → List String → List Node → List String
evidence_of u values [] = values
evidence_of u values (n ∷ rest) =
    evidence_of u (append_distinct_semantic_values u values (node_semantic_values u n)) rest

-- `actionSemanticEvidence`
unfoldable pub action_semantic_evidence : Unicode → UiSnapshot → Node → List ℕ
unfolding evidence_of
action_semantic_evidence u s target =
    join_words (map codes (evidence_of u [] (action_semantic_nodes s target)))

-- A value matches one of the candidates.
unfoldable pub any_value_matches : Unicode → List String → List String → Bool
any_value_matches u [] candidates = false
any_value_matches u (v ∷ rest) candidates =
    matches_any u (codes v) candidates || any_value_matches u rest candidates

any_node_matches : Unicode → List Node → List String → Bool
unfolding any_value_matches
any_node_matches u [] candidates = false
any_node_matches u (n ∷ rest) candidates =
    any_value_matches u (node_semantic_values u n) candidates || any_node_matches u rest candidates

-- `actionMatchesAny`
unfoldable pub action_matches_any : Unicode → UiSnapshot → Node → List String → Bool
unfolding any_node_matches
action_matches_any u s target candidates =
    any_node_matches u (action_semantic_nodes s target) candidates

visible_texts : List Node → List ℕ
visible_texts [] = []
visible_texts (n ∷ rest) =
    let rest' = visible_texts rest in
    if n.visible_to_user
    then 10 ∷ codes n.text ++ 32 ∷ codes n.content_description ++ rest'
    else rest'

-- `visibleSnapshotText`
unfoldable pub visible_snapshot_text : Unicode → UiSnapshot → List ℕ
unfolding visible_texts
visible_snapshot_text u s = lowered u (codes s.window_title ++ visible_texts s.nodes)

-- From a labelled node up to the control that it is on.
clickable_above : Dict Node → ℕ → Node → Option Node
clickable_above index zero current = none
clickable_above index (suc fuel) current =
    if current.enabled
      && current.clickable
      && current.visible_to_user
      && usable_bounds current.bounds
    then some current
    else if current.parent_id == ""
    then none
    else elim (dict_get index current.parent_id) [
      | none ↦ none
      | some p ↦ if p.id == current.id then none else clickable_above index fuel p
    ]

put_candidate : Option Node → Dict Node → Dict Node
put_candidate none candidates = candidates
put_candidate (some n) candidates = dict_put candidates n.id n

label_candidates : Unicode → Dict Node → ℕ → List String → Dict Node → List Node → Dict Node
unfolding clickable_above put_candidate
label_candidates u index fuel labels candidates [] = candidates
label_candidates u index fuel labels candidates (n ∷ rest) =
    let labelled =
      not (n.id == "") && n.visible_to_user && matches_any u (codes (node_label n)) labels in
    label_candidates u index fuel labels
      (if labelled then put_candidate (clickable_above index fuel n) candidates else candidates)
      rest

only_candidate : Dict Node → Result Failure Node
only_candidate [] = err stale
only_candidate ((id, n) ∷ []) = ok n
only_candidate (first ∷ second ∷ rest) = err target_ambiguous

-- `uniqueVisibleLabelTarget`
unfoldable pub unique_visible_label_target :
    Unicode → UiSnapshot → List String → Result Failure Node
unfolding label_candidates only_candidate last_index
unique_visible_label_target u s labels =
    only_candidate
      (label_candidates u (last_index true [] s.nodes) (suc (length s.nodes)) labels [] s.nodes)
