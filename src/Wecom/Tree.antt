-- ===== src/Wecom/Tree.antt =====
-- The tree of nodes in internal/driver/wecom/send_guard.go and driver.go: its index, the ways up, and
-- the nodes that belong to a control.
use wechatcopilot.Prelude.{
  ℕ, suc, zero, String, Bool, true, false, not, ◌&&◌, ◌||◌, Option, none, some, List, [], ◌∷◌, ◌++◌,
  ◌==◌, length, contains, Dict, dict_get, dict_put, Result, ok, err, if◌then◌else◌, codes,
  trim_space,
}
use wechatcopilot.Wecom.{
  Node, UiSnapshot, Failure, target_ambiguous, usable_bounds, bounds_inside, bounds_beq,
}
use wechatcopilot.Wecom.Fold.{has_prefix}

-- `matchingNodes`
unfoldable pub matching_nodes : (Node → Bool) → List Node → List Node
matching_nodes test [] = []
matching_nodes test (n ∷ rest) =
    let rest' = matching_nodes test rest in if test n then n ∷ rest' else rest'

-- `nodeLabel`
unfoldable pub node_label : Node → String
node_label n = if not (n.text == "") then trim_space n.text else trim_space n.content_description

-- The loop of `uniqueNodeIndex`.
unfoldable pub index_nodes : Dict Node → List Node → Result Failure (Dict Node)
index_nodes index [] = ok index
index_nodes index (n ∷ rest) =
    let skipped = index_nodes index rest in
    let added = index_nodes (dict_put index n.id n) rest in
    if n.id == ""
    then skipped
    else elim (dict_get index n.id) [ some m ↦ err target_ambiguous | none ↦ added ]

-- `uniqueNodeIndex`
unfoldable pub unique_node_index : List Node → Result Failure (Dict Node)
unfolding index_nodes
unique_node_index nodes = index_nodes [] nodes

-- An index in which a later node replaces an earlier one.
unfoldable pub last_index : Bool → Dict Node → List Node → Dict Node
last_index keeps_empty index [] = index
last_index keeps_empty index (n ∷ rest) =
    last_index keeps_empty
      (if keeps_empty || not (n.id == "") then dict_put index n.id n else index) rest

-- The parents on the way up, until one is missing or ends the way.
unfoldable pub climb : Dict Node → (Node → Bool) → ℕ → String → List Node
climb index stops zero parent_id = []
climb index stops (suc fuel) parent_id =
    if parent_id == "" then [] else elim (dict_get index parent_id) [
      | none ↦ []
      | some p ↦ if stops p then [] else p ∷ climb index stops fuel p.parent_id
    ]

-- The rounds of `for depth := 0; depth <= len(byID); depth++`
abbrev pub rounds : Dict Node → ℕ
rounds index = suc (length index)

-- The last of the candidates.
unfoldable pub last_node : List Node → Option Node
last_node [] = none
last_node (n ∷ []) = some n
last_node (n ∷ m ∷ rest) = last_node (m ∷ rest)

-- `isDescendant`: the identifier of a node begins with those of its ancestors.
unfoldable pub is_descendant : String → String → Bool
is_descendant id ancestor =
    not (ancestor == "")
    && not (id == ancestor)
    && has_prefix (codes id) (codes ancestor ++ codes "/")

-- `isDescendantOrSelf`
unfoldable pub is_descendant_or_self : String → String → Bool
unfolding is_descendant
is_descendant_or_self id ancestor = id == ancestor || is_descendant id ancestor

descends_from : Dict Node → ℕ → Node → String → Bool
descends_from index zero current ancestor = false
descends_from index (suc fuel) current ancestor =
    if current.parent_id == ""
    then false
    else if current.parent_id == ancestor
    then true
    else elim (dict_get index current.parent_id) [
      | none ↦ false
      | some p ↦ if p.id == current.id then false else descends_from index fuel p ancestor
    ]

-- `nodeDescendsFrom`
unfoldable pub node_descends_from : Dict Node → Node → String → Bool
unfolding descends_from
node_descends_from index node ancestor = descends_from index (rounds index) node ancestor

-- Whether a node lies on or in the target.
unfoldable pub is_part : Dict Node → Node → Node → Bool
unfolding node_descends_from
is_part index target n =
    not (n.id == "")
    && not (n.id == target.id)
    && n.visible_to_user
    && usable_bounds n.bounds
    && bounds_inside target.bounds n.bounds
    && node_descends_from index n target.id

-- The loop over the candidates: the identifiers that were added, and the nodes.
add_parts : Dict Node → Node → List String → List Node → List String × List Node
unfolding is_part contains
add_parts index target added [] = (added, [])
add_parts index target added (n ∷ rest) =
    let fits = is_part index target n && not (contains n.id added) in
    let (added', parts) = add_parts index target (if fits then n.id ∷ added else added) rest in
    (added', if fits then n ∷ parts else parts)

-- The wrappers of equal bounds, two at most.
add_wrappers : Dict Node → Node → ℕ → List String → Node → List Node
unfolding contains
add_wrappers index target zero added current = []
add_wrappers index target (suc fuel) added current =
    if current.parent_id == "" then [] else elim (dict_get index current.parent_id) [
      | none ↦ []
      | some p ↦
          if p.id == current.id || not p.visible_to_user || not (bounds_beq p.bounds target.bounds)
          then []
          else (let rest = add_wrappers index target fuel (p.id ∷ added) p in
              if contains p.id added then rest else p ∷ rest)
    ]

-- `actionSemanticNodes`
unfoldable pub action_semantic_nodes : UiSnapshot → Node → List Node
unfolding last_index add_parts add_wrappers
action_semantic_nodes s target =
    let index = last_index false [] s.nodes in
    let (added, parts) = add_parts index target (target.id ∷ []) s.nodes in
    target ∷ parts ++ add_wrappers index target 2 added target
