-- ===== src/Wecom/Bubbles.antt =====
-- The evidence that a message was sent: outgoingBubbleEvidence of internal/driver/wecom/send_guard.go,
-- and waitForDirectionalOutgoingBubble of internal/driver/wecom/driver.go.
pub mod Stable
use wechatcopilot.Prelude.{
  ℕ, suc, zero, ◌+◌, String, Bool, true, false, not, ◌&&◌, ◌||◌, Option, none, some, List, [], ◌∷◌,
  ◌++◌, ◌==◌, length, nat_beq, leb, Dict, dict_get, Result, ok, err, if◌then◌else◌, codes,
}
use wechatcopilot.Prelude.Int.{ℤ, ◌+ℤ◌, ◌-ℤ◌, ◌*ℤ◌, ◌/ℤ◌, ltb_ℤ, leb_ℤ}
use wechatcopilot.Wecom.{
  Node, UiSnapshot, Bounds, Failure, usable_bounds, bounds_inside, bounds_width, bounds_center_x,
  bounds_beq,
}
use wechatcopilot.Wecom.Fold.{Unicode}
use wechatcopilot.Wecom.Tree.{
  matching_nodes, unique_node_index, climb, rounds, last_node, is_descendant, is_descendant_or_self,
}
use wechatcopilot.Wecom.Frame.{ChatBinding, ChatFrame, validate_chat_frame}

unfoldable pub shows_text : String → ChatBinding → Node → Bool
shows_text text b n =
    not (n.id == "")
    && not n.editable
    && n.visible_to_user
    && usable_bounds n.bounds
    && n.text == text
    && leb_ℤ n.bounds.bottom b.footer.bounds.top
    && not (is_descendant_or_self n.id b.footer.id)
    && not (is_descendant_or_self n.id b.header.id)

-- Whether another of the nodes lies deeper.
has_deeper : Node → List Node → Bool
has_deeper n [] = false
has_deeper n (m ∷ rest) = (not (n.id == m.id) && is_descendant m.id n.id) || has_deeper n rest

unfoldable pub deepest : List Node → List Node
unfolding has_deeper
deepest matching = matching_nodes (λ n. not (has_deeper n matching)) matching

unfoldable pub holds_bubble : ChatBinding → Node → Node → Bool
holds_bubble b n p =
    p.visible_to_user
    && usable_bounds p.bounds
    && bounds_inside p.bounds n.bounds
    && leb_ℤ p.bounds.bottom b.footer.bounds.top
    && leb_ℤ (bounds_width p.bounds *ℤ 10) (bounds_width b.viewport *ℤ 9)

-- `directionalBubbleContainer`: the bounds of the outermost container, if there is one.
unfoldable pub directional_bubble_container : Node → Dict Node → ChatBinding → Option Node
directional_bubble_container n index b = last_node (
    matching_nodes (holds_bubble b n) (
      climb index (λ p. p.id == n.id || p.id == b.footer.id || p.id == "0") (rounds index)
        n.parent_id))

-- `rightAlignedWithin`
unfoldable pub right_aligned_within : Bounds → Bounds → Bool
right_aligned_within candidate viewport =
    let left_gap = candidate.left -ℤ viewport.left in
    let right_gap = viewport.right -ℤ candidate.right in
    bounds_inside viewport candidate
    && ltb_ℤ (bounds_center_x viewport) (bounds_center_x candidate)
    && ltb_ℤ (right_gap +ℤ bounds_width viewport /ℤ 10) left_gap

-- One piece of evidence: the node, its bounds, and those of its container.
pub record Evidence : Type 0 where
  pub id : String
  pub bounds : Bounds
  pub visual : Bounds

evidence_in : Node → Bounds → Option Node → List Evidence
evidence_in n viewport none = []
evidence_in n viewport (some p) =
    if usable_bounds p.bounds && right_aligned_within p.bounds viewport
    then record { id = n.id; bounds = n.bounds; visual = p.bounds } ∷ []
    else []

evidence_of : Dict Node → ChatBinding → List Node → List Evidence
unfolding evidence_in
evidence_of index b [] = []
evidence_of index b (n ∷ rest) =
    evidence_in n b.viewport (directional_bubble_container n index b) ++ evidence_of index b rest

indexed_evidence : UiSnapshot → String → ChatBinding → Result Failure (Dict Node) → List Evidence
unfolding evidence_of
indexed_evidence s text b (err e) = []
indexed_evidence s text b (ok index) =
    evidence_of index b (deepest (matching_nodes (shows_text text b) s.nodes))

-- `outgoingBubbleEvidence`. The result is in the order of the nodes, the source sorts it.
unfoldable pub outgoing_bubble_evidence : UiSnapshot → String → ChatBinding → List Evidence
unfolding indexed_evidence
outgoing_bubble_evidence s text b = indexed_evidence s text b (unique_node_index s.nodes)

is_evidence : Evidence → List Evidence → Bool
is_evidence e [] = false
is_evidence e (f ∷ rest) =
    (e.id == f.id && bounds_beq e.bounds f.bounds && bounds_beq e.visual f.visual)
    || is_evidence e rest

all_evidence : List Evidence → List Evidence → Bool
unfolding is_evidence
all_evidence [] ys = true
all_evidence (e ∷ rest) ys = is_evidence e ys && all_evidence rest ys

-- The comparison of the keys, which the source makes of the sorted pieces: both have the same pieces.
unfoldable pub same_evidence : List Evidence → List Evidence → Bool
unfolding all_evidence
same_evidence xs ys = nat_beq (length xs) (length ys) && all_evidence xs ys && all_evidence ys xs

-- The arguments of the wait.
pub record Watch : Type 0 where
  pub title : String
  pub binding : ChatBinding
  pub text : String
  pub baseline : ℕ
  pub previous_sequence : ℤ

-- One round: the companion does not answer, or shows a screen, and then the deadline has passed, or the
-- context is done before the next.
pub data Observation : Type 0 where
  unanswered : Observation
  seen : UiSnapshot → Bool → Bool → Observation

pub data WaitError : Type 0 where
  companion_failed context_done : WaitError
  frame_failed : Failure → WaitError

unfoldable pub is_confirming : Watch → UiSnapshot → ChatFrame → Bool
is_confirming w s frame =
    ltb_ℤ w.previous_sequence s.sequence
    && not (frame.composer.text == w.text)
    && nat_beq (length (outgoing_bubble_evidence s w.text w.binding)) (suc w.baseline)

unfoldable pub is_stable : Option (List Evidence) → List Evidence → Bool
is_stable none evidence = false
is_stable (some stable) evidence = same_evidence evidence stable

-- `stableEvidence` and `stableObservations`, none for the empty key.
unfoldable pub observed :
    Bool → Option (List Evidence) → ℕ → List Evidence → Option (List Evidence) × ℕ
observed false stable n evidence = (none, 0)
observed true stable n evidence =
    if is_stable stable evidence then (stable, suc n) else (some evidence, 1)

unfoldable pub round_end :
    Bool → Bool → ℕ → Option (Result WaitError Bool) → Option (Result WaitError Bool)
round_end late cancelled n further =
    if leb 2 n
    then some (ok true)
    else if late
    then some (ok false)
    else if cancelled
    then some (err context_done)
    else further

-- `waitForDirectionalOutgoingBubble` over the rounds that it makes; nothing if it still waits.
unfoldable pub wait_for_bubble :
    Unicode → Watch → Option (List Evidence) → ℕ → List Observation → Option (Result WaitError Bool)
wait_for_bubble u w stable n [] = none
wait_for_bubble u w stable n (unanswered ∷ rest) = some (err companion_failed)
wait_for_bubble u w stable n (seen s late cancelled ∷ rest) =
    elim (validate_chat_frame u s w.title (some w.binding) false) [
      | err e ↦ some (err (frame_failed e))
      | ok frame ↦
          (let next =
              observed (is_confirming w s frame) stable n
                (outgoing_bubble_evidence s w.text w.binding) in
            round_end late cancelled next.1 (wait_for_bubble u w next.0 next.1 rest))
    ]
