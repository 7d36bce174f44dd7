-- ===== src/Wecom/Index.antt =====
-- The index of the nodes of a screen, uniqueNodeIndex of internal/driver/wecom/send_guard.go.
use wechatcopilot.Prelude.{
  String, Option, none, some, List, [], ◌∷◌, ◌≡◌, ◌≢◌, sym, ◌∙◌, ap, subst, ◌⊎◌, inl, inr, ◌↔◌,
  Result, ok, err, In, In-cons, In-head, there, Dict, dict_get, dict_put, dict_get-put_own,
  dict_get-put_other, Option-cases, text_cases,
}
use wechatcopilot.Wecom.{Node, Failure, target_ambiguous}
use wechatcopilot.Wecom.Tree.{index_nodes, unique_node_index}

some_inj : {A : Type 0} {a b : A} → ◌≡◌ {A = Option A} (some a) (some b) → a ≡ b
some_inj h = cc

not_some : {A : Type 0} {a : A} → ¬ ◌≡◌ {A = Option A} none (some a)
not_some h = cc

-- How the loop takes a node: it skips it, or adds it under an identifier that is new.
Taken : Dict Node → Node → List Node → Dict Node → Type 0
Taken before n rest index =
    ((n.id ≡ "") × (index_nodes before rest ≡ ok index))
    ⊎ ((n.id ≢ "")
        × (dict_get before n.id ≡ none)
        × (index_nodes (dict_put before n.id n) rest ≡ ok index))

index_nodes-Taken :
    (before : Dict Node) (n : Node) (rest : List Node) (index : Dict Node)
    → index_nodes before (n ∷ rest) ≡ ok index
    → Taken before n rest index
unfolding Taken index_nodes
index_nodes-Taken before n rest index h = elim (text_cases n.id "") [
  | inl (b, e) ↦ inl (e, rw b at h)
  | inr (b, e) ↦ elim (Option-cases (dict_get before n.id)) [
    | inl k ↦ inr (e, k, rw (b, k) at h)
    | inr (m, k) ↦ absurd (twice (rw (b, k) at h))
  ]
]
  where
    twice : ◌≡◌ {A = Result Failure (Dict Node)} (err target_ambiguous) (ok index) → ⊥
    twice q = cc

index_nodes-done : (before index : Dict Node) → index_nodes before [] ≡ ok index → before ≡ index
unfolding index_nodes
index_nodes-done before index q = cc

index_nodes-keeps :
    (before : Dict Node) (nodes : List Node) (index : Dict Node) (k : String) (m : Node)
    → index_nodes before nodes ≡ ok index
    → dict_get before k ≡ some m
    → dict_get index k ≡ some m
unfolding Taken
index_nodes-keeps before [] index k m h found =
    subst (λ x. dict_get x k ≡ some m) (index_nodes-done before index h) found
index_nodes-keeps before (n ∷ rest) index k m h found =
    elim (index_nodes-Taken before n rest index h) [
      | inl (_, q) ↦ index_nodes-keeps before rest index k m q found
      | inr (_, free, q) ↦ index_nodes-keeps (dict_put before n.id n) rest index k m q (
          dict_get-put_other before n.id k n
            (λ e. not_some (sym free ∙ ap (dict_get before) e ∙ found))
          ∙ found)
    ]

index_nodes-finds :
    (before : Dict Node) (nodes : List Node) (index : Dict Node) (n : Node)
    → index_nodes before nodes ≡ ok index
    → In n nodes
    → n.id ≢ ""
    → dict_get index n.id ≡ some n
unfolding Taken
index_nodes-finds before [] index n h i new = elim i [ ]
index_nodes-finds before (m ∷ rest) index n h i new =
    elim (index_nodes-Taken before m rest index h) [
      | inl (e, q) ↦ elim (In-cons i) [
        | inl same ↦ absurd (new (ap (λ (x : Node). x.id) same ∙ e))
        | inr j ↦ index_nodes-finds before rest index n q j new
      ]
      | inr (_, _, q) ↦ elim (In-cons i) [
        | inl same ↦
            subst (λ (x : Node). dict_get index x.id ≡ some x) (sym same)
              (index_nodes-keeps (dict_put before m.id m) rest index m.id m q
                (dict_get-put_own before m.id m))
        | inr j ↦ index_nodes-finds (dict_put before m.id m) rest index n q j new
      ]
    ]

Source : Dict Node → List Node → String → Node → Type 0
Source before nodes k n = (dict_get before k ≡ some n) ⊎ (In n nodes × (n.id ≡ k) × (k ≢ ""))

index_nodes-Source :
    (before : Dict Node) (nodes : List Node) (index : Dict Node) (k : String) (n : Node)
    → index_nodes before nodes ≡ ok index
    → dict_get index k ≡ some n
    → Source before nodes k n
unfolding Taken Source
index_nodes-Source before [] index k n h found =
    inl (subst (λ x. dict_get x k ≡ some n) (sym (index_nodes-done before index h)) found)
index_nodes-Source before (m ∷ rest) index k n h found =
    elim (index_nodes-Taken before m rest index h) [
      | inl (e, q) ↦ elim (index_nodes-Source before rest index k n q found) [
        | inl b ↦ inl b
        | inr (i, j, l) ↦ inr (there i, j, l)
      ]
      | inr (new, _, q) ↦
          elim (index_nodes-Source (dict_put before m.id m) rest index k n q found) [
            | inl b ↦ elim (text_cases m.id k) [
              | inl (_, e) ↦
                  let same : m ≡ n = some_inj (
                    sym (dict_get-put_own before m.id m)
                    ∙ ap (dict_get (dict_put before m.id m)) e
                    ∙ b) in
                  inr (In-head (sym same), ap (λ (x : Node). x.id) (sym same) ∙ e, λ z. new (e ∙ z))
              | inr (_, o) ↦ inl (sym (dict_get-put_other before m.id k m o) ∙ b)
            ]
            | inr (i, j, l) ↦ inr (there i, j, l)
          ]
    ]

-- An index that is built has under every identifier exactly the node of the screen that has it, and nothing under the
-- empty one.
pub unique_node_index-finds :
    (nodes : List Node) (index : Dict Node) (k : String) (n : Node)
    → unique_node_index nodes ≡ ok index
    → (dict_get index k ≡ some n) ↔ (In n nodes × (n.id ≡ k) × (k ≢ ""))
unfolding unique_node_index Source dict_get
unique_node_index-finds nodes index k n h = (
  λ found. elim (index_nodes-Source [] nodes index k n h found) [
    | inl b ↦ absurd (not_some b)
    | inr source ↦ source
  ],
  λ (i, e, new).
      subst (λ x. dict_get index x ≡ some n) e
        (index_nodes-finds [] nodes index n h i (λ z. new (sym e ∙ z))),
)
