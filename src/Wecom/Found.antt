-- ===== src/Wecom/Found.antt =====
-- What the searches of internal/driver/wecom/send_guard.go find.
use wechatcopilot.Prelude.{
  Bool, true, false, Option, none, some, List, [], ◌∷◌, ◌≡◌, sym, ◌∙◌, ap, subst, inl, inr, ok, ◌⊎◌,
  In, In-cons, In-head, here, there, Bool-cases,
}
use wechatcopilot.Wecom.{Node, Failure}
use wechatcopilot.Wecom.Tree.{matching_nodes, last_node}
use wechatcopilot.Wecom.Frame.{only_node, or_failure}

matching_none : (test : Node → Bool) (n : Node) → ¬ In n (matching_nodes test [])
unfolding matching_nodes
matching_none test n i = elim i [ ]

matching_first :
    (test : Node → Bool) (x n : Node) (xs : List Node)
    → test x ≡ true
    → In n (matching_nodes test (x ∷ xs))
    → (n ≡ x) ⊎ In n (matching_nodes test xs)
unfolding matching_nodes
matching_first test x n xs h i = In-cons (rw h at i)

matching_rest :
    (test : Node → Bool) (x n : Node) (xs : List Node)
    → test x ≡ false
    → In n (matching_nodes test (x ∷ xs))
    → In n (matching_nodes test xs)
unfolding matching_nodes
matching_rest test x n xs h i = rw h at i

-- The nodes that match are those of the list that pass the test.
pub matching_nodes-In :
    (test : Node → Bool) (xs : List Node) (n : Node)
    → In n (matching_nodes test xs)
    → In n xs × (test n ≡ true)
matching_nodes-In test [] n i = absurd (matching_none test n i)
matching_nodes-In test (x ∷ xs) n i = elim (Bool-cases (test x)) [
  | inl h ↦ elim (matching_first test x n xs h i) [
    | inl e ↦ (In-head e, ap test e ∙ h)
    | inr j ↦ let (k, t) = matching_nodes-In test xs n j in (there k, t)
  ]
  | inr h ↦ let (k, t) = matching_nodes-In test xs n (matching_rest test x n xs h i) in (there k, t)
]

pub In-matching_nodes :
    (test : Node → Bool) (xs : List Node) (n : Node)
    → In n xs
    → test n ≡ true
    → In n (matching_nodes test xs)
unfolding matching_nodes
In-matching_nodes test [] n i t = elim i [ ]
In-matching_nodes test (x ∷ xs) n here t = rw t here
In-matching_nodes test (x ∷ xs) n (there i) t = elim (Bool-cases (test x)) [
  | inl h ↦ rw h (there (In-matching_nodes test xs n i t))
  | inr h ↦ rw h (In-matching_nodes test xs n i t)
]

-- The node of a list that has just one.
only_node-same : (e : Failure) (xs : List Node) (n : Node) → only_node e xs ≡ ok n → xs ≡ n ∷ []
unfolding only_node
only_node-same e [] n h = cc
only_node-same e (x ∷ []) n h = cc
only_node-same e (x ∷ y ∷ xs) n h = cc

-- The only node that passes a test is in the list, passes it, and is the same as every other that does.
pub record IsOnly (test : Node → Bool) (xs : List Node) (n : Node) : Type 0 where
  pub place : In n xs
  pub passes : test n ≡ true
  pub unique : (m : Node) → In m xs → test m ≡ true → m ≡ n

pub only_node-IsOnly :
    (e : Failure) (test : Node → Bool) (xs : List Node) (n : Node)
    → only_node e (matching_nodes test xs) ≡ ok n
    → IsOnly test xs n
only_node-IsOnly e test xs n h =
    let one = only_node-same e (matching_nodes test xs) n h in
    let (i, t) = matching_nodes-In test xs n (subst (λ ys. In n ys) (sym one) here) in
    record {
      place = i;
      passes = t;
      unique = λ m j k. single m (subst (λ ys. In m ys) one (In-matching_nodes test xs m j k));
    }
  where
    single : (m : Node) → In m (n ∷ []) → m ≡ n
    single m i = elim (In-cons i) [ inl e ↦ e | inr j ↦ elim j [ ] ]

some_inj : {A : Type 0} {a b : A} → ◌≡◌ {A = Option A} (some a) (some b) → a ≡ b
some_inj h = cc

pub last_node-In : (xs : List Node) (n : Node) → last_node xs ≡ some n → In n xs
unfolding last_node
last_node-In [] n h = cc
last_node-In (x ∷ []) n h = In-head (sym (some_inj h))
last_node-In (x ∷ y ∷ xs) n h = there (last_node-In (y ∷ xs) n h)

or_failure-none : (e : Failure) (n : Node) → ¬ (or_failure e none ≡ ok n)
unfolding or_failure
or_failure-none e n q = cc

or_failure-some : (e : Failure) (m n : Node) → or_failure e (some m) ≡ ok n → some m ≡ some n
unfolding or_failure
or_failure-some e m n q = cc

-- The last of the nodes that match passes the test.
pub last_matching-passes :
    (e : Failure) (test : Node → Bool) (xs : List Node) (n : Node)
    → or_failure e (last_node (matching_nodes test xs)) ≡ ok n
    → test n ≡ true
last_matching-passes e test xs n h =
    (matching_nodes-In test xs n
      (last_node-In (matching_nodes test xs) n (found (last_node (matching_nodes test xs)) h))).1
  where
    found : (o : Option Node) → or_failure e o ≡ ok n → o ≡ some n
    found none q = absurd (or_failure-none e n q)
    found (some m) q = or_failure-some e m n q
