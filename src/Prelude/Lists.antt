-- ===== src/Prelude/Lists.antt =====
-- Lists measured by native numbers, and predicates on all entries.
use Prim.Native.Nat.{ℕ, suc, ◌+◌}
use Prim.Native.String.{String}
use mathlib.Core.Bool.{Bool, true, false, ◌||◌}
use mathlib.Core.List.{List, [], ◌∷◌, ◌++◌, map}
use mathlib.Core.Logic.{◌≢◌, ◌⊎◌, inl, inr}
use mathlib.Core.Path.{◌≡◌, refl, subst}
use native.Mathlib.Omega.{arith}
use text.Mathlib.Text.{◌==◌}
use text.Mathlib.TextEquality.{eq_iff}

module _ {ℓ} {A : Type ℓ} where
  abbrev pub length : List A → ℕ
  length [] = 0
  length (x ∷ xs) = suc (length xs)

  pub length-append : (xs ys : List A) → length (xs ++ ys) ≡ length xs + length ys
  length-append [] ys = omega arith
  length-append (x ∷ xs) ys = omega (arith, length-append xs ys)

module _ {ℓ κ} {A : Type ℓ} (P : A → Type κ) where
  abbrev pub All : List A → Type κ
  All [] = Unit
  All (x ∷ xs) = P x × All xs

module _ {ℓ κ} {A : Type ℓ} (P : A → Type κ) where
  pub All-append : (xs ys : List A) → All P xs → All P ys → All P (xs ++ ys)
  All-append [] ys h k = k
  All-append (x ∷ xs) ys h k = (h.0, All-append xs ys h.1 k)

-- Two lists of one length whose entries are related place by place.
module _ {A : Type 0} (R : A → A → Type 0) where
  abbrev pub AllPairs : List A → List A → Type 0
  AllPairs [] [] = Unit
  AllPairs [] (y ∷ ys) = ⊥
  AllPairs (x ∷ xs) [] = ⊥
  AllPairs (x ∷ xs) (y ∷ ys) = R x y × AllPairs xs ys

-- Every entry is related to all that stand behind it.
module _ {ℓ κ} {A : Type ℓ} (R : A → A → Type κ) where
  abbrev pub Pairs : List A → Type κ
  Pairs [] = Unit
  Pairs (x ∷ xs) = All (R x) xs × Pairs xs

-- Where an entry stands in a list, kept as data.
pub data In {ℓ} {A : Type ℓ} (x : A) : List A → Type ℓ where
  here : {xs : List A} → In x (x ∷ xs)
  there : {y : A} {xs : List A} → In x xs → In x (y ∷ xs)

pub In-cons {ℓ} : {A : Type ℓ} {x y : A} {xs : List A} → In x (y ∷ xs) → (x ≡ y) ⊎ In x xs
In-cons here = inl refl
In-cons (there i) = inr i

pub In-head {ℓ} : {A : Type ℓ} {x y : A} {xs : List A} → x ≡ y → In x (y ∷ xs)
In-head {x} {xs} e = subst (λ z. In x (z ∷ xs)) e here

pub In-snoc {ℓ} : {A : Type ℓ} (xs : List A) (z x : A) → In x xs → In x (xs ++ z ∷ [])
In-snoc [] z x i = elim i [ ]
In-snoc (y ∷ xs) z x i = elim (In-cons i) [ inl e ↦ In-head e | inr j ↦ there (In-snoc xs z x j) ]

pub In-last {ℓ} : {A : Type ℓ} (xs : List A) (z : A) → In z (xs ++ z ∷ [])
In-last [] z = here
In-last (x ∷ xs) z = there (In-last xs z)

module _ {ℓ κ} {A : Type ℓ} (P : A → Type κ) where
  pub All-at : {x : A} {xs : List A} → In x xs → All P xs → P x
  All-at here h = h.0
  All-at (there i) h = All-at i h.1

  pub All-of : (xs : List A) → ((x : A) → In x xs → P x) → All P xs
  All-of [] h = tt
  All-of (x ∷ xs) h = (h x here, All-of xs (λ y i. h y (there i)))

module _ {ℓ κ μ} {A : Type ℓ} (P : A → Type κ) (Q : A → Type μ) where
  pub All-map : (xs : List A) → ((x : A) → P x → Q x) → All P xs → All Q xs
  All-map [] f h = tt
  All-map (x ∷ xs) f h = (f x h.0, All-map xs f h.1)

module _ {A : Type 0} (R : A → A → Type 0) where
  pub AllPairs-refl : (xs : List A) → ((x : A) → R x x) → AllPairs R xs xs
  AllPairs-refl [] r = tt
  AllPairs-refl (x ∷ xs) r = (r x, AllPairs-refl xs r)

  pub AllPairs-map : (xs : List A) (f : A → A) → All (λ x. R x (f x)) xs → AllPairs R xs (map f xs)
  AllPairs-map [] f h = tt
  AllPairs-map (x ∷ xs) f h = (h.0, AllPairs-map xs f h.1)

module _ {A : Type 0} (R : A → A → Type 0) (P Q : A → Type 0) where
  -- What holds of every entry carries over along a relation that keeps it.
  pub All-along :
      (xs ys : List A) → ((x y : A) → R x y → P x → Q y) → AllPairs R xs ys → All P xs → All Q ys
  All-along [] [] f r h = tt
  All-along [] (y ∷ ys) f r h = absurd r
  All-along (x ∷ xs) [] f r h = absurd r
  All-along (x ∷ xs) (y ∷ ys) f r h = (f x y r.0 h.0, All-along xs ys f r.1 h.1)

module _ {A : Type 0} (R P Q : A → A → Type 0) where
  -- And so does what holds of every two entries.
  pub Pairs-along :
      (xs ys : List A)
      → ((x y u v : A) → R x u → R y v → P x y → Q u v)
      → AllPairs R xs ys
      → Pairs P xs
      → Pairs Q ys
  Pairs-along [] [] f r h = tt
  Pairs-along [] (y ∷ ys) f r h = absurd r
  Pairs-along (x ∷ xs) [] f r h = absurd r
  Pairs-along (x ∷ xs) (u ∷ ys) f r h =
      (All-along R (P x) (Q u) xs ys (λ y v. f x y u v r.0) r.1 h.0, Pairs-along xs ys f r.1 h.1)

module _ {A : Type 0} (R : A → A → Type 0) where
  pub Pairs-append :
      (xs : List A) (z : A) → Pairs R xs → All (λ x. R x z) xs → Pairs R (xs ++ z ∷ [])
  Pairs-append [] z h k = (tt, tt)
  Pairs-append (x ∷ xs) z h k =
      (All-append (R x) xs (z ∷ []) h.0 (k.0, tt), Pairs-append xs z h.1 k.1)

module _ {A : Type 0} (R : A → A → Type 0) where
  pub Pairs-at : (xs : List A) (z : A) (ys : List A) → Pairs R (xs ++ z ∷ ys) → All (R z) ys
  Pairs-at [] z ys h = h.0
  Pairs-at (x ∷ xs) z ys h = Pairs-at xs z ys h.1

-- `_, exists := set[key]` on a set of texts kept as a list.
unfoldable pub contains : String → List String → Bool
contains k [] = false
contains k (x ∷ xs) = x == k || contains k xs

pub contains-false : (k : String) (xs : List String) → contains k xs ≡ false → All (λ x. x ≢ k) xs
unfolding contains
contains-false k [] h = tt
contains-false k (x ∷ xs) h = (λ e. ground (arith, eq_iff x k), contains-false k xs (ground arith))

pub contains-true : (k : String) (xs : List String) → In k xs → contains k xs ≡ true
unfolding contains
contains-true k [] i = elim i [ ]
contains-true k (x ∷ xs) here = ground (arith, eq_iff x x)
contains-true k (x ∷ xs) (there i) = ground (arith, contains-true k xs i)
