-- ===== src/Account/Loops.antt =====
-- What the loops over the entries do, entry by entry.
use wechatcopilot.Prelude.{
  ℕ, String, false, ◌&&◌, Option, some, List, [], ◌∷◌, ◌==◌, map, ap, ◌≡◌, refl, sym, ◌∙◌, inl, inr,
  if◌then◌else◌, Result, ok, err, ◌>>=◌, All, AllPairs, AllPairs-refl, arith, text_cases,
  Bool-cases,
}
use wechatcopilot.Driver.{Status}
use wechatcopilot.Account.Registry.{Account, Error}
use wechatcopilot.Account.Update.{
  activate_loop, deactivate_loop, status_loop, stop_entry, start_entry, is_rival, halt_rival,
  start_target, next_target, set_status,
}
use wechatcopilot.Account.Deletion.{mark_loop, mark_entry, failure_loop, failure_entry}

-- What activation makes of one entry: the target starts, its rivals stop, all else stays.
abbrev pub activated : ℕ → String → String → Account → Account
activated now id platform a =
    if a.id == id
    then start_entry now a
    else if a.platform == platform && a.active
    then stop_entry now a
    else a

halt_rival-id : (now : ℕ) (target a : Account) → (halt_rival now target a).id ≡ a.id
unfolding halt_rival
halt_rival-id now target a = elim (Bool-cases (is_rival target a)) [ inl h ↦ rw h | inr h ↦ rw h ]

halt_rival-platform :
    (now : ℕ) (target a : Account) → (halt_rival now target a).platform ≡ a.platform
unfolding halt_rival
halt_rival-platform now target a = elim (Bool-cases (is_rival target a)) [
  | inl h ↦ rw h
  | inr h ↦ rw h
]

-- One round of the loop, with the tests of the source.
round-activated :
    (now : ℕ) (target a : Account)
    → start_target now target (halt_rival now target a) ≡ activated now target.id target.platform a
unfolding start_target halt_rival
round-activated now target a = rw halt_rival-id (elim (Bool-cases (a.id == target.id)) [
  | inl h ↦ rw h (ground arith)
  | inr h ↦ rw h (ground arith)
])

next_target-id : (now : ℕ) (target a : Account) → (next_target now target a).id ≡ target.id
unfolding next_target start_target
next_target-id now target a = elim (text_cases (halt_rival now target a).id target.id) [
  | inl (h, e) ↦ rw h e
  | inr (h, _) ↦ rw h
]

module _ (now : ℕ) where
  next_target-platform :
      (target a : Account)
      → (a.id ≡ target.id → a.platform ≡ target.platform)
      → (next_target now target a).platform ≡ target.platform
  unfolding next_target start_target
  next_target-platform target a same = elim (text_cases (halt_rival now target a).id target.id) [
    | inl (h, e) ↦
        rw h (halt_rival-platform now target a ∙ same (sym (halt_rival-id now target a) ∙ e))
    | inr (h, _) ↦ rw h
  ]

  -- The loop of `Activate`, where every entry with the target's identifier is on its platform.
  pub activate_loop-map :
      (xs : List Account) (target : Account) (previous : Option Account)
      → All (λ a. a.id ≡ target.id → a.platform ≡ target.platform) xs
      → (activate_loop now xs target previous).0 ≡ map (activated now target.id target.platform) xs
  unfolding activate_loop
  activate_loop-map [] target previous same = refl
  activate_loop-map (a ∷ xs) target previous same =
      let target' = next_target now target a in
      let i = next_target-id now target a in
      let p = next_target-platform target a same.0 in
      let ih =
        activate_loop-map xs target' (if is_rival target a then some a else previous)
          (rw (i, p) same.1) in
      cc (round-activated now target a, (rw (i, p) at ih))

  -- The target that the loop returns is the one that it was given, as the last round left it.
  pub activate_loop-target :
      (xs : List Account) (target : Account) (previous : Option Account)
      → All (λ a. a.id ≡ target.id → a.platform ≡ target.platform) xs
      → ((activate_loop now xs target previous).1.id ≡ target.id)
        × ((activate_loop now xs target previous).1.platform ≡ target.platform)
  unfolding activate_loop
  activate_loop-target [] target previous same = (refl, refl)
  activate_loop-target (a ∷ xs) target previous same =
      let target' = next_target now target a in
      let i = next_target-id now target a in
      let p = next_target-platform target a same.0 in
      let (j, q) =
        activate_loop-target xs target' (if is_rival target a then some a else previous)
          (rw (i, p) same.1) in
      (j ∙ i, q ∙ p)

-- What deactivation makes of one entry.
abbrev pub deactivated : ℕ → String → Account → Account
deactivated now id a = if a.id == id then stop_entry now a else a

pub deactivate_loop-map :
    (now : ℕ) (id : String) (xs : List Account) (account : Account)
    → (deactivate_loop now id xs account).0 ≡ map (deactivated now id) xs
unfolding deactivate_loop
deactivate_loop-map now id [] account = refl
deactivate_loop-map now id (a ∷ xs) account =
    ap (λ ys. deactivated now id a ∷ ys)
      (deactivate_loop-map now id xs (if a.id == id then deactivated now id a else account))

-- A loop that returns entries returns them related to those that it was given.
abbrev pub Into : (Account → Account → Type 0) → List Account → Result Error (List Account) → Type 0
Into R xs (ok ys) = AllPairs R xs ys
Into R xs (err e) = Unit {0}

-- The entries of the marking loop, without the entry that it returns.
abbrev pub marked_entries : Result Error (List Account × Account) → Result Error (List Account)
marked_entries (ok (ys, a)) = ok ys
marked_entries (err e) = err e

-- A relation that holds of an entry and itself, and of the entry that a loop changes.
module _ (R : Account → Account → Type 0) (same : (a : Account) → R a a) where
  Into-cons :
      (a : Account) (xs : List Account) (r : Result Error (List Account))
      → Into R xs r
      → Into R (a ∷ xs) (r >>= λ rest. ok (a ∷ rest))
  Into-cons a xs (ok ys) h = (same a, h)
  Into-cons a xs (err e) h = tt

  pub status_loop-Into :
      (now : ℕ) (id : String) (status : Status) (xs : List Account)
      → ((a : Account) → a.deleting ≡ false → R a (set_status status now a))
      → Into R xs (status_loop now id status xs)
  unfolding status_loop
  status_loop-Into now id status [] change = tt
  status_loop-Into now id status (a ∷ xs) change = elim (Bool-cases (a.id == id)) [
    | inl h ↦ rw h (elim (Bool-cases a.deleting) [
      | inl d ↦ simp d tt
      | inr d ↦ simp d (change a d, AllPairs-refl R xs same)
    ])
    | inr h ↦ rw h (Into-cons a xs _ (status_loop-Into now id status xs change))
  ]

  pub failure_loop-Into :
      (now : ℕ) (id failure : String) (xs : List Account)
      → ((a : Account) → R a (failure_entry failure now a))
      → Into R xs (failure_loop now id failure xs)
  unfolding failure_loop
  failure_loop-Into now id failure [] change = tt
  failure_loop-Into now id failure (a ∷ xs) change = elim (Bool-cases (a.id == id)) [
    | inl h ↦ rw h (elim (Bool-cases a.deleting) [
      | inl d ↦ simp d (change a, AllPairs-refl R xs same)
      | inr d ↦ simp d tt
    ])
    | inr h ↦ rw h (Into-cons a xs _ (failure_loop-Into now id failure xs change))
  ]

  mark_loop-cons :
      (a : Account) (xs : List Account) (r : Result Error (List Account × Account))
      → Into R xs (marked_entries r)
      → Into R (a ∷ xs) (marked_entries (r >>= λ found. ok (a ∷ found.0, found.1)))
  mark_loop-cons a xs (ok (ys, b)) h = (same a, h)
  mark_loop-cons a xs (err e) h = tt

  pub mark_loop-Into :
      (now : ℕ) (id : String) (xs : List Account)
      → ((a : Account) → R a (mark_entry now a))
      → Into R xs (marked_entries (mark_loop now id xs))
  unfolding mark_loop
  mark_loop-Into now id [] change = tt
  mark_loop-Into now id (a ∷ xs) change = elim (Bool-cases (a.id == id)) [
    | inl h ↦ rw h (change a, AllPairs-refl R xs same)
    | inr h ↦ rw h (mark_loop-cons a xs _ (mark_loop-Into now id xs change))
  ]
