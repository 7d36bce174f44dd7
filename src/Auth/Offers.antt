-- ===== src/Auth/Offers.antt =====
-- What is offered to the user is what the next request can perform.
use wechatcopilot.Prelude.{
  ℕ, ◌≤◌, String, true, false, not, ◌&&◌, ◌||◌, Option, none, some, List, [], ◌∷◌, ◌==◌, ◌≡◌, refl,
  sym, ap, subst, ◌∙◌, inl, inr, ok, arith, eq_iff, leb, ltb, nat_beq, contains, trim_space,
  Bool-cases, In, In-cons, In-head, here, there,
}
use wechatcopilot.Driver.{state_auth_required, state_online}
use wechatcopilot.Auth.{AuthAction, AuthSnapshot, Entry, is_gone, completed}
use wechatcopilot.Auth.Actions.{
  auth_action_replay_key, count_id, count_replay_key, attempts_of, is_offered_key, is_offered,
  keep_offered, available_auth_actions, begin_action, enter_action, find_action, unique_key,
  advertised_action, advertised_key, mark_action, reserve_action,
}
use wechatcopilot.Auth.Session.{
  acting_calls, Session, asks_action, shows_action, happen, run, begun_action, shown_to,
  show_action, reserve_shown, reserved_action,
}

module _ (snapshot : AuthSnapshot) (e : Entry) where
  keep_offered-In :
      (a : AuthAction) (xs : List AuthAction)
      → In a (keep_offered snapshot e xs)
      → (is_offered snapshot e a ≡ true) × In a xs
  unfolding keep_offered
  keep_offered-In a [] i = elim i [ ]
  keep_offered-In a (x ∷ xs) i = elim (Bool-cases (is_offered snapshot e x)) [
    | inl h ↦ elim (In-cons (rw h at i)) [
      | inl q ↦ (ap (λ z. is_offered snapshot e z) q ∙ h, In-head q)
      | inr k ↦ let (o, l) = keep_offered-In a xs k in (o, there l)
    ]
    | inr h ↦ let (o, l) = keep_offered-In a xs (rw h at i) in (o, there l)
  ]

count_id-In : (a : AuthAction) (xs : List AuthAction) → In a xs → 1 ≤ count_id a.id xs
unfolding count_id
count_id-In a [] i = elim i [ ]
count_id-In a (x ∷ xs) here = ground (arith, eq_iff x.id x.id)
count_id-In a (x ∷ xs) (there i) = ground (arith, count_id-In a xs i)

find_action_unique :
    (a : AuthAction) (xs : List AuthAction)
    → In a xs
    → count_id a.id xs ≡ 1
    → find_action a.id xs ≡ some a
unfolding find_action count_id
find_action_unique a [] i h = elim i [ ]
find_action_unique a (x ∷ xs) here h = ground (arith, eq_iff x.id x.id)
find_action_unique a (x ∷ xs) (there i) h =
    ground (arith, find_action_unique a xs i, count_id-In a xs i)

-- What an offer says, test by test.
record IsOffer (snapshot : AuthSnapshot) (e : Entry) (a : AuthAction) : Type 0 where
  key : String
  trimmed : trim_space a.id ≡ a.id
  alone : count_id a.id snapshot.actions ≡ 1
  has_key : auth_action_replay_key a ≡ some key
  key_alone : count_replay_key key snapshot.actions ≡ 1
  new_id : contains a.id e.performed_actions ≡ false
  new_key : contains key e.performed_replay_keys ≡ false
  below : ltb (attempts_of a.id e) 3 ≡ true

offered_with-IsOffer :
    (snapshot : AuthSnapshot) (e : Entry) (a : AuthAction) (o : Option String)
    → auth_action_replay_key a ≡ o
    → not (a.id == "")
        && trim_space a.id == a.id
        && nat_beq (count_id a.id snapshot.actions) 1
        && is_offered_key snapshot e a o
      ≡ true
    → IsOffer snapshot e a
unfolding is_offered_key
offered_with-IsOffer snapshot e a none q h = absurd (ground arith)
offered_with-IsOffer snapshot e a (some key) q h = record {
  key = key;
  trimmed = (eq_iff (trim_space a.id) a.id).0 (ground arith);
  alone = ground arith;
  has_key = q;
  key_alone = ground arith;
  new_id = ground arith;
  new_key = ground arith;
  below = ground arith;
}

is_offered-IsOffer :
    (snapshot : AuthSnapshot) (e : Entry) (a : AuthAction)
    → is_offered snapshot e a ≡ true
    → IsOffer snapshot e a
unfolding is_offered
is_offered-IsOffer snapshot e a h =
    offered_with-IsOffer snapshot e a (auth_action_replay_key a) refl h

-- An entry that offers something is free, and so is its allowance.
record IsOpen (snapshot : AuthSnapshot) (e : Entry) : Type 0 where
  free : e.action_in_flight ≡ false
  required : snapshot.state == state_auth_required ≡ true
  below_all : ltb e.total_action_attempts 6 ≡ true

not_in_nothing : (a : AuthAction) → In a [] → ⊥
not_in_nothing a i = elim i [ ]

available-IsOffer :
    (snapshot : AuthSnapshot) (e : Entry) (a : AuthAction)
    → In a (available_auth_actions snapshot e)
    → IsOpen snapshot e × (is_offered snapshot e a ≡ true) × In a snapshot.actions
unfolding available_auth_actions
available-IsOffer snapshot e a i =
    elim (Bool-cases
      (e.action_in_flight || completed e || not (snapshot.state == state_auth_required))) [
        | inl h ↦ absurd (not_in_nothing a (rw h at i))
        | inr h ↦ elim (Bool-cases (leb 6 e.total_action_attempts)) [
          | inl k ↦ absurd (not_in_nothing a (rw (h, k) at i))
          | inr k ↦
              let (o, l) = keep_offered-In snapshot e a snapshot.actions (rw (h, k) at i) in
              (
                record { free = ground arith; required = ground arith; below_all = ground arith },
                o,
                l,
              )
        ]
      ]

begin_offered :
    (now : ℕ) (snapshot : AuthSnapshot) (e : Entry) (a : AuthAction)
    → is_gone now e ≡ false
    → IsOpen snapshot e
    → IsOffer snapshot e a
    → begin_action now a.id true e ≡ ok (enter_action e)
unfolding begin_action
begin_offered now snapshot e a g p o = rw (g, p.free, o.new_id) refl

advertised_offered :
    (snapshot : AuthSnapshot) (e : Entry) (a : AuthAction)
    → In a snapshot.actions
    → IsOpen snapshot e
    → (o : IsOffer snapshot e a) → advertised_key a.id snapshot ≡ ok o.key
unfolding advertised_key advertised_action unique_key
advertised_offered snapshot e a i p o =
    let f = find_action_unique a snapshot.actions i o.alone in
    let not_online : snapshot.state == state_online ≡ false =
      subst (λ x. x == state_online ≡ false)
        (sym ((eq_iff snapshot.state state_auth_required).0 p.required)) refl in
    rw (not_online, p.required, o.alone, f) (rw (o.has_key) (rw (o.key_alone) refl))

reserve_offered :
    (now : ℕ) (snapshot : AuthSnapshot) (e : Entry) (a : AuthAction)
    → is_gone now e ≡ false
    → IsOpen snapshot e
    → (o : IsOffer snapshot e a)
    → reserve_action now a.id o.key (enter_action e) ≡ ok (mark_action a.id o.key (enter_action e))
unfolding reserve_action enter_action is_gone completed attempts_of
reserve_offered now snapshot e a g p o =
    let l : leb 3 (attempts_of a.id e) ≡ false = ground arith in
    let m : leb 6 e.total_action_attempts ≡ false = ground arith in
    rw (g, o.new_id, o.new_key, l, m) refl

-- An action that is offered for a snapshot, in an entry that is neither closed nor expired nor
-- completed, reaches the driver when the user confirms it, the screen is still the same and the driver
-- performs actions at all.
pub run-performs_offered :
    (s : Session) (now : ℕ) (snapshot : AuthSnapshot) (a : AuthAction)
    → is_gone now s.entry ≡ false
    → In a (available_auth_actions snapshot s.entry)
    → (key : String) × ((run s
          (asks_action now a.id true ∷ shows_action now (some snapshot) true ∷ [])).acting
        ≡ acting_calls a.id key)
unfolding run happen begun_action shown_to show_action reserve_shown reserved_action
run-performs_offered s now snapshot a g i =
    let (p, f, l) = available-IsOffer snapshot s.entry a i in
    let o = is_offered-IsOffer snapshot s.entry a f in
    (
      o.key,
      rw (o.trimmed, begin_offered now snapshot s.entry a g p o)
          (rw (advertised_offered snapshot s.entry a l p o)
            (rw (reserve_offered now snapshot s.entry a g p o) refl)),
    )
