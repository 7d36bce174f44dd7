-- ===== src/Account/Creation.antt =====
-- What `Add` puts into the registry: nothing, or one new account whose names are free.
use wechatcopilot.Prelude.{
  ℕ, String, Bool, true, false, not, ◌||◌, List, [], ◌∷◌, ◌++◌, ◌≡◌, ◌≢◌, refl, ap, ◌⊎◌, inl, inr,
  ok, All, All-map, contains, arith, eq_iff, Bool-cases, Result-cases,
}
use wechatcopilot.Driver.{Platform, state_stopped}
use wechatcopilot.Account.Names.{matches_alias}
use wechatcopilot.Account.Registry.{Account, Registry, Store, known_platform}
use wechatcopilot.Account.Update.{install}
use wechatcopilot.Account.Add.{
  Chance, is_available, next_account_id, check_alias, roll_back, new_account, undo_create, create,
  create_named, admit, add,
}
use wechatcopilot.Account.Fresh.{IsFree, next_account_id-IsFree}
use wechatcopilot.Account.Keys.{IsWellNamed, Apart}

-- The tests on the entries, read back.
is_available-Apart :
    (id : String) (xs : List Account)
    → is_available id xs ≡ true
    → All (λ a. (a.id ≢ id) × (a.alias ≢ id)) xs
unfolding is_available
is_available-Apart id [] h = tt
is_available-Apart id (a ∷ xs) h = (
  (λ e. ground (arith, eq_iff a.id id), λ e. ground (arith, eq_iff a.alias id)),
  is_available-Apart id xs (ground arith),
)

check_alias-Apart :
    (alias : String) (xs : List Account)
    → check_alias alias xs ≡ ok tt
    → All (λ a. (a.alias ≢ alias) × (a.id ≢ alias)) xs
unfolding check_alias
check_alias-Apart alias [] h = tt
check_alias-Apart alias (a ∷ xs) h = (
  (λ e. ground (arith, eq_iff a.alias alias), λ e. ground (arith, eq_iff a.id alias)),
  check_alias-Apart alias xs (ground arith),
)

All-both :
    (xs : List Account) (P Q : Account → Type 0) → All P xs → All Q xs → All (λ a. P a × Q a) xs
All-both [] P Q p q = tt
All-both (a ∷ xs) P Q p q = ((p.0, q.0), All-both xs P Q p.1 q.1)

-- What `add` may put at the end of a registry.
pub record IsNew (s : Store) (a : Account) : Type 0 where
  pub named : IsWellNamed a
  pub apart : All (λ b. Apart b a) s.registry.accounts
  pub inactive : a.active ≡ false
  pub unmarked : a.deleting ≡ false
  pub in_state : a.state ≡ state_stopped

new_account-IsNew :
    (s : Store) (id alias : String) (platform : Platform) (now : ℕ)
    → matches_alias alias ≡ true
    → known_platform platform ≡ true
    → check_alias alias s.registry.accounts ≡ ok tt
    → IsFree s alias id
    → IsNew s (new_account id alias platform now)
unfolding new_account
new_account-IsNew s id alias platform now a p checked free = record {
  named = record {
    id_form = free.form;
    alias_form = a;
    platform_form = p;
    own_names = λ e. ground (arith, free.other, eq_iff id alias);
  };
  apart =
      All-map (λ b. ((b.id ≢ id) × (b.alias ≢ id)) × ((b.alias ≢ alias) × (b.id ≢ alias)))
        (λ b. Apart b (new_account id alias platform now)) s.registry.accounts
        (λ b h. record { ids = h.0.0; aliases = h.1.0; id_alias = h.1.1; alias_id = h.0.1 })
        (All-both s.registry.accounts _ _ (is_available-Apart id s.registry.accounts free.available)
          (check_alias-Apart alias s.registry.accounts checked));
  inactive = refl;
  unmarked = refl;
  in_state = refl;
}

-- A call of `add` leaves the accounts alone, or puts one new account at their end.
abbrev pub Adds : Store → Store → Type 0
Adds s t =
    (t.registry.accounts ≡ s.registry.accounts)
    ⊎ ((a : Account) × IsNew s a × (t.registry.accounts ≡ s.registry.accounts ++ a ∷ []))

roll_back-registry :
    (removed : Bool) (id : String) (s : Store) → (roll_back removed id s).registry ≡ s.registry
unfolding roll_back
roll_back-registry true id s = refl
roll_back-registry false id s = refl

create-Adds : (s : Store) (c : Chance) (a : Account) → IsNew s a → Adds s (create s c a).0
unfolding create undo_create install
create-Adds s c a new = elim (Bool-cases (not c.dir_made || contains a.id s.account_dirs)) [
  | inl e ↦ rw e (inl refl)
  | inr e ↦ rw e (elim (Bool-cases c.profile_made) [
    | inl p ↦ rw p (elim (Bool-cases c.written) [
      | inl w ↦ rw w (inr (a, new, refl))
      | inr w ↦ rw w (inl (ap (λ (r : Registry). r.accounts) (roll_back-registry _ _ _)))
    ])
    | inr p ↦ rw p (inl (ap (λ (r : Registry). r.accounts) (roll_back-registry _ _ _)))
  ])
]

create_named-Adds :
    (s : Store) (c : Chance) (alias : String) (platform : Platform) (now : ℕ)
    → matches_alias alias ≡ true
    → known_platform platform ≡ true
    → check_alias alias s.registry.accounts ≡ ok tt
    → Adds s (create_named s c alias platform now (next_account_id 128 s c alias 0)).0
unfolding create_named
create_named-Adds s c alias platform now m p checked =
    elim (Result-cases (next_account_id 128 s c alias 0)) [
      | inl (id, e) ↦
          rw (e, create_named)
            (create-Adds s c _ (
              new_account-IsNew s id alias platform now m p checked
                (next_account_id-IsFree 128 s c alias 0 id e)))
      | inr (x, e) ↦ rw (e, create_named) (inl refl)
    ]

pub add-Adds :
    (s : Store) (c : Chance) (alias : String) (platform : Platform) (now : ℕ)
    → Adds s (add s c alias platform now).0
unfolding add
add-Adds s c alias platform now = elim (Bool-cases (matches_alias alias)) [
  | inr m ↦ rw m (inl refl)
  | inl m ↦ rw m (elim (Bool-cases (known_platform platform)) [
    | inr p ↦ rw p (inl refl)
    | inl p ↦ rw p (elim (Result-cases (check_alias alias s.registry.accounts)) [
      | inl (tt, e) ↦ rw (e, admit) (create_named-Adds s c alias platform now m p e)
      | inr (x, e) ↦ rw (e, admit) (inl refl)
    ])
  ])
]
