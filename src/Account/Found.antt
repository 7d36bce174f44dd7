-- ===== src/Account/Found.antt =====
-- `resolveLocked`: what it finds, and that in a well-formed registry each identifier and each alias
-- finds its own entry.
use wechatcopilot.Prelude.{
  String, Bool, true, false, ◌||◌, List, [], ◌∷◌, ◌==◌, ◌≡◌, refl, sym, ◌∙◌, ◌⊎◌, inl, inr,
  if◌then◌else◌, ok, Pairs, In, here, there, All-at, arith, eq_iff, Bool-cases,
}
use wechatcopilot.Account.Registry.{Account, Store}
use wechatcopilot.Account.Update.{find_account, resolve}
use wechatcopilot.Account.Keys.{Apart, IsWellFormed}

pub find_account-In :
    (value : String) (xs : List Account) (a : Account) → find_account value xs ≡ ok a → In a xs
unfolding find_account
find_account-In value [] a h = cc
find_account-In value (x ∷ xs) a h = elim (Bool-cases (x.id == value || x.alias == value)) [
  | inl e ↦ rw (← found e) here
  | inr e ↦ there (find_account-In value xs a (rw e at h))
]
  where
    found : (x.id == value || x.alias == value) ≡ true → x ≡ a
    found e = ground arith

-- Entries of one identifier are one entry.
pub same_id_same :
    (xs : List Account) (a b : Account) → Pairs Apart xs → In a xs → In b xs → a.id ≡ b.id → a ≡ b
same_id_same [] a b d i j e = elim i [ ]
same_id_same (x ∷ xs) a b d here here e = refl
same_id_same (x ∷ xs) a b d here (there j) e = absurd ((All-at (Apart x) j d.0).ids e)
same_id_same (x ∷ xs) a b d (there i) here e = absurd ((All-at (Apart x) i d.0).ids (sym e))
same_id_same (x ∷ xs) a b d (there i) (there j) e = same_id_same xs a b d.1 i j e

-- Whatever names an entry finds it, since it names no entry before.
pub find_account-own :
    (value : String) (xs : List Account) (a : Account)
    → Pairs Apart xs
    → In a xs
    → (a.id ≡ value) ⊎ (a.alias ≡ value)
    → find_account value xs ≡ ok a
unfolding find_account
find_account-own value [] a d i own = elim i [ ]
find_account-own value (x ∷ xs) a d here own =
    ground (arith, eq_iff x.id value, eq_iff x.alias value)
find_account-own value (x ∷ xs) a d (there i) own =
    let p = All-at (Apart x) i d.0 in
    let ih = find_account-own value xs a d.1 i own in
    missed (x.id == value) (x.alias == value)
      (λ e. elim own [
        | inl o ↦ p.ids ((eq_iff x.id value).0 e ∙ sym o)
        | inr o ↦ p.id_alias ((eq_iff x.id value).0 e ∙ sym o)
      ])
      (λ e. elim own [
        | inl o ↦ p.alias_id ((eq_iff x.alias value).0 e ∙ sym o)
        | inr o ↦ p.aliases ((eq_iff x.alias value).0 e ∙ sym o)
      ])
      ih
  where
    missed :
        (b c : Bool)
        → ¬ (b ≡ true)
        → ¬ (c ≡ true)
        → find_account value xs ≡ ok a
        → (if b || c then ok x else find_account value xs) ≡ ok a
    missed true c nb nc h = absurd (nb refl)
    missed false true nb nc h = absurd (nc refl)
    missed false false nb nc h = h

-- In a well-formed registry an identifier resolves to the entry that has it, and so does an alias.
pub resolve-own :
    (s : Store) (a : Account)
    → IsWellFormed s.registry.accounts
    → In a s.registry.accounts
    → (resolve s a.id ≡ ok a) × (resolve s a.alias ≡ ok a)
unfolding resolve
resolve-own s a w i = (
  find_account-own a.id s.registry.accounts a w.distinct i (inl refl),
  find_account-own a.alias s.registry.accounts a w.distinct i (inr refl),
)
