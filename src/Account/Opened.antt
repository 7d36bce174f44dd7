-- ===== src/Account/Opened.antt =====
-- What `Open` establishes about the entries that it reads.
use wechatcopilot.Prelude.{
  String, Bool, true, false, not, ◌&&◌, ◌||◌, List, [], ◌∷◌, ◌==◌, ◌≡◌, ◌≢◌, refl, sym, inl, inr,
  Result, ok, err, chain_steps, nat_beq, All, All-map, subst, contains-false, arith, eq_iff,
  Bool-cases, ◌∙◌,
}
use wechatcopilot.Driver.{state_stopped}
use wechatcopilot.Account.Names.{matches_alias, is_id}
use wechatcopilot.Account.Registry.{
  Account, Registry, Store, Error, RegistryFile, readable, missing, check_entry, check_entries,
  normalize_entry, save_normalized, open_registry, open_store, known_platform, save_data,
  version_unsupported,
}
use wechatcopilot.Account.Keys.{IsWellNamed, Apart, IsQuiet, IsWellFormed}

-- No text of an entry was seen before it.
pub record IsUnseen (ids aliases : List String) (a : Account) : Type 0 where
  pub new_id : All (λ x. x ≢ a.id) ids
  pub new_alias : All (λ x. x ≢ a.alias) aliases
  pub not_alias : All (λ x. x ≢ a.id) aliases
  pub not_id : All (λ x. x ≢ a.alias) ids

check_entry-IsWellNamed :
    (ids aliases : List String) (a : Account) → check_entry ids aliases a ≡ ok tt → IsWellNamed a
unfolding check_entry
check_entry-IsWellNamed ids aliases a h = record {
  id_form = ground arith;
  alias_form = ground arith;
  platform_form = ground arith;
  own_names = λ e. ground (arith, eq_iff a.id a.alias);
}

check_entry-IsUnseen :
    (ids aliases : List String) (a : Account)
    → check_entry ids aliases a ≡ ok tt
    → IsUnseen ids aliases a
unfolding check_entry
check_entry-IsUnseen ids aliases a h = record {
  new_id = contains-false a.id ids (ground arith);
  new_alias = contains-false a.alias aliases (ground arith);
  not_alias = contains-false a.id aliases (ground arith);
  not_id = contains-false a.alias ids (ground arith);
}

-- The keys of an entry survive its normalization, which makes it quiet.
record IsNormalized (a b : Account) : Type 0 where
  id_kept : a.id ≡ b.id
  alias_kept : a.alias ≡ b.alias
  platform_kept : a.platform ≡ b.platform
  quiet : IsQuiet b

normalize_entry-IsNormalized : (a : Account) → IsNormalized a (normalize_entry a).0
unfolding normalize_entry
normalize_entry-IsNormalized a =
    elim (Bool-cases (a.deleting && (a.active || not (a.state == state_stopped)))) [
      | inl h ↦ rw h (record {
        id_kept = refl;
        alias_kept = refl;
        platform_kept = refl;
        quiet = λ d. (refl, refl);
      })
      | inr h ↦ rw h (record {
        id_kept = refl;
        alias_kept = refl;
        platform_kept = refl;
        quiet = λ d. (ground arith, ground (arith, eq_iff a.state state_stopped));
      })
    ]

-- What the loop has checked of the entries that it keeps.
pub record Checked (ids aliases : List String) (kept : List Account) : Type 0 where
  pub formed : IsWellFormed kept
  pub unseen : All (IsUnseen ids aliases) kept

-- An entry behind this one, unseen after it, is apart from it.
IsUnseen-Apart :
    (ids aliases : List String) (a b c : Account)
    → a.id ≡ b.id
    → a.alias ≡ b.alias
    → IsUnseen (a.id ∷ ids) (a.alias ∷ aliases) c
    → Apart b c
IsUnseen-Apart ids aliases a b c i l u = record {
  ids = λ e. u.new_id.0 (i ∙ e);
  aliases = λ e. u.new_alias.0 (l ∙ e);
  id_alias = λ e. u.not_id.0 (i ∙ e);
  alias_id = λ e. u.not_alias.0 (l ∙ e);
}

IsUnseen-tail :
    (ids aliases : List String) (x y : String) (c : Account)
    → IsUnseen (x ∷ ids) (y ∷ aliases) c
    → IsUnseen ids aliases c
IsUnseen-tail ids aliases x y c u = record {
  new_id = u.new_id.1;
  new_alias = u.new_alias.1;
  not_alias = u.not_alias.1;
  not_id = u.not_id.1;
}

Checked-cons :
    (ids aliases : List String) (a b : Account) (kept : List Account)
    → IsNormalized a b
    → IsWellNamed a
    → IsUnseen ids aliases a
    → Checked (a.id ∷ ids) (a.alias ∷ aliases) kept
    → Checked ids aliases (b ∷ kept)
Checked-cons ids aliases a b kept n named u rest = record {
  formed = record {
    named = (named_b, rest.formed.named);
    distinct = (
      All-map (IsUnseen (a.id ∷ ids) (a.alias ∷ aliases)) (Apart b) kept
          (λ c. IsUnseen-Apart ids aliases a b c n.id_kept n.alias_kept) rest.unseen,
      rest.formed.distinct,
    );
    quiet = (n.quiet, rest.formed.quiet);
  };
  unseen = (
    unseen_b,
    All-map (IsUnseen (a.id ∷ ids) (a.alias ∷ aliases)) (IsUnseen ids aliases) kept
        (λ c. IsUnseen-tail ids aliases a.id a.alias c) rest.unseen,
  );
}
  where
    named_b : IsWellNamed b
    named_b = record {
      id_form = subst (λ x. is_id x ≡ true) n.id_kept named.id_form;
      alias_form = subst (λ x. matches_alias x ≡ true) n.alias_kept named.alias_form;
      platform_form = subst (λ x. known_platform x ≡ true) n.platform_kept named.platform_form;
      own_names = λ e. named.own_names (n.id_kept ∙ e ∙ sym n.alias_kept);
    }

    unseen_b : IsUnseen ids aliases b
    unseen_b = record {
      new_id = subst (λ x. All (λ y. y ≢ x) ids) n.id_kept u.new_id;
      new_alias = subst (λ x. All (λ y. y ≢ x) aliases) n.alias_kept u.new_alias;
      not_alias = subst (λ x. All (λ y. y ≢ x) aliases) n.id_kept u.not_alias;
      not_id = subst (λ x. All (λ y. y ≢ x) ids) n.alias_kept u.not_id;
    }

Checked-nil : (ids aliases : List String) → Checked ids aliases []
Checked-nil ids aliases = record {
  formed = record { named = tt; distinct = tt; quiet = tt };
  unseen = tt;
}

pub check_entries-Checked :
    (ids aliases : List String) (items kept : List Account) (changed : Bool)
    → check_entries ids aliases items ≡ ok (kept, changed)
    → Checked ids aliases kept
unfolding check_entries
check_entries-Checked ids aliases [] kept changed h =
    subst (Checked ids aliases) (ground arith) (Checked-nil ids aliases)
check_entries-Checked ids aliases (a ∷ items) kept changed h =
    let (u, checked, h') = chain_steps (check_entry ids aliases a) _ h in
    let (rest, found, h'') =
      chain_steps (check_entries (a.id ∷ ids) (a.alias ∷ aliases) items) _ h' in
    subst (Checked ids aliases) (ground arith) (
      Checked-cons ids aliases a (normalize_entry a).0 rest.0 (normalize_entry-IsNormalized a)
        (check_entry-IsWellNamed ids aliases a checked) (check_entry-IsUnseen ids aliases a checked)
        (check_entries-Checked (a.id ∷ ids) (a.alias ∷ aliases) items rest.0 rest.1 found))

save_normalized-accounts :
    (changed written : Bool) (s t : Store)
    → save_normalized changed written s ≡ ok t
    → s.registry.accounts ≡ t.registry.accounts
unfolding save_normalized save_data
save_normalized-accounts true true s t h = ground arith
save_normalized-accounts true false s t h = ground arith
save_normalized-accounts false written s t h = ground arith

open_registry-IsWellFormed :
    (r : Registry) (account_dirs runtime_dirs : List String) (written : Bool) (s : Store)
    → open_registry r account_dirs runtime_dirs written ≡ ok s
    → IsWellFormed s.registry.accounts
unfolding open_registry
open_registry-IsWellFormed r account_dirs runtime_dirs written s h =
    elim (Bool-cases (nat_beq r.version 1)) [
      | inr e ↦ absurd (refused (rw (e, open_registry) at h))
      | inl e ↦
          let (kept, checked, h') =
            chain_steps (check_entries [] [] r.accounts) _ (rw (e, open_registry) at h) in
          subst IsWellFormed (save_normalized-accounts kept.1 written _ s h')
            (check_entries-Checked [] [] r.accounts kept.0 kept.1 checked).formed
    ]
  where
    refused : err version_unsupported ≡ ok s → ⊥
    refused e = cc

opened_empty :
    {s t : Store}
    → ◌≡◌ {A = Result Error Store} (ok s) (ok t)
    → s.registry.accounts ≡ t.registry.accounts
opened_empty h = ground arith

-- A store that opens holds only well-named entries that are apart from one another, and none that is
-- being deleted is active.
pub open_store-IsWellFormed :
    (file : RegistryFile) (account_dirs runtime_dirs : List String) (written : Bool) (s : Store)
    → open_store file account_dirs runtime_dirs written ≡ ok s
    → IsWellFormed s.registry.accounts
unfolding open_store
open_store-IsWellFormed missing account_dirs runtime_dirs written s h =
    subst IsWellFormed (opened_empty h) (Checked-nil [] []).formed
open_store-IsWellFormed (readable r) account_dirs runtime_dirs written s h =
    open_registry-IsWellFormed r account_dirs runtime_dirs written s h
open_store-IsWellFormed _ account_dirs runtime_dirs written s h = cc
