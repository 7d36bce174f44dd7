-- ===== src/Account/Keys.antt =====
-- The well-formedness of a registry, and the relation that every call keeps between an entry and
-- what becomes of it.
use wechatcopilot.Prelude.{
  true, false, List, ◌≡◌, ◌≢◌, refl, All, Pairs, AllPairs, All-along, Pairs-along, arith,
}
use wechatcopilot.Driver.{state_stopped}
use wechatcopilot.Account.Names.{matches_alias, is_id}
use wechatcopilot.Account.Registry.{Account, known_platform}

-- The identifier, the alias and the platform of an entry have the forms that `Open` demands.
pub record IsWellNamed (a : Account) : Type 0 where
  pub id_form : is_id a.id ≡ true
  pub alias_form : matches_alias a.alias ≡ true
  pub platform_form : known_platform a.platform ≡ true
  pub own_names : a.id ≢ a.alias

-- No text names both entries.
pub record Apart (a b : Account) : Type 0 where
  pub ids : a.id ≢ b.id
  pub aliases : a.alias ≢ b.alias
  pub id_alias : a.id ≢ b.alias
  pub alias_id : a.alias ≢ b.id

-- An entry that is being deleted is inactive and stopped.
abbrev pub IsQuiet : Account → Type 0
IsQuiet a = a.deleting ≡ true → (a.active ≡ false) × (a.state ≡ state_stopped)

pub record IsWellFormed (entries : List Account) : Type 0 where
  pub named : All IsWellNamed entries
  pub distinct : Pairs Apart entries
  pub quiet : All IsQuiet entries

-- What a call may make of an entry: the keys stay, the deletion marker is never taken back, and an
-- entry under it stays quiet.
pub record Evolves (a b : Account) : Type 0 where
  pub same_id : a.id ≡ b.id
  pub same_alias : a.alias ≡ b.alias
  pub same_platform : a.platform ≡ b.platform
  pub marked : a.deleting ≡ true → b.deleting ≡ true
  pub still_quiet : IsQuiet a → IsQuiet b

pub Evolves-refl : (a : Account) → Evolves a a
Evolves-refl a = record {
  same_id = refl;
  same_alias = refl;
  same_platform = refl;
  marked = λ h. h;
  still_quiet = λ h. h;
}

IsWellNamed-along : (a b : Account) → Evolves a b → IsWellNamed a → IsWellNamed b
IsWellNamed-along a b k n = record {
  id_form = ground (arith, k.same_id, n.id_form);
  alias_form = ground (arith, k.same_alias, n.alias_form);
  platform_form = ground (arith, k.same_platform, n.platform_form);
  own_names = λ e. n.own_names (ground (arith, k.same_id, k.same_alias));
}

pub Apart-along : (a b c d : Account) → Evolves a c → Evolves b d → Apart a b → Apart c d
Apart-along a b c d k l p = record {
  ids = λ e. p.ids (ground (arith, k.same_id, l.same_id));
  aliases = λ e. p.aliases (ground (arith, k.same_alias, l.same_alias));
  id_alias = λ e. p.id_alias (ground (arith, k.same_id, l.same_alias));
  alias_id = λ e. p.alias_id (ground (arith, k.same_alias, l.same_id));
}

-- A call that evolves every entry keeps the registry well-formed.
pub IsWellFormed-along :
    (xs ys : List Account) → AllPairs Evolves xs ys → IsWellFormed xs → IsWellFormed ys
IsWellFormed-along xs ys k w = record {
  named = All-along Evolves IsWellNamed IsWellNamed xs ys IsWellNamed-along k w.named;
  distinct = Pairs-along Evolves Apart Apart xs ys Apart-along k w.distinct;
  quiet = All-along Evolves IsQuiet IsQuiet xs ys (λ a b e. e.still_quiet) k w.quiet;
}
