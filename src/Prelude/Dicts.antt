-- ===== src/Prelude/Dicts.antt =====
-- A Go map with text keys, as the list of its entries. No key occurs twice, and the code does not
-- depend on the order of iteration.
use Prim.Native.String.{String}
use mathlib.Core.List.{List, [], ◌∷◌}
use mathlib.Core.Logic.{◌≢◌}
use mathlib.Core.Option.{Option, none, some}
use mathlib.Core.Path.{◌≡◌}
use native.Mathlib.Omega.{arith}
use text.Mathlib.Text.{◌==◌}
use text.Mathlib.TextEquality.{eq_iff}
use wechatcopilot.Prelude.Tests.{if◌then◌else◌}

abbrev pub Dict : Type 0 → Type 0
Dict V = List (String × V)

module _ {V : Type 0} where
  -- `v, ok := m[k]`
  unfoldable pub dict_get : Dict V → String → Option V
  dict_get [] k = none
  dict_get ((j, v) ∷ m) k = if j == k then some v else dict_get m k

  -- `delete(m, k)`
  unfoldable pub dict_remove : Dict V → String → Dict V
  dict_remove [] k = []
  dict_remove ((j, v) ∷ m) k = let rest = dict_remove m k in if j == k then rest else (j, v) ∷ rest

  -- `m[k] = v`
  unfoldable pub dict_put : Dict V → String → V → Dict V
  unfolding dict_remove
  dict_put m k v = (k, v) ∷ dict_remove m k

  pub dict_get-remove :
      (m : Dict V) (k j : String)
      → dict_get (dict_remove m k) j ≡ (if k == j then none else dict_get m j)
  unfolding dict_get dict_remove
  dict_get-remove [] k j = ground arith
  dict_get-remove ((i, v) ∷ m) k j =
      ground (arith, dict_get-remove m k j, eq_iff i k, eq_iff i j, eq_iff k j)

  pub dict_get-put :
      (m : Dict V) (k j : String) (v : V)
      → dict_get (dict_put m k v) j ≡ (if k == j then some v else dict_get m j)
  unfolding dict_get dict_put
  dict_get-put m k j v = ground (arith, dict_get-remove m k j)

  pub dict_get-put_own : (m : Dict V) (k : String) (v : V) → dict_get (dict_put m k v) k ≡ some v
  dict_get-put_own m k v = rw (dict_get-put m k k v) (ground (arith, eq_iff k k))

  pub dict_get-put_other :
      (m : Dict V) (k j : String) (v : V) → k ≢ j → dict_get (dict_put m k v) j ≡ dict_get m j
  dict_get-put_other m k j v n = rw (dict_get-put m k j v) (ground (arith, eq_iff k j))

  pub dict_get-remove_other :
      (m : Dict V) (k j : String) → k ≢ j → dict_get (dict_remove m k) j ≡ dict_get m j
  dict_get-remove_other m k j n = rw (dict_get-remove m k j) (ground (arith, eq_iff k j))
