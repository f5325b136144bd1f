-- ===== src/Prelude/Maps.antt =====
-- `HashMap<String, V>` as an association list: `get`, `insert`, `remove` and the entries that
-- `iter()` and `values()` visit. Each key has one entry.
use Prim.Native.Nat.{◌≤◌}
use Prim.Native.String.{String}
use mathlib.Core.Path.{◌≡◌, refl}
use mathlib.Core.Logic.{◌≢◌}
use mathlib.Core.Option.{Option, none, some}
use mathlib.Core.List.{List, [], ◌∷◌}
use native.Mathlib.Omega.{arith}
use text.Mathlib.Text.{◌==◌ as str_eq}
use text.Mathlib.TextEquality.{eq_iff}
use jaiva.Prelude.Tests.{if◌then◌else◌, str_eq_refl, str_eq_ne}
use jaiva.Prelude.Lists.{length}

abbrev pub HashMap : Type 0 → Type 0
HashMap V = List (String × V)

module _ {V : Type 0} where
  unfoldable pub get : HashMap V → String → Option V
  get [] k = none
  get ((j, v) ∷ m) k = if str_eq j k then some v else get m k

  unfoldable pub insert : HashMap V → String → V → HashMap V
  insert [] k v = (k, v) ∷ []
  insert ((j, w) ∷ m) k v = if str_eq j k then (k, v) ∷ m else (j, w) ∷ insert m k v

  unfoldable pub remove : HashMap V → String → HashMap V
  remove [] k = []
  remove ((j, w) ∷ m) k = let rest = remove m k in if str_eq j k then rest else (j, w) ∷ rest

  abbrev pub keys : HashMap V → List String
  keys [] = []
  keys ((j, w) ∷ m) = j ∷ keys m

  abbrev pub values : HashMap V → List V
  values [] = []
  values ((j, w) ∷ m) = w ∷ values m

  -- `entry(k).or_insert(v)`: the value that the entry holds afterwards.
  abbrev pub or_insert : Option V → V → V
  or_insert none v = v
  or_insert (some w) v = w

  pub get-insert :
      (m : HashMap V) (k j : String) (v : V)
      → get (insert m k v) j ≡ (if str_eq k j then some v else get m j)
  unfolding get insert
  get-insert [] k j v = refl
  get-insert ((i, w) ∷ m) k j v =
      ground (arith, eq_iff k j, eq_iff i k, eq_iff i j, get-insert m k j v)

  pub get-remove :
      (m : HashMap V) (k j : String) → get (remove m k) j ≡ (if str_eq k j then none else get m j)
  unfolding get remove
  get-remove [] k j = ground arith
  get-remove ((i, w) ∷ m) k j = ground (arith, eq_iff k j, eq_iff i k, eq_iff i j, get-remove m k j)

  pub get-insert_self : (m : HashMap V) (k : String) (v : V) → get (insert m k v) k ≡ some v
  get-insert_self m k v = rw (get-insert m k k v, str_eq_refl k)

  pub get-insert_ne :
      (m : HashMap V) (k j : String) (v : V) → k ≢ j → get (insert m k v) j ≡ get m j
  get-insert_ne m k j v h = rw (get-insert m k j v, str_eq_ne k j h)

  pub length-remove_le : (m : HashMap V) (k : String) → length (remove m k) ≤ length m
  unfolding remove
  length-remove_le [] k = omega arith
  length-remove_le ((j, w) ∷ m) k = ground (arith, length-remove_le m k)

  pub keys-insert :
      (m : HashMap V) (k : String) (v w : V) → get m k ≡ some w → keys (insert m k v) ≡ keys m
  unfolding get insert
  keys-insert [] k v w h = absurd (cc)
  keys-insert ((j, u) ∷ m) k v w h = ground (arith, eq_iff j k, keys-insert m k v w)
