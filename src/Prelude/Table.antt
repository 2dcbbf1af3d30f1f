-- ===== src/Prelude/Table.antt =====
-- `DashMap<String, V>` as an association list, `DashSet<String>` as a list of its members.
use Prim.Native.String.{String}
use mathlib.Core.Path.{◌≡◌}
use mathlib.Core.Bool.{Bool, true, false, ◌||◌}
use mathlib.Core.List.{List, [], ◌∷◌}
use mathlib.Core.Option.{Option, none, some}
use native.Mathlib.Omega.{arith}
use text.Mathlib.Text.{◌==◌}
use text.Mathlib.TextEquality.{eq_iff}
use sentiric_b2bua_service.Prelude.Tests.{if◌then◌else◌}

module _ {ℓ} {V : Type ℓ} where
  -- map.get(key)
  unfoldable pub lookup : (key : String) → List (String × V) → Option V
  lookup key [] = none
  lookup key ((name, value) ∷ rest) = if name == key then some value else lookup key rest

  -- map.remove(k)
  unfoldable pub erase : String → List (String × V) → List (String × V)
  erase k [] = []
  erase k ((j, v) ∷ m) = let rest = erase k m in if j == k then rest else (j, v) ∷ rest

  -- map.insert(k, v)
  unfoldable pub insert : String → V → List (String × V) → List (String × V)
  unfolding erase
  insert k v m = (k, v) ∷ erase k m

  pub lookup-erase :
      (k j : String) (m : List (String × V))
      → lookup j (erase k m) ≡ (if k == j then none else lookup j m)
  unfolding lookup erase
  lookup-erase k j [] = ground arith
  lookup-erase k j ((i, v) ∷ m) =
      ground (arith, lookup-erase k j m, eq_iff i k, eq_iff i j, eq_iff k j)

  pub lookup-insert :
      (key other : String) (value : V) (m : List (String × V))
      → lookup other (insert key value m) ≡ (if key == other then some value else lookup other m)
  unfolding lookup insert
  lookup-insert key other value m = ground (arith, lookup-erase key other m)

-- set.contains(k)
unfoldable pub contains : String → List String → Bool
contains k [] = false
contains k (j ∷ s) = j == k || contains k s

-- set.insert(k), whose answer is `not (contains k s)`
unfoldable pub add : String → List String → List String
unfolding contains
add k s = if contains k s then s else k ∷ s

-- set.remove(k)
unfoldable pub discard : String → List String → List String
discard k [] = []
discard k (j ∷ s) = let rest = discard k s in if j == k then rest else j ∷ rest

pub contains-add :
    (k j : String) (s : List String)
    → contains j (add k s) ≡ (if k == j then true else contains j s)
unfolding contains add
contains-add k j s = ground (arith, eq_iff k j)

pub contains-discard :
    (k j : String) (s : List String)
    → contains j (discard k s) ≡ (if k == j then false else contains j s)
unfolding contains discard
contains-discard k j [] = ground arith
contains-discard k j (i ∷ s) =
    ground (arith, contains-discard k j s, eq_iff i k, eq_iff i j, eq_iff k j)

pub ruleset table_laws = (lookup-erase, lookup-insert, contains-add, contains-discard)
