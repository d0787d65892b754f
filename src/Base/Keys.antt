-- ===== src/Base/Keys.antt =====
-- Go maps with string keys as association lists with no key twice; the order of the list is the
-- order in which a `range` over the map meets its entries, which Go leaves open. Sets of strings
-- are lists of strings.
use Prim.Native.String.{String}
use mathlib.Core.Path.{◌≡◌, refl}
use mathlib.Core.Bool.{Bool, false, ◌||◌}
use mathlib.Core.Option.{Option, none, some}
use mathlib.Core.List.{List, [], ◌∷◌, ◌++◌}
use native.Mathlib.Omega.{arith}
use text.Mathlib.Text.{◌==◌ as str_eq}
use text.Mathlib.TextEquality.{eq_iff}
use qiniu_exporter.Base.Tests.{if◌then◌else◌}

-- `_, ok := set[key]`
abbrev pub contains : String → List String → Bool
contains k [] = false
contains k (x ∷ xs) = str_eq x k || contains k xs

pub contains-append :
    (k : String) (xs ys : List String) → contains k (xs ++ ys) ≡ (contains k xs || contains k ys)
contains-append k [] ys = refl
contains-append k (x ∷ xs) ys = ground (arith, contains-append k xs ys)

module _ {ℓ} {V : Type ℓ} where
  -- `value, ok := entries[asked]`
  unfoldable pub lookup : String → List (String × V) → Option V
  lookup asked ((key, value) ∷ entries) =
      let behind = lookup asked entries in if str_eq key asked then some value else behind
  lookup asked [] = none

  -- `entries[new] = value`
  unfoldable pub insert : String → V → List (String × V) → List (String × V)
  insert new value ((key, old) ∷ entries) =
      let behind = insert new value entries in
      if str_eq key new then (new, value) ∷ entries else (key, old) ∷ behind
  insert new value [] = (new, value) ∷ []

  -- The entries whose key and value pass the test.
  unfoldable pub select : (String → V → Bool) → List (String × V) → List (String × V)
  select p [] = []
  select p ((j, v) ∷ m) = let rest = select p m in if p j v then (j, v) ∷ rest else rest

  unfoldable pub keys : List (String × V) → List String
  keys [] = []
  keys ((j, v) ∷ m) = j ∷ keys m

  pub lookup-insert :
      (new asked : String) (value : V) (m : List (String × V))
      → lookup asked (insert new value m)
        ≡ (if str_eq new asked then some value else lookup asked m)
  unfolding lookup insert
  lookup-insert new asked value ((i, w) ∷ m) =
      ground
        (arith, lookup-insert new asked value m, eq_iff i asked, eq_iff i new, eq_iff new asked)
  lookup-insert new asked value [] = refl

  -- No key stands twice, as in a Go map.
  abbrev pub IsMap : List (String × V) → Type 0
  IsMap [] = Unit
  IsMap ((j, v) ∷ m) = (contains j (keys m) ≡ false) × IsMap m

  pub lookup-absent :
      (k : String) (m : List (String × V)) → contains k (keys m) ≡ false → lookup k m ≡ none
  unfolding lookup keys
  lookup-absent k [] h = refl
  lookup-absent k ((j, v) ∷ m) h = ground (arith, lookup-absent k m)

  pub keys-insert :
      (k j : String) (v : V) (m : List (String × V))
      → contains j (keys (insert k v m)) ≡ (str_eq k j || contains j (keys m))
  unfolding keys insert
  keys-insert k j v [] = refl
  keys-insert k j v ((i, w) ∷ m) =
      ground (arith, eq_iff i k, eq_iff k j, eq_iff i j, keys-insert k j v m)

  pub insert-IsMap : (k : String) (v : V) (m : List (String × V)) → IsMap m → IsMap (insert k v m)
  unfolding insert keys
  insert-IsMap k v [] h = (refl, tt)
  insert-IsMap k v ((i, w) ∷ m) h =
      ground (arith, eq_iff i k, eq_iff k i, keys-insert k i v m, insert-IsMap k v m)

  pub keys-select :
      (p : String → V → Bool) (k : String) (m : List (String × V))
      → contains k (keys m) ≡ false
      → contains k (keys (select p m)) ≡ false
  unfolding keys select
  keys-select p k [] h = refl
  keys-select p k ((i, w) ∷ m) h = ground (arith, keys-select p k m)

  pub select-IsMap : (p : String → V → Bool) (m : List (String × V)) → IsMap m → IsMap (select p m)
  unfolding keys select
  select-IsMap p [] h = tt
  select-IsMap p ((i, w) ∷ m) h = ground (arith, keys-select p i m, select-IsMap p m)

  -- On a map, looking up what a selection keeps is looking up and testing.
  pub lookup-select :
      (p : String → V → Bool) (k : String) (m : List (String × V)) {v : V}
      → IsMap m
      → lookup k m ≡ some v
      → lookup k (select p m) ≡ (if p k v then some v else none)
  unfolding lookup select keys
  lookup-select p k [] h e = cc
  lookup-select p k ((i, w) ∷ m) {v = v} h e = ground (
    arith,
    eq_iff i k,
    lookup-select p k m {v = v},
    keys-select p k m,
    lookup-absent k (select p m),
  )

  pub lookup-select-none :
      (p : String → V → Bool) (k : String) (m : List (String × V))
      → lookup k m ≡ none
      → lookup k (select p m) ≡ none
  unfolding lookup select
  lookup-select-none p k [] e = refl
  lookup-select-none p k ((i, w) ∷ m) e = ground (arith, lookup-select-none p k m)
