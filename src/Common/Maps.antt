-- ===== src/Common/Maps.antt =====
-- `Map` with text keys, as a list of entries in the order of insertion.
use Prim.Native.String.{String}
use mathlib.Core.Path.{◌≡◌, refl}
use mathlib.Core.Bool.{Bool, true, false}
use mathlib.Core.Option.{Option, none, some}
use mathlib.Core.List.{List, [], ◌∷◌}
use native.Mathlib.Omega.{arith}
use mathlib.Core.Logic.{inl, inr}
use fos_mono.Common.Tests.{◌==◌, if◌then◌else◌, Bool-cases}

module _ {ℓ} {V : Type ℓ} where
  abbrev pub lookup : String → List (String × V) → Option V
  lookup k [] = none
  lookup k ((j, v) ∷ m) = if j == k then some v else lookup k m

  abbrev pub has_key : String → List (String × V) → Bool
  has_key k m = elim (lookup k m) [ none ↦ false | some _ ↦ true ]

  -- `set`: in place when the key is there, else behind the other entries.
  abbrev pub set_key : String → V → List (String × V) → List (String × V)
  set_key k v [] = (k, v) ∷ []
  set_key k v ((j, w) ∷ m) = if j == k then (j, v) ∷ m else (j, w) ∷ set_key k v m

  -- `delete`.
  abbrev pub delete_key : String → List (String × V) → List (String × V)
  delete_key k [] = []
  delete_key k ((j, w) ∷ m) = if j == k then delete_key k m else (j, w) ∷ delete_key k m

  abbrev pub keys : List (String × V) → List String
  keys [] = []
  keys ((k, v) ∷ m) = k ∷ keys m

  pub lookup-set_key :
      (k j : String) (v : V) (m : List (String × V))
      → lookup j (set_key k v m) ≡ (if k == j then some v else lookup j m)
  lookup-set_key k j v [] = refl
  lookup-set_key k j v ((i, w) ∷ m) = ground (arith, lookup-set_key k j v m)

  pub lookup-delete_key :
      (k j : String) (m : List (String × V))
      → lookup j (delete_key k m) ≡ (if k == j then none else lookup j m)
  lookup-delete_key k j [] = ground arith
  lookup-delete_key k j ((i, w) ∷ m) = ground (arith, lookup-delete_key k j m)

  -- Each key stands in one entry.
  abbrev pub HasDistinctKeys : List (String × V) → Type 0
  HasDistinctKeys [] = Unit
  HasDistinctKeys ((k, v) ∷ m) = (has_key k m ≡ false) × HasDistinctKeys m

  pub set_key-HasDistinctKeys :
      (k : String) (v : V) (m : List (String × V))
      → HasDistinctKeys m
      → HasDistinctKeys (set_key k v m)
  set_key-HasDistinctKeys k v [] h = (refl, tt)
  set_key-HasDistinctKeys k v ((j, w) ∷ m) h = elim (Bool-cases (j == k)) [
    | inl e ↦ rw e h
    | inr n ↦ rw n (ground (arith, lookup-set_key k j v m, h.0), set_key-HasDistinctKeys k v m h.1)
  ]
