-- ===== src/Graph/Choice/Sorted.antt =====
-- The options of a choice in the order of the ids of their nodes.
use Prim.Native.String.compare
use Prim.Native.String.{compare}
use text.Mathlib.Text.{is_lt}
use mathlib.Core.List.Perm
use mathlib.Core.List.{Perm}
use fos_mono.Common.{
  true, false, arith, ap, String, Bool-cases, List, [], ◌∷◌, ◌≡◌, refl, inl, inr, All, map,
  if◌then◌else◌,
}
use fos_mono.Node.{Fields, Edge}
use fos_mono.Graph.Choice.{ChoiceOption, sort_cids, insert_cid}
use fos_mono.Graph.Choice.Built.{option_cid}

lt_asymm : (s t : String) → is_lt (compare s t) ≡ true → is_lt (compare t s) ≡ false
lt_asymm String.[] String.[] h = ap is_lt compare.nil-nil
lt_asymm String.[] (String.◌∷◌ d t) h = ap is_lt (compare.cons-nil d t)
lt_asymm (String.◌∷◌ c s) String.[] h = absurd (ground (arith, compare.cons-nil c s))
lt_asymm (String.◌∷◌ c s) (String.◌∷◌ d t) h =
    ground (arith, compare.cons-cons c d s t, compare.cons-cons d c t s, lt_asymm s t)

-- Options in the order of the ids of their nodes.
module _ (sha3 : Fields × List Edge → String) where
  unfoldable pub insert_option : ChoiceOption → List ChoiceOption → List ChoiceOption
  insert_option o [] = o ∷ []
  insert_option o (p ∷ options) =
      if is_lt (compare (option_cid sha3 p) (option_cid sha3 o))
      then p ∷ insert_option o options
      else o ∷ p ∷ options

  unfoldable pub sort_options : List ChoiceOption → List ChoiceOption
  unfolding insert_option
  sort_options [] = []
  sort_options (o ∷ options) = insert_option o (sort_options options)

  insert_option-map :
      (o : ChoiceOption) (options : List ChoiceOption)
      → insert_cid (option_cid sha3 o) (map (option_cid sha3) options)
        ≡ map (option_cid sha3) (insert_option o options)
  unfolding insert_cid insert_option
  insert_option-map o [] = refl
  insert_option-map o (p ∷ options) =
      elim (Bool-cases (is_lt (compare (option_cid sha3 p) (option_cid sha3 o)))) [
        | inl a ↦ rw (a, insert_option-map o options) refl
        | inr a ↦ rw a refl
      ]

  pub sort_options-map :
      (options : List ChoiceOption)
      → sort_cids (map (option_cid sha3) options) ≡ map (option_cid sha3) (sort_options options)
  unfolding sort_cids sort_options
  sort_options-map [] = refl
  sort_options-map (o ∷ options) =
      rw (sort_options-map options) (insert_option-map o (sort_options options))

  All-insert_option {ℓ} :
      (P : ChoiceOption → Type ℓ) (o : ChoiceOption) (options : List ChoiceOption)
      → P o
      → All P options
      → All P (insert_option o options)
  unfolding insert_option
  All-insert_option P o [] k h = (k, tt)
  All-insert_option P o (p ∷ options) k h =
      elim (Bool-cases (is_lt (compare (option_cid sha3 p) (option_cid sha3 o)))) [
        | inl a ↦ rw a (h.0, All-insert_option P o options k h.1)
        | inr a ↦ rw a (k, h)
      ]

  pub All-sort_options {ℓ} :
      (P : ChoiceOption → Type ℓ) (options : List ChoiceOption)
      → All P options
      → All P (sort_options options)
  unfolding sort_options
  All-sort_options P [] h = tt
  All-sort_options P (o ∷ options) h =
      All-insert_option P o (sort_options options) h.0 (All-sort_options P options h.1)

  insert_option-Perm :
      (o : ChoiceOption) (options : List ChoiceOption)
      → Perm (o ∷ options) (insert_option o options)
  unfolding insert_option
  insert_option-Perm o [] = Perm.refl (o ∷ [])
  insert_option-Perm o (p ∷ options) =
      elim (Bool-cases (is_lt (compare (option_cid sha3 p) (option_cid sha3 o)))) [
        | inl a ↦
            rw a (Perm.trans (Perm.swap p o options) (Perm.cons p (insert_option-Perm o options)))
        | inr a ↦ rw a (Perm.refl (o ∷ p ∷ options))
      ]

  pub sort_options-Perm : (options : List ChoiceOption) → Perm options (sort_options options)
  unfolding sort_options
  sort_options-Perm [] = Perm.refl []
  sort_options-Perm (o ∷ options) =
      Perm.trans (Perm.cons o (sort_options-Perm options))
        (insert_option-Perm o (sort_options options))

  -- The first option's id does not come after it.
  abbrev pub IsAbove : ChoiceOption → List ChoiceOption → Type 0
  IsAbove o [] = Unit
  IsAbove o (p ∷ options) = is_lt (compare (option_cid sha3 p) (option_cid sha3 o)) ≡ false

  -- No option's id comes before that of the option in front of it.
  abbrev pub IsSorted : List ChoiceOption → Type 0
  IsSorted [] = Unit
  IsSorted (o ∷ options) = IsAbove o options × IsSorted options

  insert_option-IsAbove :
      (o p : ChoiceOption) (options : List ChoiceOption)
      → is_lt (compare (option_cid sha3 o) (option_cid sha3 p)) ≡ false
      → IsAbove p options
      → IsAbove p (insert_option o options)
  unfolding insert_option
  insert_option-IsAbove o p [] k h = k
  insert_option-IsAbove o p (q ∷ options) k h =
      elim (Bool-cases (is_lt (compare (option_cid sha3 q) (option_cid sha3 o)))) [
        | inl a ↦ rw a h
        | inr a ↦ rw a k
      ]

  insert_option-IsSorted :
      (o : ChoiceOption) (options : List ChoiceOption)
      → IsSorted options
      → IsSorted (insert_option o options)
  unfolding insert_option
  insert_option-IsSorted o [] h = (tt, tt)
  insert_option-IsSorted o (p ∷ options) h =
      elim (Bool-cases (is_lt (compare (option_cid sha3 p) (option_cid sha3 o)))) [
        | inl a ↦ rw a (
          insert_option-IsAbove o p options (lt_asymm (option_cid sha3 p) (option_cid sha3 o) a)
              h.0,
          insert_option-IsSorted o options h.1,
        )
        | inr a ↦ rw a (a, h)
      ]

  pub sort_options-IsSorted : (options : List ChoiceOption) → IsSorted (sort_options options)
  unfolding sort_options
  sort_options-IsSorted [] = tt
  sort_options-IsSorted (o ∷ options) =
      insert_option-IsSorted o (sort_options options) (sort_options-IsSorted options)
