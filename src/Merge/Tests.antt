-- ===== src/Merge/Tests.antt =====
-- Merges of concrete orders and data.
use mathlib.Core.List.{Sublist}
use fos_mono.Common.{
  String, [], ◌∷◌, none, some, true, false, ◌≡◌, refl, ◌↔◌, ◌||◌, contains, lookup, String_discrete,
}
use fos_mono.Node.{Data, str, num, obj, field, end}
use fos_mono.Merge.{merge_data, ordered_keys, same_value}
use fos_mono.Merge.Order.{IsDistinct, ordered_keys_lem}
use fos_mono.Merge.Rule.{IsMerge, merge_data-lookup}
use fos_mono.Merge.Conflict.{Clashes, merge_data-eq-none_iff, merge_data_symm}

abbrev time : Data → Data
time d = ("updated", obj (field "time" (num 5) end)) ∷ d

abbrev base : Data
base = ("name", str "a") ∷ ("done", str "no") ∷ []

abbrev ours : Data
ours = ("name", str "b") ∷ ("done", str "no") ∷ []

abbrev theirs : Data
theirs = ("name", str "a") ∷ ("done", str "yes") ∷ time []

abbrev merged : Data
merged = ("name", str "b") ∷ ("done", str "yes") ∷ time []

merge_tests :
    (merge_data base ours theirs false ≡ some merged)
    × (merge_data base ours (("name", str "c") ∷ []) false ≡ none)
    × (ordered_keys ("a" ∷ "b" ∷ []) ("x" ∷ "b" ∷ "y" ∷ []) ("z" ∷ [])
        ≡ "a" ∷ "x" ∷ "b" ∷ "y" ∷ "z" ∷ [])
unfolding merge_data ordered_keys String_discrete
merge_tests = (refl, refl, refl)

ordered_keys_lem_example :
    Sublist ("a" ∷ "b" ∷ []) (ordered_keys ("a" ∷ "b" ∷ []) ("x" ∷ "b" ∷ []) ("z" ∷ []))
    × IsDistinct (ordered_keys ("a" ∷ "b" ∷ []) ("x" ∷ "b" ∷ []) ("z" ∷ []))
    × ((k : String)
        → contains k (ordered_keys ("a" ∷ "b" ∷ []) ("x" ∷ "b" ∷ []) ("z" ∷ []))
          ≡ (contains k ("z" ∷ []) || (contains k ("x" ∷ "b" ∷ []) || contains k ("a" ∷ "b" ∷ []))))
unfolding String_discrete
ordered_keys_lem_example =
    ordered_keys_lem ("a" ∷ "b" ∷ []) ("x" ∷ "b" ∷ []) ("z" ∷ []) (refl, (refl, tt))

merge_data-lookup_example :
    IsMerge false "name"
      (lookup "name" base)
      (lookup "name" ours)
      (lookup "name" theirs)
      (lookup "name" merged)
merge_data-lookup_example = merge_data-lookup base ours theirs false "name" merge_tests.0

merge_data-eq-none_iff_example :
    (merge_data base ours theirs false ≡ none)
    ↔ ((false ≡ false) × ((k : String) × Clashes base ours theirs k))
merge_data-eq-none_iff_example = merge_data-eq-none_iff base ours theirs false

merge_data_symm_example :
    (e : Data) × (merge_data base theirs ours false ≡ some e)
    × ((k : String) → same_value (lookup k merged) (lookup k e) ≡ true)
merge_data_symm_example = merge_data_symm base ours theirs merged merge_tests.0
