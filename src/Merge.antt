-- ===== src/Merge.antt =====
-- Three-way merge, shared/sync/merge.ts: the order of merged children (`orderedKeys`), the merge of
-- data field by field (`mergeData`, `sameValue`, `timeOf`) and the choice for one child that is made
-- before any recursion (`sameEdge` and the tests of `mergeChildren`).
pub mod Order
pub mod Rule
pub mod Conflict
pub mod Children
pub mod Options
pub mod Refs
pub mod Nodes
pub mod Resolve
pub mod Index
pub mod Sides
mod ChildTests
pub mod Tests
use fos_mono.Common.{
  ℕ, zero, suc, String, Bool, true, false, List, [], ◌∷◌, ◌++◌, Option, none, some, ◌==◌, max, ltb,
  length, contains, lookup, set_key, keys, if◌then◌else◌,
}
use fos_mono.Node.{Json, obj, num, Fields, end, field, Data, normalize_object, Json_discrete, Edge}

-- `indexOf`; none is -1.
unfoldable pub index_of : String → List String → Option ℕ
index_of key [] = none
index_of key (x ∷ xs) =
    if x == key then some zero else elim (index_of key xs) [ none ↦ none | some i ↦ some (suc i) ]

-- `splice(at, 0, key)`
unfoldable pub insert_at : ℕ → String → List String → List String
insert_at zero key xs = key ∷ xs
insert_at (suc n) key [] = key ∷ []
insert_at (suc n) key (x ∷ xs) = x ∷ insert_at n key xs

-- The first key of a list that stands in `out`, with the index where it stands.
unfoldable pub first_index : List String → List String → Option ℕ
unfolding index_of
first_index [] out = none
first_index (k ∷ ks) out = elim (index_of k out) [ some i ↦ some i | none ↦ first_index ks out ]

-- Where a new key goes: behind the nearest key before it, else in front of the next one after it,
-- else at the end. `before` has the nearest key first.
unfoldable pub place : List String → List String → List String → ℕ
unfolding first_index
place before after out = elim (first_index before out) [
  | some i ↦ suc i
  | none ↦ elim (first_index after out) [ some i ↦ i | none ↦ length out ]
]

pub record Ordered : Type 0 where
  pub out : List String
  pub present : List String

unfoldable pub add_key : List String → String → List String → Ordered → Ordered
unfolding place insert_at
add_key before key after s =
    if contains key s.present
    then s
    else record { out = insert_at (place before after s.out) key s.out; present = key ∷ s.present }

-- `theirs.forEach`
unfoldable pub add_theirs : List String → List String → Ordered → Ordered
unfolding add_key
add_theirs before [] s = s
add_theirs before (key ∷ after) s = add_theirs (key ∷ before) after (add_key before key after s)

-- The last loop, over the keys of the base.
unfoldable pub add_base : List String → Ordered → Ordered
add_base [] s = s
add_base (key ∷ base) s = add_base base (
    if contains key s.present
    then s
    else record { out = s.out ++ (key ∷ []); present = key ∷ s.present })

unfoldable pub ordered_keys : List String → List String → List String → List String
unfolding add_theirs add_base
ordered_keys ours theirs base =
    let mine : Ordered = record { out = ours; present = ours } in
    let both = add_theirs [] theirs mine in let all = add_base base both in all.out

-- The number under `time`, in an object.
unfoldable pub time_field : Fields → ℕ
time_field end = 0
time_field (field k (num n) fs) = if k == "time" then n else time_field fs
time_field (field k v fs) = if k == "time" then 0 else time_field fs

-- `timeOf`; `none` is undefined.
unfoldable pub time_of : Option Json → ℕ
unfolding time_field
time_of (some (obj fs)) = time_field fs
time_of _ = 0

-- `sameValue`: equal after `sortKeys` (the same function as `normalizeObject` of cid.ts), which is
-- when the JSON texts are the same. `none` is undefined.
unfoldable pub same_value : Option Json → Option Json → Bool
unfolding normalize_object Json_discrete
same_value none none = true
same_value (some a) (some b) = elim (Json_discrete (normalize_object a) (normalize_object b)) [
  | yes _ ↦ true
  | no _ ↦ false
]
same_value _ _ = false

-- `out[key] = value`, unless the value is undefined.
abbrev pub assign : String → Option Json → Data → Data
assign key none out = out
assign key (some v) out = set_key key v out

abbrev pub time_value : ℕ → Option Json
time_value zero = none
time_value (suc n) = some (obj (field "time" (num (suc n)) end))

pub data Merged : Type 0 where
  keep : Option Json → Merged
  conflict : Merged

-- One round of the loop of `mergeData`: what becomes of one key.
unfoldable pub merge_field : Bool → String → Option Json → Option Json → Option Json → Merged
unfolding same_value time_of
merge_field theirs_wins key b o t =
    if key == "updated"
    then keep (time_value (max (max (time_of o) (time_of t)) (time_of b)))
    else if same_value o t
    then keep o
    else if same_value b o
    then keep t
    else if same_value b t
    then keep o
    else if theirs_wins
    then keep t
    else conflict

-- The loop of `mergeData`; `none` is its null.
unfoldable pub merge_fields : Bool → Data → Data → Data → Data → List String → Option Data
unfolding merge_field
merge_fields theirs_wins base ours theirs out [] = some out
merge_fields theirs_wins base ours theirs out (key ∷ rest) =
    elim (merge_field theirs_wins key (lookup key base) (lookup key ours) (lookup key theirs)) [
      | keep v ↦ merge_fields theirs_wins base ours theirs (assign key v out) rest
      | conflict ↦ none
    ]

-- `new Set(keys)`, in the order of first occurrence.
unfoldable pub distinct : List String → List String → List String
distinct seen [] = []
distinct seen (k ∷ ks) = elim (contains k seen) [
  | true ↦ distinct seen ks
  | false ↦ k ∷ distinct (k ∷ seen) ks
]

unfoldable pub merge_data : Data → Data → Data → Bool → Option Data
unfolding merge_fields distinct
merge_data base ours theirs theirs_wins =
    merge_fields theirs_wins base ours theirs []
      (distinct [] (keys base ++ (keys ours ++ keys theirs)))

unfoldable pub same_edge : Option Edge → Option Edge → Bool
same_edge none none = true
same_edge (some (i, t)) (some (j, u)) = if i == j then t == u else false
same_edge _ _ = false
