-- ===== src/Graph/Data.antt =====
-- What the graph helpers read of a node's data. The members are typed in shared/types.ts; a member of
-- another type counts as absent.
use fos_mono.Common.{
  zero, suc, String, Bool, true, false, not, Option, none, some, ◌==◌, lookup, if◌then◌else◌,
}
use fos_mono.Node.{Json, null, bool, num, negative, str, arr, obj, Fields, end, field, NodeContent}

-- A JavaScript value in a condition.
abbrev pub truthy : Json → Bool
truthy null = false
truthy (bool b) = b
truthy (num zero) = false
truthy (num (suc n)) = true
truthy (negative n) = true
truthy (str s) = not (s == "")
truthy (arr xs) = true
truthy (obj fs) = true

abbrev pub is_set : Option Json → Bool
is_set none = false
is_set (some v) = truthy v

abbrev pub find_field : String → Fields → Option Json
find_field k end = none
find_field k (field j v fs) = if j == k then some v else find_field k fs

-- `value?.key`
abbrev pub member : String → Option Json → Option Json
member k (some (obj fs)) = find_field k fs
member k _ = none

abbrev pub text_of_json : Option Json → Option String
text_of_json (some (str s)) = some s
text_of_json _ = none

abbrev pub set_field : String → Json → Fields → Fields
set_field k v end = field k v end
set_field k v (field j w fs) = if j == k then field j v fs else field j w (set_field k v fs)

-- `{ ...value, key: v }`
abbrev pub with_member : String → Json → Option Json → Json
with_member k v (some (obj fs)) = obj (set_field k v fs)
with_member k v _ = obj (field k v end)

-- An optional text in a condition: the empty text counts as none.
abbrev pub filled : Option String → Option String
filled none = none
filled (some s) = if s == "" then none else some s

abbrev pub is_filled : Option String → Bool
is_filled o = elim (filled o) [ none ↦ false | some _ ↦ true ]

-- `data.key?.name`
abbrev pub text_at : String → String → NodeContent → Option String
text_at key name node = text_of_json (member name (lookup key node.data_fields))

unfoldable pub alias_id_of : NodeContent → Option String
alias_id_of value = text_at "alias" "id" value

abbrev pub with_alias : String → Json
with_alias id = obj (field "id" (str id) end)
