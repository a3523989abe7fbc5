-- ===== src/Graph/Value.antt =====
-- What a row's node stands for and the text it holds, shared/sync/fields.ts lines 15-109 and 178-191.
pub mod Plain
use fos_mono.Common.{
  ℕ, zero, suc, String, Bool, true, false, ◌&&◌, ◌||◌, not, List, [], ◌∷◌, Option, none, some, ◌==◌,
  opt_eq, find, contains, lookup, has_key, if◌then◌else◌,
}
use fos_mono.Node.{Json, num, negative, str, obj, Fields, end, field, Edge, NodeContent}
use fos_mono.Cid.{hash_content}
use fos_mono.Store.{Table, FosStore, Result, ok, throw, no_value, content, put_node, ◌>>=◌, ◌>>◌}
use fos_mono.Graph.Data.{is_set, member, text_of_json, text_at, filled, alias_id_of}
use fos_mono.Graph.Primitive.{primitive_cid, primitive_name, text_node}
use fos_mono.Graph.Refs.{is_branch_choice, is_ref_node, ref_value_cid}
use fos_mono.Graph.Branch.{Branches, selected_branch_value}

unfoldable pub is_leaf_type : FosStore → String → Bool
unfolding primitive_name
is_leaf_type store cid = elim (primitive_name store cid) [
  | none ↦ false
  | some name ↦ contains name ("string" ∷ "number" ∷ "boolean" ∷ [])
]

unfoldable pub type_rows : FosStore → String → List Edge
type_rows store type_cid = elim (lookup type_cid store.table) [
  | none ↦ []
  | some node ↦ node.children
]

abbrev pub scalar_json : NodeContent → Option Json
scalar_json node = member "value" (lookup "scalar" node.data_fields)

-- The text of a text leaf.
abbrev pub scalar_text : NodeContent → Option String
scalar_text node =
    if opt_eq (text_at "scalar" "type" node) (some "text")
    then text_at "scalar" "value" node
    else none

abbrev text_under : FosStore → String → Option String
text_under store cid = elim (lookup cid store.table) [ none ↦ none | some node ↦ scalar_text node ]

-- The first row whose node has a text.
unfoldable pub first_text : FosStore → List Edge → Option String
first_text store [] = none
first_text store ((i, t) ∷ edges) = elim (text_under store t) [
  | some s ↦ some s
  | none ↦ first_text store edges
]

-- A text or a number, of a leaf.
abbrev pub leaf_json : Option Json → Option Json
leaf_json (some (str s)) = some (str s)
leaf_json (some (num n)) = some (num n)
leaf_json (some (negative n)) = some (negative n)
leaf_json _ = none

abbrev leaf_under : FosStore → String → Option Json
leaf_under store cid = elim (lookup cid store.table) [
  | none ↦ none
  | some node ↦ leaf_json (scalar_json node)
]

unfoldable pub first_leaf : FosStore → List Edge → Option Json
first_leaf store [] = none
first_leaf store ((i, t) ∷ edges) = elim (leaf_under store t) [
  | some v ↦ some v
  | none ↦ first_leaf store edges
]

abbrev pub rows_of : Option NodeContent → List Edge
rows_of none = []
rows_of (some node) = node.children

-- The rows with the value at the first row that holds a leaf; none when no row does.
unfoldable pub fill_leaf : FosStore → String → List Edge → Option (List Edge)
unfolding is_leaf_type
fill_leaf store value [] = none
fill_leaf store value ((left, right) ∷ rows) =
    if is_leaf_type store right
    then some ((left, value) ∷ rows)
    else elim (fill_leaf store value rows) [ none ↦ none | some more ↦ some ((left, right) ∷ more) ]

-- A leaf of a text or a number.
abbrev pub leaf_node : Json → NodeContent
leaf_node (str s) = text_node s
leaf_node v = record {
  data_fields = ("scalar", obj (field "type" (str "number") (field "value" v end))) ∷ [];
  children = [];
}

module _ (sha3 : Fields × List Edge → String) where
  unfoldable pub field_ref_id : String → String
  field_ref_id row_field = hash_content sha3 (record {
    data_fields = ("name", obj (field "content" (str "field") end)) ∷ [];
    children = (row_field, row_field) ∷ [];
  })

  unfoldable pub is_field_row : FosStore → Edge → Bool
  unfolding field_ref_id alias_id_of
  is_field_row store edge = elim (lookup edge.1 store.table) [
    | none ↦ false
    | some node ↦ opt_eq (alias_id_of node) (some (field_ref_id edge.0))
  ]

  -- A node of a compiled value has no identity.
  abbrev pub has_alias : FosStore → String → Bool
  has_alias store cid = elim (lookup cid store.table) [
    | none ↦ false
    | some node ↦ is_set (lookup "alias" node.data_fields)
  ]

  unfoldable pub field_edge : FosStore → NodeContent → String → Option Edge
  unfolding is_field_row
  field_edge store value row_field =
      elim (find (λ e. e.0 == row_field && is_field_row store e) value.children) [
        | some e ↦ some e
        | none ↦ find (λ e. e.0 == row_field && not (has_alias store e.1)) value.children
      ]

  -- `valueOf`; the fuel is 33 less the depth.
  unfoldable pub value_of : Branches → FosStore → ℕ → String → Result String
  unfolding is_branch_choice is_ref_node ref_value_cid selected_branch_value primitive_cid
  value_of b store zero cid = ok cid
  value_of b store (suc fuel) cid = elim (lookup cid store.table) [
    | none ↦ ok cid
    | some node ↦
        if is_branch_choice sha3 node
        then (do
          selected ← selected_branch_value sha3 b store cid
          elim (filled selected) [ none ↦ ok cid | some s ↦ value_of b store fuel s ])
        else if is_ref_node sha3 node
        then elim (filled (ref_value_cid sha3 node)) [
          | none ↦ ok (primitive_cid sha3 "void")
          | some t ↦ elim (lookup t store.table) [
            | none ↦ ok t
            | some value ↦ elim (is_branch_choice sha3 value) [
              | true ↦ value_of b store fuel t
              | false ↦ ok t
            ]
          ]
        ]
        else ok cid
  ]

  unfoldable pub leaf_holder : Branches → FosStore → String → Result (Option NodeContent)
  unfolding value_of primitive_name
  leaf_holder b store cid = do
    value ← value_of b store 33 cid
    ok (elim (primitive_name store value) [ none ↦ lookup value store.table | some _ ↦ none ])

  unfoldable pub leaf_value : Branches → FosStore → String → Result (Option Json)
  unfolding leaf_holder first_leaf
  leaf_value b store cid = do node ← leaf_holder b store cid; ok (first_leaf store (rows_of node))

  unfoldable pub leaf_text : Branches → FosStore → String → Result (Option String)
  unfolding leaf_holder first_text
  leaf_text b store cid = do node ← leaf_holder b store cid; ok (first_text store (rows_of node))

  abbrev own_text : Option NodeContent → Option String
  own_text none = none
  own_text (some node) = scalar_text node

  unfoldable pub text_of : Branches → FosStore → String → Result (Option String)
  unfolding leaf_holder leaf_text
  text_of b store cid = do
    node ← leaf_holder b store cid
    elim (own_text node) [ some s ↦ ok (some s) | none ↦ leaf_text b store cid ]

  unfoldable pub field_value : Branches → FosStore → NodeContent → String → Result (Option String)
  unfolding field_edge value_of
  field_value b store value row_field = elim (field_edge store value row_field) [
    | none ↦ ok none
    | some e ↦ (do v ← value_of b store 33 e.1; ok (some v))
  ]

  -- `fieldText` of a text or a number.
  unfoldable pub field_text : FosStore → String → Json → Result (String × FosStore)
  unfolding is_leaf_type type_rows fill_leaf put_node
  field_text store row_field leaf =
      if is_leaf_type store row_field
      then put_node sha3 store (leaf_node leaf)
      else elim (fill_leaf store "" (type_rows store row_field)) [
        | none ↦ throw no_value
        | some _ ↦ (do
          value ← put_node sha3 store (leaf_node leaf)
          elim (fill_leaf store value.0 (type_rows store row_field)) [
            | none ↦ throw no_value
            | some rows ↦ put_node sha3 value.1 (record { data_fields = []; children = rows })
          ])
      ]
