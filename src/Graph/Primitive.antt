-- ===== src/Graph/Primitive.antt =====
-- The primitives, shared/sync/primitives.ts (`primitive`, `primitiveName`, lines 23-41): nodes
-- `{ ["primitive", "<name>"] }`, which the other helpers know by their ids.
use fos_mono.Common.{
  String, true, List, [], ◌∷◌, Option, Option-cases, none, some, ◌≡◌, refl, inl, inr, arith, lookup,
  has_key, opt_eq, if◌then◌else◌,
}
use fos_mono.Node.{Json, str, obj, Fields, end, field, Data, Edge, NodeContent}
use fos_mono.Cid.{hash_content}
use fos_mono.Store.{FosStore, Result, ok, put_node, ◌>>=◌}
use fos_mono.Store.WellFormed.{IsWellFormed, put_node-IsPut}
use fos_mono.Graph.Data.{member, text_of_json}

-- A text leaf, `text` of primitives.ts and `textValue` of fields.ts
abbrev pub text_node : String → NodeContent
text_node value = record {
  data_fields = ("scalar", obj (field "type" (str "text") (field "value" (str value) end))) ∷ [];
  children = [];
}

module _ (sha3 : Fields × List Edge → String) where
  abbrev pub primitive_node : String → NodeContent
  primitive_node name = record {
    data_fields = [];
    children = (hash_content sha3 (text_node "primitive"), hash_content sha3 (text_node name)) ∷ [];
  }

  -- The id that `primitive` gives.
  unfoldable pub primitive_cid : String → String
  primitive_cid name = hash_content sha3 (primitive_node name)

  -- The cache by store only saves the insertions when the node is there.
  unfoldable pub primitive : FosStore → String → Result (String × FosStore)
  unfolding primitive_cid put_node
  primitive store name =
      if has_key (primitive_cid name) store.table then ok (primitive_cid name, store) else (do
        marker ← put_node sha3 store (text_node "primitive")
        label ← put_node sha3 marker.1 (text_node name)
        put_node sha3 label.1 (record { data_fields = []; children = (marker.0, label.0) ∷ [] }))

  -- On a well-formed store `primitive` always returns: the id of the primitive of that name, whatever
  -- the store holds, with a well-formed store that has a node of this id and every earlier node
  -- unchanged; a second call changes nothing.
  pub primitive_lem :
      (store : FosStore) (name : String)
      → IsWellFormed sha3 store.table
      → (next : FosStore) × (primitive store name ≡ ok (primitive_cid name, next))
        × IsWellFormed sha3 next.table
        × (has_key (primitive_cid name) next.table ≡ true)
        × ((c : String) (v : NodeContent)
            → lookup c store.table ≡ some v
            → lookup c next.table ≡ some v)
        × (primitive next name ≡ ok (primitive_cid name, next))
  unfolding primitive primitive_cid
  primitive_lem store name w = elim (Option-cases (lookup (primitive_cid name) store.table)) [
    | inr (v, l) ↦ (store, ground arith, w, ground arith, λ c v h. h, ground arith)
    | inl l ↦
        let (one, a, x) = put_node-IsPut sha3 store (text_node "primitive") w refl in
        let (two, b, y) = put_node-IsPut sha3 one (text_node name) x.valid refl in
        let (m, k, _) = x.stored in
        let (n, j, _) = y.stored in
        let (three, c, z) =
          put_node-IsPut sha3 two (primitive_node name) y.valid (ground (arith, y.kept _ m k)) in
        let (p, i, _) = z.stored in
        (
          three,
          ground (arith, a, b, c),
          z.valid,
          ground arith,
          λ d v h. z.kept d v (y.kept d v (x.kept d v h)),
          ground arith,
        )
  ]

abbrev scalar_of : FosStore → String → Option Json
scalar_of store cid = elim (lookup cid store.table) [
  | none ↦ none
  | some node ↦ lookup "scalar" node.data_fields
]

-- The last line of `primitiveName`.
unfoldable pub name_of_scalars : Option Json → Option Json → Option String
name_of_scalars marker name =
    if opt_eq (text_of_json (member "value" marker)) (some "primitive")
    then if opt_eq (text_of_json (member "type" name)) (some "text")
      then text_of_json (member "value" name)
      else none
    else none

-- A node with no data and one row.
unfoldable pub name_of_rows : FosStore → Data → List Edge → Option String
unfolding name_of_scalars
name_of_rows store [] ((left, right) ∷ []) =
    name_of_scalars (scalar_of store left) (scalar_of store right)
name_of_rows store _ _ = none

-- `primitiveName`; `none` is null.
unfoldable pub primitive_name : FosStore → String → Option String
unfolding name_of_rows
primitive_name store cid = elim (lookup cid store.table) [
  | none ↦ none
  | some node ↦ name_of_rows store node.data_fields node.children
]
