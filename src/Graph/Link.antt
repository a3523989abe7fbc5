-- ===== src/Graph/Link.antt =====
-- Link nodes and rows, shared/sync/graph.ts lines 117-137 (`putRefValueBranches`), 464-497
-- (`rowTypeOf`, `isRowEdge`), 2035-2061 (`stripLink`, `bookkeepingOf`, `makeLink`) and 2214-2216. The
-- type that the library in scope calls Reference, and the id that `newId` makes, are arguments.
use Prim.Native.String
use fos_mono.Common.{
  ℕ, zero, suc, String, Bool, true, false, ◌&&◌, ◌||◌, not, List, [], ◌∷◌, ◌++◌, Option, none, some,
  ◌==◌, opt_eq, contains, select, find, map, length, lookup, has_key, if◌then◌else◌,
}
use fos_mono.Node.{num, obj, Fields, end, field, Data, Edge, NodeContent}
use fos_mono.Store.{FosStore, Result, ok, throw, no_alias, content, put_node, ◌>>=◌}
use fos_mono.Graph.Data.{is_set, filled, with_alias, alias_id_of}
use fos_mono.Graph.Primitive.{primitive_cid, primitive_name}
use fos_mono.Graph.Refs.{
  left_is, is_handle, is_peer_reference, is_ref_node, ref_value_cid, is_choice_edge,
  is_bookkeeping_edge, is_branch_choice, is_member_edge, empty_node, ref_node_content,
}
use fos_mono.Graph.Choice.{ChoiceOption, or_text, read_choice}
use fos_mono.Graph.Branch.{Branches, branch_edge, put_branches, or_else, peer_of, edge_of}
use fos_mono.Graph.Root.{or_alias}

-- What the functions are given besides the store.
pub record Host : Type 0 where
  pub branches : Branches
  pub reference_type : Option String
  pub new_id : String

abbrev pub names_of_node : NodeContent → Data
names_of_node node = elim (lookup "name" node.data_fields) [
  | none ↦ []
  | some v ↦ if is_set (some v) then ("name", v) ∷ [] else []
]

abbrev pub first_option : List ChoiceOption → Option ChoiceOption
first_option [] = none
first_option (o ∷ options) = some o

abbrev pub left_of_option : ChoiceOption → Option String
left_of_option o = elim o.edge [ none ↦ none | some e ↦ some e.0 ]

abbrev pub find_left : Option String → List ChoiceOption → Option ChoiceOption
find_left cid options =
    find (λ o. elim (left_of_option o) [ none ↦ false | some l ↦ opt_eq (some l) cid ]) options

abbrev pub is_some {ℓ} : {A : Type ℓ} → Option A → Bool
is_some none = false
is_some (some a) = true

-- `options.length ? ... : baseName`
abbrev pub fresh_name : String → String → Option ChoiceOption → String
fresh_name base_name cid none = base_name
fresh_name base_name cid (some o) = String.◌++◌ "value-" cid

-- `add` of `putRefValueBranches`.
unfoldable pub add_value :
    String → String → String → Option String → List ChoiceOption → List ChoiceOption
add_value base_name incoming cid preferred options =
    let taken = is_some (find (λ o. opt_eq (some o.peer_id) preferred) options) in
    let fresh = fresh_name base_name cid (first_option options) in
    let name = if taken then fresh else or_text (filled preferred) fresh in
    if is_some (find_left (some cid) options)
    then options
    else options
      ++ (record { peer_id = name; edge = some (cid, incoming); base = none; request_merge = none }
          ∷ [])

abbrev pub add_options : String → String → List ChoiceOption → List ChoiceOption → List ChoiceOption
add_options base_name incoming [] options = options
add_options base_name incoming (o ∷ more) options =
    add_options base_name incoming more (elim (left_of_option o) [
      | none ↦ options
      | some cid ↦ add_value base_name incoming cid (some o.peer_id) options
    ])

module _ (sha3 : Fields × List Edge → String) where
  unfoldable pub is_grant_edge : Edge → Bool
  is_grant_edge edge = left_is sha3 "grants" edge || left_is sha3 "accepts" edge

  abbrev pub structural_cids : List String
  structural_cids =
      map (primitive_cid sha3) (
        "target" ∷ "instruction" ∷ "mergeSource" ∷ "base" ∷ "selected" ∷ "notSelected" ∷ "link"
        ∷ [])

  abbrev pub has_identity : NodeContent → Bool
  has_identity node =
      is_set (lookup "alias" node.data_fields) || (is_ref_node sha3 node || is_peer_reference node)

  -- A row whose left is a primitive.
  abbrev pub is_plain_primitive : Edge → NodeContent → Bool
  is_plain_primitive edge node =
      is_bookkeeping_edge sha3 edge
      || (is_grant_edge edge
          || (contains edge.0 structural_cids || not (is_set (lookup "alias" node.data_fields))))

  -- An edge that is no choice.
  unfoldable pub type_of_row : FosStore → Edge → Option String
  unfolding is_grant_edge primitive_name is_bookkeeping_edge is_ref_node is_peer_reference
  type_of_row store edge = elim (lookup edge.1 store.table) [
    | none ↦ none
    | some node ↦
        if not (has_key edge.0 store.table)
        then none
        else if not (has_identity node)
        then none
        else if is_some (primitive_name store edge.0) && is_plain_primitive edge node
        then none
        else some edge.0
  ]

  -- The fuel counts the choices that are passed.
  unfoldable pub row_type_of : Host → FosStore → ℕ → Edge → Result (Option String)
  unfolding is_member_edge is_choice_edge is_peer_reference is_branch_choice branch_edge type_of_row
  row_type_of h store zero edge = ok none
  row_type_of h store (suc fuel) edge =
      if is_member_edge store edge
      then ok none
      else if not (is_choice_edge sha3 edge)
      then ok (type_of_row store edge)
      else elim (lookup edge.1 store.table) [
        | none ↦ ok none
        | some node ↦
            if is_peer_reference node
            then ok h.reference_type
            else if not (is_branch_choice sha3 node)
            then ok none
            else (do
              active ← branch_edge sha3 h.branches store edge.1
              elim active [ none ↦ ok none | some e ↦ row_type_of h store fuel e ])
      ]

  -- A chain of choices passes each node at most once.
  unfoldable pub is_row_edge : Host → FosStore → Edge → Result Bool
  unfolding row_type_of
  is_row_edge h store edge = do
    type_cid ← row_type_of h store (suc (length store.table)) edge
    ok (is_some type_cid)

  unfoldable pub strip_link : FosStore → NodeContent → NodeContent
  unfolding is_ref_node is_handle ref_value_cid is_bookkeeping_edge
  strip_link store value =
      if is_ref_node sha3 value && not (is_handle value)
      then elim (ref_value_cid sha3 value) [
        | none ↦ empty_node sha3
        | some target ↦ elim (lookup target store.table) [
          | none ↦ empty_node sha3
          | some node ↦ node
        ]
      ]
      else record value { children = select (λ e. not (is_bookkeeping_edge sha3 e)) value.children }

  -- The filter of `bookkeepingOf`, whose reads may throw.
  unfoldable pub bookkeeping_edges : Host → FosStore → Bool → List Edge → Result (List Edge)
  unfolding is_bookkeeping_edge is_row_edge is_member_edge
  bookkeeping_edges h store is_ref [] = ok []
  bookkeeping_edges h store is_ref (e ∷ edges) = do
    rest ← bookkeeping_edges h store is_ref edges
    if is_bookkeeping_edge sha3 e
        then ok (e ∷ rest)
        else if is_ref
        then (do
          row ← is_row_edge h store e
          ok (if row || is_member_edge store e then e ∷ rest else rest))
        else ok rest

  unfoldable pub bookkeeping_of : Host → FosStore → NodeContent → Result (List Edge)
  unfolding bookkeeping_edges is_ref_node
  bookkeeping_of h store value = bookkeeping_edges h store (is_ref_node sha3 value) value.children

  unfoldable pub make_link : Host → FosStore → NodeContent → ℕ → Result (NodeContent × FosStore)
  unfolding is_ref_node is_handle strip_link bookkeeping_of ref_node_content put_node
  make_link h store value now =
      if is_ref_node sha3 value && not (is_handle value) then ok (value, store) else (do
        r ← put_node sha3 store (strip_link store value)
        rows ← bookkeeping_of h r.1 value
        ref_node_content sha3 r.1
            (("alias", or_alias sha3 (lookup "alias" value.data_fields) h.new_id)
              ∷ ("updated", obj (field "time" (num now) end))
              ∷ [])
            (some r.0) rows)

  -- The options of a value that is a branch choice of the reference.
  unfoldable pub options_of_value : FosStore → String → String → Result (Option (List ChoiceOption))
  unfolding content is_branch_choice read_choice
  options_of_value store id cid = do
    node ← content store cid
    if is_branch_choice sha3 node
        then (do
          choice ← read_choice sha3 store cid
          ok (if choice.id == id then some choice.options else none))
        else ok none

  -- The options of all values that are such choices.
  unfoldable pub prior_options : FosStore → String → List String → Result (List ChoiceOption)
  unfolding options_of_value
  prior_options store id [] = ok []
  prior_options store id (cid ∷ values) = do
    own ← options_of_value store id cid
    rest ← prior_options store id values
    ok (elim own [ none ↦ rest | some options ↦ options ++ rest ])

  -- The loop over the values; `prior` are the options of all of them.
  unfoldable pub collect_values :
      FosStore
      → String
      → String
      → String
      → List ChoiceOption
      → List String
      → List ChoiceOption
      → Result (List ChoiceOption)
  unfolding options_of_value add_value
  collect_values store id base_name incoming prior [] options = ok options
  collect_values store id base_name incoming prior (cid ∷ values) options = do
    own ← options_of_value store id cid
    collect_values store id base_name incoming prior values (elim own [
      | some more ↦ add_options base_name incoming more options
      | none ↦ add_value base_name incoming cid (peer_of (find_left (some cid) prior)) options
    ])

  abbrev pub present : List (Option String) → List String
  present [] = []
  present (v ∷ values) = elim (filled v) [ none ↦ present values | some s ↦ s ∷ present values ]

  unfoldable pub put_ref_value_branches :
      FosStore
      → NodeContent
      → List (Option String)
      → String
      → Option String
      → Result (String × FosStore)
  unfolding alias_id_of ref_node_content put_node collect_values prior_options put_branches
  put_ref_value_branches store ref values base_name selected_value = elim (alias_id_of ref) [
    | none ↦ throw no_alias
    | some id ↦ (do
      r ← ref_node_content sha3 store (("alias", with_alias id) ∷ names_of_node ref) none []
      incoming ← put_node sha3 r.1 r.0
      prior ← prior_options incoming.1 id (present values)
      options ← collect_values incoming.1 id base_name incoming.0 prior (present values) []
      put_branches sha3 incoming.1 id (edge_of (first_option options)) options (
          or_text
            (or_else (peer_of (find_left selected_value options)) (peer_of (first_option options)))
            base_name))
  ]
