-- ===== src/Merge/Refs.antt =====
-- The merge of two references, by value, bookkeeping and history, shared/sync/merge.ts lines 122-172.
use fos_mono.Common.{
  String, Bool, true, false, ◌&&◌, ◌||◌, not, List, [], ◌∷◌, ◌++◌, Option, none, some, ◌==◌, opt_eq,
  map, select, contains, lookup, if◌then◌else◌,
}
use fos_mono.Node.{Fields, Data, Edge, NodeContent}
use fos_mono.Store.{FosStore, Result, ok, content, put_node, ◌>>=◌}
use fos_mono.Graph.Data.{is_set, filled, is_filled}
use fos_mono.Graph.Refs.{
  is_handle, is_ref_node, ref_value_cid, is_prev_edge, is_branch_choice, ref_node_content,
}
use fos_mono.Graph.Primitive.{primitive_cid}
use fos_mono.Graph.Choice.{sort_cids, read_choice}
use fos_mono.Graph.Branch.{named, edge_of}
use fos_mono.Graph.Link.{
  Host, is_some, strip_link, make_link, bookkeeping_of, put_ref_value_branches,
}
use fos_mono.Merge.{merge_data}
use fos_mono.Merge.Children.{Labels, Outcome, node, conflict, Merging, Merger, merge_children}

abbrev pub left_of_edge : Option Edge → Option String
left_of_edge none = none
left_of_edge (some e) = some e.0

-- A reference: its id and its node.
pub record Ref : Type 0 where
  pub cid : String
  pub node : NodeContent

abbrev pub data_of : Option Ref → Data
data_of none = []
data_of (some r) = r.node.data_fields

module _ (sha3 : Fields × List Edge → String) (h : Host) where
  abbrev pub is_ref : NodeContent → Bool
  is_ref value = is_ref_node sha3 value && not (is_handle value)

  -- `refOf`: the version itself, or a link made of it.
  unfoldable pub ref_of : Merging → String → NodeContent → Result (Ref × Merging)
  unfolding is_ref_node is_handle make_link put_node
  ref_of m cid value = if is_ref value then ok (record { cid = cid; node = value }, m) else (do
    link ← make_link sha3 h m.store value 0
    r ← put_node sha3 link.1 link.0
    ok (record { cid = r.0; node = link.0 }, record m { store = r.1 }))

  abbrev pub value_of_ref : Option Ref → Option String
  value_of_ref none = none
  value_of_ref (some r) = ref_value_cid sha3 r.node

  -- The value of a reference, or the node's own content.
  unfoldable pub value_or_stripped : Merging → Ref → NodeContent → Result (String × Merging)
  unfolding ref_value_cid strip_link put_node
  value_or_stripped m r value = elim (ref_value_cid sha3 r.node) [
    | some cid ↦ ok (cid, m)
    | none ↦ (do
      put ← put_node sha3 m.store (strip_link sha3 m.store value)
      ok (put.0, record m { store = put.1 }))
  ]

  -- The value that a choice of the base's values has by default.
  unfoldable pub default_value : FosStore → Option String → Result (Option String)
  unfolding content is_branch_choice read_choice
  default_value store none = ok none
  default_value store (some bv) = do
    value ← content store bv
    if is_branch_choice sha3 value
        then (do
          choice ← read_choice sha3 store bv
          ok (left_of_edge (edge_of (named choice.default_name choice.options))))
        else ok (some bv)

  abbrev pub text_list : Option String → List String
  text_list o = elim (filled o) [ none ↦ [] | some s ↦ s ∷ [] ]

  -- The value of a typed reference: the one that was changed, else a choice of values.
  unfoldable pub typed_value :
      Merging
      → NodeContent
      → Option String
      → Option String
      → Option String
      → Result (Option String × Merging)
  unfolding default_value put_ref_value_branches sort_cids
  typed_value m ref bv ov tv =
      if opt_eq ov tv || opt_eq tv bv then ok (ov, m) else if opt_eq ov bv then ok (tv, m) else (do
        default ← default_value m.store (filled bv)
        r ←
            put_ref_value_branches sha3 m.store ref
              (bv ∷ map some (sort_cids (text_list ov ++ text_list tv))) "main"
              (elim (filled bv) [ none ↦ bv | some _ ↦ default ])
        ok (some r.0, record m { store = r.1 }))

  abbrev pub is_typed : Bool → Ref → Ref → Option Ref → Bool
  is_typed in_field o t b =
      in_field
      || (is_set (lookup "name" o.node.data_fields)
          || (is_set (lookup "name" t.node.data_fields)
              || (is_some b && not (is_filled (value_of_ref b)))))

  abbrev pub clashes : Option String → Option String → Option String → Bool
  clashes bv ov tv = not (opt_eq ov tv) && (not (opt_eq ov bv) && not (opt_eq tv bv))

  -- The merged value of two references; the outer `none` is a conflict.
  unfoldable pub merge_value :
      Merger
      → Merging
      → Bool
      → Bool
      → Option Ref
      → Ref
      → Ref
      → String
      → String
      → Result (Option (Option String) × Merging)
  unfolding typed_value
  merge_value merge m is_top in_field b o t ours_value theirs_value =
      if is_typed in_field o t b
      then (do
        v ← typed_value m o.node (value_of_ref b) (value_of_ref (some o)) (value_of_ref (some t))
        ok (some v.0, v.1))
      else (do
        r ← merge m (value_of_ref b) ours_value theirs_value true false
        ok (
          elim r.0 [
            | node cid ↦ some (some cid)
            | conflict ↦ if is_top then some (some ours_value) else none
          ],
          r.1,
        ))

  abbrev pub prev_edge : String → Edge
  prev_edge cid = (primitive_cid sha3 "previous", cid)

  abbrev pub prev_edges : Ref → List Edge
  prev_edges r = select (λ e. is_prev_edge sha3 e) r.node.children

  abbrev pub targets : List Edge → List String
  targets [] = []
  targets (e ∷ edges) = e.1 ∷ targets edges

  -- The history of a merged reference: both parents when the value is new, else the histories joined.
  abbrev pub merged_history : Bool → Ref → Ref → List Edge
  merged_history changed o t =
      if changed
      then if o.cid == t.cid
        then prev_edge o.cid ∷ []
        else map prev_edge (sort_cids (o.cid ∷ t.cid ∷ []))
      else prev_edges o ++ select (λ e. not (contains e.1 (targets (prev_edges o)))) (prev_edges t)

  unfoldable pub book_of : Merging → Option Ref → Result (List Edge)
  unfolding bookkeeping_of is_prev_edge
  book_of m none = ok []
  book_of m (some r) = do
    edges ← bookkeeping_of sha3 h m.store r.node
    ok (select (λ e. not (is_prev_edge sha3 e)) edges)

  abbrev pub or_list : Option (List Edge) → List Edge → List Edge
  or_list none edges = edges
  or_list (some found) edges = found

  abbrev pub or_data : Option Data → Data → Data
  or_data none d = d
  or_data (some found) d = found

  -- Two references by value, once both are references.
  unfoldable pub merge_refs :
      Merger
      → Labels
      → Merging
      → Bool
      → Bool
      → Option Ref
      → Ref
      → Ref
      → String
      → String
      → Result (Outcome × Merging)
  unfolding merge_value book_of merge_children merge_data ref_node_content put_node
  merge_refs merge labels m is_top in_field b o t ours_value theirs_value =
      if in_field && clashes (value_of_ref b) (value_of_ref (some o)) (value_of_ref (some t))
      then ok (conflict, m)
      else (do
        v ← merge_value merge m is_top in_field b o t ours_value theirs_value
        elim v.0 [
          | none ↦ ok (conflict, v.1)
          | some value ↦ (do
            base_book ← book_of v.1 b
            our_book ← book_of v.1 (some o)
            their_book ← book_of v.1 (some t)
            book ← merge_children sha3 h merge labels v.1 base_book our_book their_book
            let changed =
                not (opt_eq value (some ours_value)) || not (opt_eq value (some theirs_value))
            let rows = or_list book.0 our_book ++ merged_history changed o t
            let merged = merge_data (data_of b) o.node.data_fields t.node.data_fields true
            link ← ref_node_content sha3 book.1.store (or_data merged o.node.data_fields) value rows
            put ← put_node sha3 link.1 link.0
            ok (node put.0, record book.1 { store = put.1 }))
        ])

  unfoldable pub ref_of_base : Merging → Option String → NodeContent → Result (Option Ref × Merging)
  unfolding ref_of
  ref_of_base m none value = ok (none, m)
  ref_of_base m (some cid) value = do r ← ref_of m cid value; ok (some r.0, r.1)

  -- One side is a reference.
  unfoldable pub merge_as_refs :
      Merger
      → Labels
      → Merging
      → Option String
      → String
      → String
      → NodeContent
      → NodeContent
      → NodeContent
      → Bool
      → Bool
      → Result (Outcome × Merging)
  unfolding ref_of ref_of_base value_or_stripped merge_refs
  merge_as_refs merge labels m base ours theirs base_node our_node their_node is_top in_field = do
    o ← ref_of m ours our_node
    t ← ref_of o.1 theirs their_node
    b ← ref_of_base t.1 base base_node
    our_value ← value_or_stripped b.1 o.0 our_node
    their_value ← value_or_stripped our_value.1 t.0 their_node
    merge_refs merge labels their_value.1 is_top in_field b.0 o.0 t.0 our_value.0 their_value.0
