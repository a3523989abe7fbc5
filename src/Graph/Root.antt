-- ===== src/Graph/Root.antt =====
-- The root alias and its history, shared/sync/graph.ts lines 1155-1170 (`rootTargetCid`,
-- `rootStoredTarget`, `rootIsAlias`), 1253-1270 (`commitRoot`) and 2071-2081 (`linkHistory`).
pub mod History
pub mod Commit
use fos_mono.Common.{
  ℕ, zero, suc, String, Bool, true, false, ◌&&◌, not, List, [], ◌∷◌, ◌++◌, Option, none, some, ◌==◌,
  lookup, has_key, find, if◌then◌else◌,
}
use fos_mono.Node.{Json, num, obj, Fields, end, field, Edge, NodeContent}
use fos_mono.Store.{Table, FosStore, Result, ok, content, put_node, ◌>>=◌, ◌>>◌}
use fos_mono.Graph.Data.{is_set, filled, is_filled, with_alias}
use fos_mono.Graph.Primitive.{primitive_cid}
use fos_mono.Graph.Refs.{pointed, any_edge, left_is, is_prev_edge}
use fos_mono.Graph.Choice.{or_text}

-- What commitRoot is given.
pub record RootChange : Type 0 where
  pub target : String
  pub now : ℕ
  pub merge_source : Option String
  pub force : Bool
  -- `shippedRef` of the document root type, and `newId()`
  pub document_root : String
  pub new_id : String

module _ (sha3 : Fields × List Edge → String) where
  unfoldable pub root_target_cid : FosStore → Result String
  unfolding content
  root_target_cid store = do
    root ← content store store.root_node_id
    ok (or_text (pointed sha3 "target" root.children) store.root_node_id)

  unfoldable pub root_stored_target : FosStore → Result String
  unfolding content
  root_stored_target store = do
    root ← content store store.root_node_id
    ok (or_text (pointed sha3 "target" root.children) store.root_node_id)

  unfoldable pub root_is_alias : FosStore → Result Bool
  unfolding content
  root_is_alias store = do
    root ← content store store.root_node_id
    ok (any_edge (left_is sha3 "target") root.children)

  -- The rows whose node has data of a link between nodes.
  unfoldable pub node_links : FosStore → List Edge → Result (List Edge)
  unfolding content
  node_links store [] = ok []
  node_links store ((i, t) ∷ edges) = do
    node ← content store t
    rest ← node_links store edges
    ok (if is_set (lookup "nodeLink" node.data_fields) then (i, t) ∷ rest else rest)

  abbrev pub merge_edges : Option String → List Edge
  merge_edges none = []
  merge_edges (some source) = (primitive_cid sha3 "mergeSource", source) ∷ []

  abbrev pub or_alias : Option Json → String → Json
  or_alias none id = with_alias id
  or_alias (some alias) id = alias

  -- The node of the next root.
  unfoldable pub next_root : FosStore → RootChange → NodeContent → Bool → List Edge → NodeContent
  next_root store c previous alias links =
      let instruction = if alias then pointed sha3 "instruction" previous.children else none in
      record {
        data_fields =
            ("alias", or_alias (lookup "alias" previous.data_fields) c.new_id)
            ∷ ("updated", obj (field "time" (num c.now) end))
            ∷ [];
        children =
            (primitive_cid sha3 "target", c.target)
            ∷ (primitive_cid sha3 "instruction", or_text instruction c.document_root)
            ∷ (primitive_cid sha3 "previous", store.root_node_id)
            ∷ (merge_edges (filled c.merge_source) ++ links);
      }

  abbrev pub is_unchanged : RootChange → String → Bool → Bool
  is_unchanged c stored alias =
      c.target == stored && (alias && (not (is_filled c.merge_source) && not c.force))

  unfoldable pub commit_root : FosStore → RootChange → Result FosStore
  unfolding root_stored_target root_is_alias node_links next_root content put_node
  commit_root store c = do
    stored ← root_stored_target store
    alias ← root_is_alias store
    if is_unchanged c stored alias then ok store else (do
      previous ← content store store.root_node_id
      links ← node_links store previous.children
      r ← put_node sha3 store (next_root store c previous alias links)
      ok (record r.1 { root_node_id = r.0 }))

  -- `linkHistory` from an id, at most as many versions as the limit.
  unfoldable pub link_history : FosStore → ℕ → String → Result (List String)
  unfolding content
  link_history store zero cid = ok []
  link_history store (suc limit) cid = if cid == "" then ok [] else (do
    value ← content store cid
    elim (filled (pointed sha3 "previous" value.children)) [
      | none ↦ ok []
      | some p ↦
          if has_key p store.table
          then (do rest ← link_history store limit p; ok (p ∷ rest))
          else ok []
    ])
