-- ===== src/Merge/Resolve.antt =====
-- The resolution of a choice, `resolveChoiceIn` of shared/sync/merge.ts lines 330-357: the choice's edge
-- gives way to that of the option that is picked, with its node marked as changed now, or to none.
use fos_mono.Common.{
  ℕ, zero, suc, String, List, [], ◌∷◌, ◌++◌, Option, none, some, ◌==◌, select, set_key,
  if◌then◌else◌,
}
use fos_mono.Node.{num, obj, Fields, end, field, Edge, NodeContent}
use fos_mono.Store.{FosStore, Result, ok, throw, no_option, content, put_node, ◌>>=◌}
use fos_mono.Graph.Data.{filled}
use fos_mono.Graph.Primitive.{primitive_cid}
use fos_mono.Graph.Refs.{left_is, is_choice_edge, identity_cid, with_identity}
use fos_mono.Graph.Choice.{last_target, both}
use fos_mono.Graph.Branch.{Branches}
use fos_mono.Graph.Edges.{alias_key, edge_key, find_edge, edge_list}

abbrev pub nth_edge : ℕ → List Edge → Option Edge
nth_edge n [] = none
nth_edge zero (e ∷ edges) = some e
nth_edge (suc n) (e ∷ edges) = nth_edge n edges

module _ (sha3 : Fields × List Edge → String) (b : Branches) where
  -- The edge of the option that is picked; none is a deletion.
  unfoldable pub picked_edge : FosStore → String → Edge → ℕ → Result (Option Edge)
  unfolding content
  picked_edge store choice_id edge pick = do
    choice ← content store edge.1
    elim (nth_edge pick (select (λ e. left_is sha3 "notSelected" e) choice.children)) [
      | none ↦ throw (no_option choice_id pick)
      | some alternative ↦ (do
        pointer ← content store alternative.1
        ok (
            both (filled (last_target (primitive_cid sha3 "instruction") none pointer.children))
              (filled (last_target (primitive_cid sha3 "target") none pointer.children))))
    ]

  -- The edge around its node with the time of the change.
  unfoldable pub touch : FosStore → Edge → ℕ → Result (Edge × FosStore)
  unfolding identity_cid with_identity content put_node
  touch store picked now = do
    value ← content store (identity_cid picked)
    r ← put_node sha3 store (record value {
      data_fields = set_key "updated" (obj (field "time" (num now) end)) value.data_fields;
    })
    ok (with_identity picked r.0, r.1)

  -- What stands in the place of the choice.
  unfoldable pub resolution :
      FosStore → String → Edge → Option ℕ → ℕ → Result (Option Edge × FosStore)
  unfolding picked_edge touch
  resolution store choice_id edge none now = ok (none, store)
  resolution store choice_id edge (some pick) now = do
    picked ← picked_edge store choice_id edge pick
    elim picked [
      | none ↦ ok (none, store)
      | some e ↦ (do r ← touch store e now; ok (some r.0, r.1))
    ]

  -- The first edge of the key is replaced.
  unfoldable pub replace_first : FosStore → String → Option Edge → List Edge → Result (List Edge)
  unfolding edge_key
  replace_first store key edge [] = ok []
  replace_first store key edge (e ∷ edges) = do
    k ← edge_key sha3 b store e
    if k == key
        then ok (edge_list edge ++ edges)
        else (do rest ← replace_first store key edge edges; ok (e ∷ rest))

  unfoldable pub resolve_choice_in :
      FosStore → NodeContent → String → Option ℕ → ℕ → Result (NodeContent × FosStore)
  unfolding find_edge is_choice_edge resolution replace_first
  resolve_choice_in store value choice_id pick now = do
    found ← find_edge sha3 b store value (alias_key choice_id)
    elim found [
      | none ↦ ok (value, store)
      | some edge ↦
          if is_choice_edge sha3 edge
          then (do
            r ← resolution store choice_id edge pick now
            children ← replace_first store (alias_key choice_id) r.0 value.children
            ok (record value { children = children }, r.1))
          else ok (value, store)
    ]
