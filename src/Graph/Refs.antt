-- ===== src/Graph/Refs.antt =====
-- Mutable references and edges, shared/sync/graph.ts lines 81-106, 170-174 and 817-834.
use fos_mono.Common.{
  String, Bool, true, false, ◌&&◌, ◌||◌, not, List, [], ◌∷◌, ◌++◌, Option, none, some, ◌==◌, find,
  opt_eq, lookup,
}
use fos_mono.Node.{Fields, Data, Edge, NodeContent}
use fos_mono.Store.{FosStore, Result, ok, put_node, ◌>>=◌}
use fos_mono.Graph.Data.{is_set, text_at, filled, is_filled, alias_id_of}
use fos_mono.Graph.Primitive.{primitive_cid}

-- `some` of an array of edges.
abbrev pub any_edge : (Edge → Bool) → List Edge → Bool
any_edge test [] = false
any_edge test (e ∷ edges) = test e || any_edge test edges

abbrev pub target_of : Option Edge → Option String
target_of none = none
target_of (some (i, t)) = some t

-- `isHandle`
unfoldable pub is_handle : NodeContent → Bool
is_handle value = is_set (lookup "ref" value.data_fields)

unfoldable pub is_peer_reference : NodeContent → Bool
unfolding alias_id_of
is_peer_reference node =
    is_filled (text_at "ref" "peer" node)
    && (is_filled (text_at "ref" "version" node)
        && opt_eq (text_at "ref" "id" node) (alias_id_of node))

unfoldable pub identity_cid : Edge → String
identity_cid (left, right) = right

unfoldable pub with_identity : Edge → String → Edge
with_identity (left, right) cid = (left, cid)

unfoldable pub same_shape : Edge → Edge → Bool
same_shape (a, b) (c, d) = a == c

module _ (sha3 : Fields × List Edge → String) where
  -- The first edge whose left is the primitive of this name, and what it points to.
  abbrev pub left_is : String → Edge → Bool
  left_is name e = e.0 == primitive_cid sha3 name

  abbrev pub pointed : String → List Edge → Option String
  pointed name edges = target_of (find (left_is name) edges)

  unfoldable pub is_ref_node : NodeContent → Bool
  is_ref_node value = any_edge (λ e. left_is "target" e || left_is "alias" e) value.children

  unfoldable pub ref_value_cid : NodeContent → Option String
  ref_value_cid value = pointed "target" value.children

  unfoldable pub is_choice_edge : Edge → Bool
  is_choice_edge edge = left_is "choice" edge

  unfoldable pub is_peer_edge : Edge → Bool
  is_peer_edge edge = left_is "member" edge

  unfoldable pub is_prev_edge : Edge → Bool
  is_prev_edge edge = left_is "previous" edge

  unfoldable pub is_proposal_edge : Edge → Bool
  is_proposal_edge edge = left_is "proposal" edge

  unfoldable pub is_bookkeeping_edge : Edge → Bool
  unfolding is_prev_edge is_proposal_edge is_peer_edge
  is_bookkeeping_edge edge = is_prev_edge edge || (is_proposal_edge edge || is_peer_edge edge)

  unfoldable pub is_branch_choice : NodeContent → Bool
  is_branch_choice node =
      is_set (lookup "option" node.data_fields)
      && (not (is_set (lookup "conflict" node.data_fields))
          && any_edge (left_is "notSelected") node.children)

  -- `isLink`
  unfoldable pub is_link : NodeContent → Bool
  unfolding is_handle is_ref_node
  is_link value = not (is_handle value) && is_ref_node value

  abbrev pub empty_node : NodeContent
  empty_node = record { data_fields = []; children = [] }

  abbrev pub target_edges : Option String → List Edge
  target_edges none = []
  target_edges (some cid) = (primitive_cid sha3 "target", cid) ∷ []

  -- `refNodeContent`: the node, and the store in which the empty node stands.
  unfoldable pub ref_node_content :
      FosStore → Data → Option String → List Edge → Result (NodeContent × FosStore)
  unfolding put_node
  ref_node_content store data_fields value_cid bookkeeping = do
    r ← put_node sha3 store empty_node
    ok (
      record {
        data_fields = data_fields;
        children =
            target_edges (filled value_cid) ++ ((primitive_cid sha3 "alias", r.0) ∷ bookkeeping);
      },
      r.1,
    )

abbrev has_no_rows : List Edge → Bool
has_no_rows [] = true
has_no_rows (e ∷ edges) = false

-- A membership: its left is the node of a peer.
unfoldable pub is_member_edge : FosStore → Edge → Bool
is_member_edge store (left, right) = elim (lookup left store.table) [
  | none ↦ false
  | some node ↦
      is_set (lookup "peerId" node.data_fields)
      && (has_no_rows node.children
          && (is_set (lookup "alias" node.data_fields)
              && not (is_set (lookup "ref" node.data_fields))))
]
