-- ===== src/Store/Tests.antt =====
-- The node table on concrete nodes.
use fos_mono.Common.{
  String, [], ◌∷◌, true, false, ◌≡◌, refl, ◌⊎◌, All, has_key, every, lookup, some, String_discrete,
}
use fos_mono.Node.{NodeContent}
use fos_mono.Cid.{hash_content, verify_cid}
use fos_mono.Store.{
  Table, FosStore, ok, throw, edge_to_missing_node, store_of, put_node, acceptable, import_nodes,
  edge_resolves,
}
use fos_mono.Store.WellFormed.{
  IsWellFormed, IsPut, empty-IsWellFormed, set_key-IsWellFormed, put_node-IsPut,
  store_of-IsWellFormed,
}
use fos_mono.Store.Import.{import_nodes-IsWellFormed, import_nodes-Settled}
use fos_mono.Samples.{sample_digest, leaf, leaf_cid, pair, pair_cid}

abbrev one : FosStore
one = record { table = (leaf_cid, leaf) ∷ []; root_node_id = leaf_cid }

abbrev two : FosStore
two = record one { table = (leaf_cid, leaf) ∷ (pair_cid, pair) ∷ [] }

one-IsWellFormed : IsWellFormed sample_digest one.table
unfolding hash_content
one-IsWellFormed =
    set_key-IsWellFormed sample_digest leaf_cid leaf [] (empty-IsWellFormed sample_digest) refl refl

store_tests :
    (put_node sample_digest one pair ≡ ok (pair_cid, two))
    × (put_node sample_digest (record one { table = [] }) pair
        ≡ throw (edge_to_missing_node leaf_cid))
    × (store_of sample_digest two.table leaf_cid ≡ ok two)
    × (import_nodes sample_digest one ((pair_cid, pair) ∷ []) ≡ (two, pair_cid ∷ []))
unfolding put_node store_of import_nodes verify_cid String_discrete
store_tests = (refl, refl, refl, refl)

-- Nodes are accepted in whatever order they come, and a node of another id is not.
import_order :
    import_nodes sample_digest
      (record one { table = [] })
      ((pair_cid, pair) ∷ ("v0.0.6-1", leaf) ∷ (leaf_cid, leaf) ∷ [])
    ≡ (two, leaf_cid ∷ pair_cid ∷ [])
unfolding import_nodes verify_cid String_discrete
import_order = refl

put_node-IsPut_example :
    (next : FosStore) × (put_node sample_digest one pair
      ≡ ok (hash_content sample_digest pair, next))
    × IsPut sample_digest one pair (hash_content sample_digest pair) next
unfolding String_discrete
put_node-IsPut_example = put_node-IsPut sample_digest one pair one-IsWellFormed refl

store_of-IsWellFormed_example :
    IsWellFormed sample_digest two.table
    × (has_key leaf_cid two.table ≡ true)
    × (two.root_node_id ≡ leaf_cid)
store_of-IsWellFormed_example =
    store_of-IsWellFormed sample_digest two.table leaf_cid two store_tests.2

import_nodes-IsWellFormed_example :
    IsWellFormed sample_digest (import_nodes sample_digest one ((pair_cid, pair) ∷ [])).0.table
    × ((c : String) (node : NodeContent)
        → lookup c one.table ≡ some node
        → lookup c (import_nodes sample_digest one ((pair_cid, pair) ∷ [])).0.table ≡ some node)
import_nodes-IsWellFormed_example =
    import_nodes-IsWellFormed sample_digest one ((pair_cid, pair) ∷ []) one-IsWellFormed

abbrev sent : Table
sent = (pair_cid, pair) ∷ []

import_nodes-Settled_example :
    All
      (λ e.
        acceptable sample_digest one.table e ≡ true
        → (has_key e.0 (import_nodes sample_digest one sent).0.table ≡ true)
          ⊎ (every (edge_resolves (import_nodes sample_digest one sent).0.table) e.1.children
              ≡ false))
      sent
import_nodes-Settled_example = import_nodes-Settled sample_digest one sent
