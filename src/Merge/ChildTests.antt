-- ===== src/Merge/ChildTests.antt =====
-- The merge of children and of nodes on concrete stores.
use fos_mono.Common.{
  ◌||◌, String, List, [], ◌∷◌, ◌++◌, none, some, ◌≡◌, refl, has_key, contains, String_discrete,
}
use fos_mono.Node.{Edge, NodeContent, insert_field, str}
use fos_mono.Cid.{hash_content}
use fos_mono.Store.{FosStore, ok}
use fos_mono.Graph.Data.{with_alias}
use fos_mono.Graph.Primitive.{primitive_cid}
use fos_mono.Graph.Link.{Host}
use fos_mono.Graph.Tests.{entries, primitives, store_of_table, no_selection}
use fos_mono.Merge.{ordered_keys}
use fos_mono.Merge.Order.{IsDistinct}
use fos_mono.Merge.Children.{Labels, Merging, index_edges, merge_children}
use fos_mono.Merge.Index.{EdgeIndex, edges_of, edges_at}
use fos_mono.Merge.Sides.{merge_children-ours, merge_children-theirs}
use fos_mono.Merge.Nodes.{merge_node, merge_nodes}
use fos_mono.Samples.{text_digest, leaf}

abbrev host : Host
host = record { branches = no_selection; reference_type = none; new_id = "new" }

abbrev sides : Labels
sides = record { ours = "us"; theirs = "them" }

abbrev task : String → String → NodeContent
task id name = record {
  data_fields = ("alias", with_alias id) ∷ ("name", str name) ∷ [];
  children = [];
}

abbrev row : NodeContent → Edge
row v = (hash_content text_digest leaf, hash_content text_digest v)

abbrev tree : List Edge → NodeContent
tree rows = record { data_fields = ("alias", with_alias "top") ∷ []; children = rows }

abbrev base_rows : List Edge
base_rows = row (task "1" "one") ∷ []

abbrev our_rows : List Edge
our_rows = row (task "1" "uno") ∷ row (task "2" "two") ∷ []

abbrev their_rows : List Edge
their_rows = row (task "3" "three") ∷ row (task "1" "one") ∷ []

abbrev before : FosStore
before =
    store_of_table
      (primitives []
        ++ entries (
            leaf
            ∷ task "1" "one"
            ∷ task "1" "uno"
            ∷ task "2" "two"
            ∷ task "3" "three"
            ∷ tree base_rows
            ∷ tree our_rows
            ∷ tree their_rows
            ∷ []))
      (hash_content text_digest leaf)

abbrev start : Merging
start = record { store = before; new_choice_cids = [] }

abbrev base_index : EdgeIndex
base_index = ("a:1", row (task "1" "one")) ∷ []

abbrev our_index : EdgeIndex
our_index = ("a:1", row (task "1" "uno")) ∷ ("a:2", row (task "2" "two")) ∷ []

indexed :
    (index_edges text_digest host before base_rows [] ≡ ok base_index)
    × (index_edges text_digest host before our_rows [] ≡ ok our_index)
unfolding index_edges hash_content primitive_cid String_discrete insert_field text_digest
indexed = (refl, refl)

merge_children-ours_example :
    merge_children text_digest host
      (merge_node text_digest host sides 5)
      sides
      start
      base_rows
      our_rows
      base_rows
    ≡ ok (some (edges_of our_index), start)
merge_children-ours_example =
    merge_children-ours text_digest host (merge_node text_digest host sides 5) sides start base_rows
      our_rows base_rows base_index our_index base_index indexed.0 indexed.1 indexed.0 (λ k. refl)

abbrev merged_order : List String
merged_order = ordered_keys ("a:1" ∷ []) ("a:1" ∷ "a:2" ∷ []) ("a:1" ∷ [])

merge_children-theirs_example :
    (merge_children text_digest host
        (merge_node text_digest host sides 5)
        sides
        start
        base_rows
        base_rows
        our_rows
      ≡ ok (some (edges_at our_index merged_order), start))
    × IsDistinct merged_order
    × ((k : String)
        → contains k merged_order
          ≡ (has_key k base_index || (has_key k our_index || has_key k base_index)))
merge_children-theirs_example =
    merge_children-theirs text_digest host (merge_node text_digest host sides 5) sides start
      base_rows base_rows our_rows base_index base_index our_index indexed.0 indexed.0 indexed.1
      (λ k. refl)

-- Both sides changed other rows: the merged node has all changes, and no choice is made.
abbrev merged_tree : NodeContent
merged_tree = tree (row (task "3" "three") ∷ our_rows)

merge_test :
    (merge_nodes text_digest host sides 5 before
      (some (hash_content text_digest (tree base_rows)))
      (hash_content text_digest (tree our_rows))
      (hash_content text_digest (tree their_rows)))
    ≡ ok (record {
      cid = hash_content text_digest merged_tree;
      new_choice_cids = [];
      store = record before { table = before.table ++ entries (merged_tree ∷ []) };
    })
unfolding merge_nodes hash_content primitive_cid String_discrete insert_field text_digest
merge_test = refl
