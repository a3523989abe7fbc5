-- ===== src/Merge/Nodes.antt =====
-- The merge of two versions of a node, shared/sync/merge.ts lines 51-180: branch choices by option,
-- references by value, other nodes by data and children.
use fos_mono.Common.{
  ℕ, zero, suc, String, Bool, true, false, ◌&&◌, ◌||◌, not, List, [], Option, none, some, ◌==◌,
  opt_eq, if◌then◌else◌,
}
use fos_mono.Node.{Fields, Edge, NodeContent}
use fos_mono.Store.{FosStore, Result, ok, throw, too_deep, typed_conflict, content, put_node, ◌>>=◌}
use fos_mono.Graph.Data.{filled}
use fos_mono.Graph.Refs.{is_branch_choice, empty_node}
use fos_mono.Graph.Choice.{ChoiceOption, ChoiceRecord, read_choice}
use fos_mono.Graph.Branch.{named, or_else}
use fos_mono.Graph.Link.{Host, first_option}
use fos_mono.Merge.{merge_data}
use fos_mono.Merge.Children.{Labels, Outcome, node, conflict, Merging, Merger, merge_children}
use fos_mono.Merge.Options.{lift, lift_unless, lift_base, merge_branches}
use fos_mono.Merge.Refs.{is_ref, merge_as_refs}

module _ (sha3 : Fields × List Edge → String) (h : Host) where
  -- Data and children.
  unfoldable pub merge_plain :
      Merger
      → Labels
      → Merging
      → NodeContent
      → NodeContent
      → NodeContent
      → Bool
      → Result (Outcome × Merging)
  unfolding merge_data merge_children put_node
  merge_plain merge labels m base_node our_node their_node is_top =
      elim (merge_data base_node.data_fields our_node.data_fields their_node.data_fields is_top) [
        | none ↦ ok (conflict, m)
        | some merged ↦ (do
          r ←
              merge_children sha3 h merge labels m base_node.children our_node.children
                their_node.children
          elim r.0 [
            | none ↦ ok (conflict, r.1)
            | some edges ↦ (do
              put ← put_node sha3 r.1.store (record { data_fields = merged; children = edges })
              ok (node put.0, record r.1 { store = put.1 }))
          ])
      ]

  -- Two versions that are no longer a branch choice on one side only.
  unfoldable pub merge_versions :
      Merger
      → Labels
      → Merging
      → Option String
      → String
      → String
      → NodeContent
      → NodeContent
      → NodeContent
      → Bool
      → Bool
      → Result (Outcome × Merging)
  unfolding is_branch_choice merge_branches merge_as_refs merge_plain
  merge_versions merge labels m base ours theirs base_node our_node their_node is_top in_field =
      if is_branch_choice sha3 our_node && is_branch_choice sha3 their_node
      then merge_branches sha3 h merge m base (is_branch_choice sha3 base_node) ours theirs
      else if is_ref sha3 h our_node || is_ref sha3 h their_node
      then merge_as_refs sha3 h merge labels m base ours theirs base_node our_node their_node is_top
          in_field
      else merge_plain merge labels m base_node our_node their_node is_top

  -- The option in which an ordinary version is lifted.
  abbrev pub main_option : ChoiceRecord → Option ChoiceOption
  main_option choice =
      or_else (named choice.default_name choice.options) (first_option choice.options)

  -- One side is a branch choice, the other an ordinary version.
  unfoldable pub merge_lifted :
      Merger
      → Labels
      → Merging
      → Option String
      → String
      → String
      → NodeContent
      → NodeContent
      → NodeContent
      → Bool
      → Bool
      → Result (Outcome × Merging)
  unfolding is_branch_choice read_choice lift merge_versions
  merge_lifted merge labels m base ours theirs base_node our_node their_node is_top in_field = do
    let mine = is_branch_choice sha3 our_node
    choice ← read_choice sha3 m.store (if mine then ours else theirs)
    elim (main_option choice) [
      | none ↦
          merge_versions merge labels m base ours theirs base_node our_node their_node is_top
            in_field
      | some main ↦ elim main.edge [
        | none ↦
            merge_versions merge labels m base ours theirs base_node our_node their_node is_top
              in_field
        | some e ↦ (do
          b ← lift_base sha3 h (is_branch_choice sha3 base_node) choice main.peer_id e m base
          o ← lift_unless sha3 h mine choice main.peer_id e b.1 ours
          t ← lift_unless sha3 h (is_branch_choice sha3 their_node) choice main.peer_id e o.1 theirs
          merge t.1 b.0 o.0 t.0 is_top false)
      ]
    ]

  abbrev pub same_kind : Bool → Bool → Bool
  same_kind true b = b
  same_kind false b = not b

  abbrev pub base_content : FosStore → Option String → Result NodeContent
  base_content store none = ok (empty_node sha3)
  base_content store (some cid) = content store cid

  -- `mergeNode`, over the merge of what is below.
  unfoldable pub merge_step : Merger → Labels → Merger
  unfolding content is_branch_choice merge_lifted merge_versions
  merge_step merge labels m base ours theirs is_top in_field =
      if ours == theirs
      then ok (node ours, m)
      else if opt_eq base (some ours)
      then ok (node theirs, m)
      else if opt_eq base (some theirs)
      then ok (node ours, m)
      else (do
        let known = filled base
        base_node ← base_content m.store known
        our_node ← content m.store ours
        their_node ← content m.store theirs
        if same_kind (is_branch_choice sha3 our_node) (is_branch_choice sha3 their_node)
            then merge_versions merge labels m known ours theirs base_node our_node their_node
                is_top in_field
            else merge_lifted merge labels m known ours theirs base_node our_node their_node is_top
                in_field)

  unfoldable pub merge_node : Labels → ℕ → Merger
  unfolding merge_step
  merge_node labels zero m base ours theirs is_top in_field = throw too_deep
  merge_node labels (suc fuel) m base ours theirs is_top in_field =
      merge_step (merge_node labels fuel) labels m base ours theirs is_top in_field

  pub record MergeResult : Type 0 where
    pub cid : String
    pub new_choice_cids : List String
    pub store : FosStore

  unfoldable pub merge_nodes :
      Labels → ℕ → FosStore → Option String → String → String → Result MergeResult
  unfolding merge_node
  merge_nodes labels fuel store base ours theirs = do
    r ←
        merge_node labels fuel (record { store = store; new_choice_cids = [] }) base ours theirs
          true false
    elim r.0 [
      | node cid ↦
          ok (record { cid = cid; new_choice_cids = r.1.new_choice_cids; store = r.1.store })
      | conflict ↦ throw typed_conflict
    ]
