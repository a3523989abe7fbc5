-- ===== src/Graph/Branch.antt =====
-- Branches, shared/sync/graph.ts lines 138-143 and 761-815: choices whose options are edited side by
-- side. The selections are local to the process: one map and one flag for each store.
pub mod Select
use fos_mono.Common.{
  ℕ, zero, suc, String, Bool, true, false, ◌&&◌, not, List, [], ◌∷◌, ◌++◌, Option, none, some, ◌==◌,
  opt_eq, find, map, lookup, has_key, set_key, delete_key, if◌then◌else◌,
}
use fos_mono.Node.{Json, num, negative, obj, Fields, end, field, Data, Edge, NodeContent}
use fos_mono.Store.{Table, FosStore, Result, ok, content, put_node, ◌>>=◌, ◌>>◌}
use fos_mono.Graph.Data.{filled, is_filled, with_member, alias_id_of}
use fos_mono.Graph.Refs.{is_ref_node, ref_value_cid, identity_cid}
use fos_mono.Graph.Choice.{ChoiceOption, ChoiceRecord, or_text, nth_peer, put_choice, read_choice}

-- What `branchSelections` and `policyReads` hold for a store.
pub record Branches : Type 0 where
  pub selections : Option (List (String × String))
  pub policy_reads : Bool

abbrev pub selected_names : Branches → List (String × String)
selected_names b = elim b.selections [ none ↦ [] | some m ↦ m ]

unfoldable pub select_branch : Branches → String → String → Branches
select_branch b id name = record b { selections = some (set_key id name (selected_names b)) }

abbrev set_all : List (String × String) → List (String × String) → List (String × String)
set_all [] m = m
set_all ((id, name) ∷ more) m = set_all more (set_key id name m)

-- `withBranches`: the operation runs with the selections, which are put back whatever it does.
unfoldable pub with_branches {ℓ} :
    {A : Type ℓ} → Branches → List (String × String) → (Branches → A × Branches) → A × Branches
with_branches b selections run =
    let r = run (record b { selections = some (set_all selections (selected_names b)) }) in
    (r.0, record r.1 { selections = b.selections })

unfoldable pub with_main_branch_policy {ℓ} :
    {A : Type ℓ} → Branches → (Branches → A × Branches) → A × Branches
with_main_branch_policy b run =
    let r = run (record b { policy_reads = true }) in
    (r.0, if b.policy_reads then r.1 else record r.1 { policy_reads = false })

-- `find(o => o.peerId === name)?.peerId`
abbrev pub named : Option String → List ChoiceOption → Option ChoiceOption
named name options = find (λ o. opt_eq (some o.peer_id) name) options

abbrev pub or_else {ℓ} : {A : Type ℓ} → Option A → Option A → Option A
or_else none o = o
or_else (some a) o = some a

abbrev pub peer_of : Option ChoiceOption → Option String
peer_of none = none
peer_of (some o) = some o.peer_id

abbrev pub edge_of : Option ChoiceOption → Option Edge
edge_of none = none
edge_of (some o) = o.edge

-- The choice of `branchSelection`, of the record that was read.
unfoldable pub selection_of : Branches → ChoiceRecord → String
selection_of b choice =
    if b.policy_reads
    then or_text
        (or_else (peer_of (named (some "main") choice.options))
          (or_else choice.default_name (nth_peer 0 choice.options)))
        ""
    else or_text
        (or_else (peer_of (named (lookup choice.id (selected_names b)) choice.options))
          choice.default_name)
        ""

abbrev pub index_named : String → List ChoiceOption → Option ℕ
index_named name [] = none
index_named name (o ∷ options) =
    if o.peer_id == name
    then some 0
    else elim (index_named name options) [ none ↦ none | some n ↦ some (suc n) ]

-- `Math.max(0, findIndex(...))`; no default is -1.
abbrev pub selected_index : String → List ChoiceOption → Json
selected_index default_name options =
    if default_name == ""
    then negative 0
    else elim (index_named default_name options) [ none ↦ num 0 | some n ↦ num n ]

abbrev pub branch_data : Data → Json → Data
branch_data d index =
    set_key "option" (with_member "selectedIndex" index (lookup "option" d))
      (delete_key "conflict" d)

module _ (sha3 : Fields × List Edge → String) where
  unfoldable pub branch_selection : Branches → FosStore → String → Result String
  unfolding read_choice selection_of
  branch_selection b store cid = do choice ← read_choice sha3 store cid; ok (selection_of b choice)

  unfoldable pub branch_edge : Branches → FosStore → String → Result (Option Edge)
  unfolding branch_selection read_choice
  branch_edge b store cid = do
    choice ← read_choice sha3 store cid
    name ← branch_selection b store cid
    ok (edge_of (named (some name) choice.options))

  unfoldable pub put_branches :
      FosStore → String → Option Edge → List ChoiceOption → String → Result (String × FosStore)
  unfolding put_choice read_choice content put_node
  put_branches store id base options default_name = do
    r ← put_choice sha3 store id base options
    node ← content r.1 r.0
    choice ← read_choice sha3 r.1 r.0
    put_node sha3 r.1 (record node {
      data_fields = branch_data node.data_fields (selected_index default_name choice.options);
    })

  abbrev pub replace_edge_of : String → Edge → ChoiceOption → ChoiceOption
  replace_edge_of name edge o = if o.peer_id == name then record o { edge = some edge } else o

  -- A choice without a default is put with that of `putBranches`, which is main.
  unfoldable pub update_branch : Branches → FosStore → String → Edge → Result (String × FosStore)
  unfolding read_choice branch_selection put_branches
  update_branch b store cid edge = do
    choice ← read_choice sha3 store cid
    name ← branch_selection b store cid
    put_branches store choice.id choice.base (map (replace_edge_of name edge) choice.options)
        (or_text choice.default_name "main")

  unfoldable pub selected_branch_value : Branches → FosStore → String → Result (Option String)
  unfolding branch_edge content read_choice is_ref_node ref_value_cid alias_id_of identity_cid
  selected_branch_value b store cid = do
    found ← branch_edge b store cid
    elim found [
      | none ↦ ok none
      | some e ↦ (do
        right ← content store e.1
        choice ← read_choice sha3 store cid
        ok (
            some (
              if is_ref_node sha3 right
                && (not (is_filled (ref_value_cid sha3 right))
                    && opt_eq (alias_id_of right) (some choice.id))
              then e.0
              else identity_cid e)))
    ]
