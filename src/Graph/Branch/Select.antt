-- ===== src/Graph/Branch/Select.antt =====
-- Which branch is selected.
use fos_mono.Common.{
  String, Bool, true, false, List, [], ◌∷◌, Option-cases, none, some, ◌≡◌, inl, inr, arith, lookup,
  lookup-set_key, ==_refl, if◌then◌else◌,
}
use fos_mono.Node.{Fields, Edge}
use fos_mono.Store.{FosStore, ok}
use fos_mono.Graph.Choice.{ChoiceOption, ChoiceRecord, nth_peer, or_text, read_choice}
use fos_mono.Graph.Branch.{
  Branches, select_branch, with_main_branch_policy, named, edge_of, selected_names, selection_of,
  branch_selection, branch_edge, or_else,
}

-- One of the options has the name.
abbrev pub has_name : String → List ChoiceOption → Bool
has_name name options = elim (named (some name) options) [ none ↦ false | some _ ↦ true ]

named-peer :
    (name : String) (options : List ChoiceOption) (o : ChoiceOption)
    → named (some name) options ≡ some o
    → o.peer_id ≡ name
named-peer name [] o h = cc
named-peer name (p ∷ options) o h = ground (arith, named-peer name options o)

policy-select_branch :
    (b : Branches) (id name : String)
    → b.policy_reads ≡ false
    → (select_branch b id name).policy_reads ≡ false
unfolding select_branch
policy-select_branch b id name p = p

module _ (sha3 : Fields × List Edge → String) where
  named-branch_selection :
      (b : Branches) (store : FosStore) (cid name : String) (choice : ChoiceRecord)
      (o : ChoiceOption)
      → read_choice sha3 store cid ≡ ok choice
      → b.policy_reads ≡ false
      → lookup choice.id (selected_names b) ≡ some name
      → named (some name) choice.options ≡ some o
      → branch_selection sha3 b store cid ≡ ok name
  unfolding branch_selection selection_of
  named-branch_selection b store cid name choice o r p l h =
      ground (arith, r, p, l, h, named-peer name choice.options o h)

  lookup-select_branch :
      (b : Branches) (id name : String)
      → lookup id (selected_names (select_branch b id name)) ≡ some name
  unfolding select_branch
  lookup-select_branch b id name =
      ground (arith, lookup-set_key id id name (selected_names b), ==_refl id)

  main-branch_selection :
      (b : Branches) (store : FosStore) (cid : String) (choice : ChoiceRecord)
      → read_choice sha3 store cid ≡ ok choice
      → (with_main_branch_policy b (λ c. (branch_selection sha3 c store cid, c))).0
        ≡ ok (
            if has_name "main" choice.options
            then "main"
            else or_text (or_else choice.default_name (nth_peer 0 choice.options)) "")
  unfolding branch_selection selection_of with_main_branch_policy
  main-branch_selection b store cid choice r =
      elim (Option-cases (named (some "main") choice.options)) [
        | inl n ↦ ground (arith, r, n)
        | inr (o, n) ↦ ground (arith, r, n, named-peer "main" choice.options o n)
      ]

  -- After `selectBranch` of one of a choice's options, outside the main policy, that option is the
  -- selected branch and its edge the edge of the branch. A read under the main policy does not see the
  -- selection: it takes the option main, else the default, else the first option.
  pub select_branch-branch_edge :
      (b : Branches) (store : FosStore) (cid name : String) (choice : ChoiceRecord)
      → read_choice sha3 store cid ≡ ok choice
      → has_name name choice.options ≡ true
      → b.policy_reads ≡ false
      → (branch_selection sha3 (select_branch b choice.id name) store cid ≡ ok name)
        × (branch_edge sha3 (select_branch b choice.id name) store cid
            ≡ ok (edge_of (named (some name) choice.options)))
        × ((with_main_branch_policy
              (select_branch b choice.id name)
              (λ c. (branch_selection sha3 c store cid, c))).0
            ≡ ok (
                if has_name "main" choice.options
                then "main"
                else or_text (or_else choice.default_name (nth_peer 0 choice.options)) ""))
  unfolding branch_edge
  select_branch-branch_edge b store cid name choice r h p =
      elim (Option-cases (named (some name) choice.options)) [
        | inl n ↦ absurd (ground arith)
        | inr (o, n) ↦
            let now = select_branch b choice.id name in
            let q : now.policy_reads ≡ false = policy-select_branch b choice.id name p in
            let s =
              named-branch_selection now store cid name choice o r q
                (lookup-select_branch b choice.id name) n in
            (s, ground (arith, r, s), main-branch_selection now store cid choice r)
      ]
