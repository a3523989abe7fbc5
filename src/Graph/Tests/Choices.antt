-- ===== src/Graph/Tests/Choices.antt =====
-- A choice of two options, put and read, and its branches.
use mathlib.Core.List.{Perm}
use fos_mono.Common.{
  String, true, List, [], ◌∷◌, ◌++◌, Option, none, some, ◌≡◌, refl, ap, sym, ◌∙◌, subst, All,
  String_discrete, if◌then◌else◌,
}
use fos_mono.Node.{Edge, NodeContent, insert_field}
use fos_mono.Cid.{hash_content}
use fos_mono.Store.{FosStore, ok}
use fos_mono.Store.WellFormed.{IsWellFormed}
use fos_mono.Graph.Primitive.{primitive_cid}
use fos_mono.Graph.Choice.{
  ChoiceOption, ChoiceRecord, nth_peer, or_text, pointer_content, read_choice, put_choice,
  sort_cids,
}
use fos_mono.Graph.Choice.Built.{HasPrimitives, Known, has_ends, option_content, choice_content}
use fos_mono.Graph.Choice.Pointer.{HasDistinctPrimitives, Holds, IsOption, is_edge}
use fos_mono.Graph.Choice.Read.{HasOwnId, HasOwnIds, read_choice-put_choice}
use fos_mono.Graph.Choice.Sorted.{IsSorted}
use fos_mono.Graph.Branch.{
  select_branch, with_main_branch_policy, branch_selection, branch_edge, edge_of, named, or_else,
}
use fos_mono.Graph.Branch.Select.{has_name, select_branch-branch_edge}
use fos_mono.Graph.Tests.{entries, primitives, store_of_table, no_selection}
use fos_mono.Samples.{text_digest, leaf, IsWellFormed-of_check}

abbrev other : NodeContent
other = record { data_fields = []; children = [] }

abbrev there : Edge
there = (hash_content text_digest leaf, hash_content text_digest other)

abbrev back : Edge
back = (hash_content text_digest other, hash_content text_digest leaf)

abbrev main_option : ChoiceOption
main_option = record { peer_id = "main"; edge = some there; base = none; request_merge = none }

abbrev draft_option : ChoiceOption
draft_option = record {
  peer_id = "draft";
  edge = some back;
  base = some there;
  request_merge = some (hash_content text_digest leaf);
}

abbrev two_options : List ChoiceOption
two_options = main_option ∷ draft_option ∷ []

abbrev before : FosStore
before =
    store_of_table
      (primitives ("instruction" ∷ "target" ∷ "base" ∷ "approve" ∷ "notSelected" ∷ [])
        ++ entries (leaf ∷ other ∷ []))
      (hash_content text_digest leaf)

before-IsWellFormed : IsWellFormed text_digest before.table
unfolding hash_content primitive_cid String_discrete text_digest insert_field
before-IsWellFormed = IsWellFormed-of_check text_digest before.table refl

before-HasPrimitives : HasPrimitives text_digest before.table
unfolding hash_content primitive_cid String_discrete text_digest insert_field
before-HasPrimitives = record {
  instruction = refl;
  target = refl;
  base = refl;
  approve = refl;
  not_selected = refl;
}

options-Known : All (Known before.table) two_options
unfolding hash_content primitive_cid String_discrete text_digest insert_field
options-Known = (
  record { edge = refl; base = refl; request = refl },
  (record { edge = refl; base = refl; request = refl }, tt),
)

there-known : has_ends before.table (some there) ≡ true
unfolding hash_content primitive_cid String_discrete text_digest insert_field
there-known = refl

abbrev choice_cid : String
choice_cid = hash_content text_digest (choice_content text_digest "id" (some there) two_options)

-- The store afterwards, which holds the nodes of the choice.
abbrev holding : FosStore
holding = record before {
  table =
      before.table
      ++ entries (
          option_content text_digest main_option
          ∷ pointer_content text_digest none (some there)
          ∷ option_content text_digest draft_option
          ∷ choice_content text_digest "id" (some there) two_options
          ∷ []);
}

put_test : put_choice text_digest before "id" (some there) two_options ≡ ok (choice_cid, holding)
unfolding put_choice hash_content primitive_cid String_discrete text_digest insert_field sort_cids
    pointer_content
put_test = refl

prims-HasDistinctPrimitives : HasDistinctPrimitives text_digest
unfolding hash_content primitive_cid String_discrete text_digest insert_field
prims-HasDistinctPrimitives = record {
  instruction_target = refl;
  instruction_base = refl;
  instruction_approve = refl;
  target_instruction = refl;
  target_base = refl;
  target_approve = refl;
  approve_instruction = refl;
  approve_target = refl;
  approve_base = refl;
  base_instruction = refl;
  base_target = refl;
  base_approve = refl;
  base_not_selected = refl;
  not_selected_base = refl;
}

options-IsOption : All IsOption two_options
unfolding hash_content primitive_cid String_discrete text_digest insert_field
options-IsOption = (
  record { peer_id = refl; edge = refl; base = refl; request = refl },
  (record { peer_id = refl; edge = refl; base = refl; request = refl }, tt),
)

abbrev some_edge : Option Edge → Edge
some_edge none = back
some_edge (some e) = e

holding-base :
    (e : Edge)
    → some there ≡ some e
    → Holds text_digest holding.table (pointer_content text_digest none (some e))
unfolding hash_content primitive_cid String_discrete text_digest insert_field sort_cids
    pointer_content
holding-base e q =
    subst
      (λ (x : Edge). Holds text_digest holding.table (pointer_content text_digest none (some x)))
      (ap some_edge q) refl

some-inj : {v w : NodeContent} → some v ≡ some w → w ≡ v
some-inj h = cc

-- A node that the store holds is the only one under its id.
holding-HasOwnId :
    (v : NodeContent)
    → Holds text_digest holding.table v
    → HasOwnId text_digest prims-HasDistinctPrimitives holding.table v
holding-HasOwnId v h w found = some-inj (sym h ∙ found)

no_base :
    (e : Edge)
    → none ≡ some e
    → HasOwnId text_digest prims-HasDistinctPrimitives holding.table
        (pointer_content text_digest none (some e))
no_base e q = cc

holding-HasOwnIds :
    All (HasOwnIds text_digest prims-HasDistinctPrimitives holding.table) two_options
unfolding hash_content primitive_cid String_discrete text_digest insert_field sort_cids
    pointer_content
holding-HasOwnIds = (
  record {
    option = holding-HasOwnId (option_content text_digest main_option) refl;
    base = no_base;
  },
  (
    record {
      option = holding-HasOwnId (option_content text_digest draft_option) refl;
      base = λ e q. holding-HasOwnId (pointer_content text_digest none (some e)) (holding-base e q);
    },
    tt,
  ),
)

holding-choice :
    Holds text_digest holding.table (choice_content text_digest "id" (some there) two_options)
    × Holds text_digest holding.table (pointer_content text_digest none (some there))
    × (is_edge (some there) ≡ true)
unfolding hash_content primitive_cid String_discrete text_digest insert_field sort_cids
    pointer_content
holding-choice = (refl, refl, refl)

read_choice-put_choice_example :
    (sorted : List ChoiceOption) × Perm two_options sorted
    × IsSorted text_digest sorted
    × (read_choice text_digest holding choice_cid
        ≡ ok (record {
          default_name = nth_peer 0 sorted;
          cid = choice_cid;
          id = "id";
          base = some there;
          options = sorted;
        }))
read_choice-put_choice_example =
    read_choice-put_choice text_digest prims-HasDistinctPrimitives before "id" (some there)
      two_options choice_cid holding before-IsWellFormed before-HasPrimitives there-known
      options-Known options-IsOption holding-choice.2 put_test
      (holding-HasOwnId (choice_content text_digest "id" (some there) two_options) holding-choice.0)
      (holding-HasOwnId (pointer_content text_digest none (some there)) holding-choice.1)
      holding-HasOwnIds

abbrev choice : ChoiceRecord
choice = record {
  default_name = some "draft";
  cid = choice_cid;
  id = "id";
  base = some there;
  options = draft_option ∷ main_option ∷ [];
}

choice_test : (read_choice text_digest holding choice_cid ≡ ok choice)
unfolding read_choice hash_content primitive_cid String_discrete text_digest insert_field sort_cids
    pointer_content
choice_test = refl

has_name_test : has_name "main" choice.options ≡ true
unfolding String_discrete
has_name_test = refl

select_branch-branch_edge_example :
    (branch_selection text_digest (select_branch no_selection "id" "main") holding choice_cid
      ≡ ok "main")
    × (branch_edge text_digest (select_branch no_selection "id" "main") holding choice_cid
        ≡ ok (edge_of (named (some "main") choice.options)))
    × ((with_main_branch_policy
          (select_branch no_selection "id" "main")
          (λ c. (branch_selection text_digest c holding choice_cid, c))).0
        ≡ ok (
            if has_name "main" choice.options
            then "main"
            else or_text (or_else choice.default_name (nth_peer 0 choice.options)) ""))
select_branch-branch_edge_example =
    select_branch-branch_edge text_digest no_selection holding choice_cid "main" choice choice_test
      has_name_test refl
