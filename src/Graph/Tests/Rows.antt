-- ===== src/Graph/Tests/Rows.antt =====
-- Primitives, edges by key and submissions.
use fos_mono.Common.{ℕ, String, false, List, [], ◌∷◌, some, ◌≡◌, refl, ◌==◌, String_discrete}
use fos_mono.Node.{Edge, NodeContent, insert_field}
use fos_mono.Cid.{hash_content}
use fos_mono.Store.{FosStore, ok, content}
use fos_mono.Store.WellFormed.{IsWellFormed}
use fos_mono.Graph.Primitive.{primitive_cid, text_node}
use fos_mono.Graph.Data.{alias_id_of, with_alias, filled}
use fos_mono.Graph.Edges.{edge_key, target_key, find_edge, replace_edge}
use fos_mono.Graph.Edges.Laws.{HasKeys, replace_edge-find_edge}
use fos_mono.Graph.Choice.Pointer.{Holds}
use fos_mono.Graph.Proposal.{
  opened, ProposalRecord, sender_node, proposal_content, proposal_edge, read_proposal,
  collect_proposals, with_proposal,
}
use fos_mono.Graph.Proposal.Read.{
  HasDistinctRows, proposal_node, record_of, read_proposal-proposal_content,
}
use fos_mono.Graph.Proposal.Kept.{those, others, with_proposal-collect_proposals}
use fos_mono.Graph.Tests.{prim, entries, store_of_table, no_selection}
use fos_mono.Samples.{text_digest, leaf, IsWellFormed-of_check}

abbrev first_task : NodeContent
first_task = record { data_fields = ("alias", with_alias "1") ∷ []; children = [] }

abbrev second_task : NodeContent
second_task = record { data_fields = ("alias", with_alias "2") ∷ []; children = [] }

abbrev offer : NodeContent
offer = proposal_node text_digest no_selection "peer" "draft" "content" "base" 7 opened

abbrev renewed : NodeContent
renewed = proposal_node text_digest no_selection "peer" "draft" "later" "base" 9 opened

abbrev row_store : FosStore
row_store =
    store_of_table
      (entries (
        leaf
        ∷ first_task
        ∷ second_task
        ∷ offer
        ∷ renewed
        ∷ sender_node text_digest "peer"
        ∷ text_node "draft"
        ∷ []))
      (hash_content text_digest leaf)

abbrev leaf_store : FosStore
leaf_store = store_of_table (entries (leaf ∷ [])) (hash_content text_digest leaf)

leaf-IsWellFormed : IsWellFormed text_digest leaf_store.table
unfolding hash_content primitive_cid String_discrete text_digest insert_field
leaf-IsWellFormed = IsWellFormed-of_check text_digest leaf_store.table refl

abbrev task_row : NodeContent → Edge
task_row v = (hash_content text_digest leaf, hash_content text_digest v)

abbrev rows : NodeContent
rows = record {
  data_fields = [];
  children =
      task_row first_task ∷ (prim "proposal", hash_content text_digest offer) ∷ task_row leaf ∷ [];
}

abbrev leaf_key : String
leaf_key = "e:v0.0.7-name:'leaf}.:v0.0.7-name:'leaf}."

rows-HasKeys : HasKeys text_digest no_selection row_store rows.children
unfolding edge_key target_key read_proposal content alias_id_of hash_content primitive_cid
    String_discrete text_digest insert_field
rows-HasKeys = (("a:1", refl), (("p:peer/draft", refl), ((leaf_key, refl), tt)))

second-IsKeyed : edge_key text_digest no_selection row_store (task_row second_task) ≡ ok "a:2"
unfolding edge_key target_key read_proposal content alias_id_of hash_content primitive_cid
    String_discrete text_digest insert_field
second-IsKeyed = refl

replace_edge-find_edge_example :
    (next : NodeContent) × (replace_edge text_digest no_selection row_store rows "a:2"
        (some (task_row second_task))
      ≡ ok next)
    × (find_edge text_digest no_selection row_store next "a:2" ≡ ok (some (task_row second_task)))
    × ((j : String)
        → ("a:2" == j) ≡ false
        → find_edge text_digest no_selection row_store next j
          ≡ find_edge text_digest no_selection row_store rows j)
replace_edge-find_edge_example =
    replace_edge-find_edge text_digest no_selection row_store rows "a:2"
      (some (task_row second_task)) rows-HasKeys second-IsKeyed

rows-HasDistinctRows : HasDistinctRows text_digest no_selection
unfolding hash_content primitive_cid String_discrete text_digest insert_field
rows-HasDistinctRows = record {
  sender_name = refl;
  sender_proposed = refl;
  proposed_name = refl;
  previous_name = refl;
  previous_proposed = refl;
  previous_sender = refl;
}

filled_texts : (("peer" == "") ≡ false) × (("content" == "") ≡ false) × (("base" == "") ≡ false)
unfolding String_discrete
filled_texts = (refl, refl, refl)

offer-Holds :
    Holds text_digest row_store.table (sender_node text_digest "peer")
    × Holds text_digest row_store.table (text_node "draft")
    × Holds text_digest row_store.table offer
unfolding hash_content primitive_cid String_discrete text_digest insert_field
offer-Holds = (refl, refl, refl)

read_proposal-proposal_content_example :
    (node : NodeContent) × (next : FosStore) × (proposal_content text_digest leaf_store "peer"
        "draft" "content" "base" 7 opened
      ≡ ok (node, next))
    × (read_proposal text_digest no_selection row_store (hash_content text_digest node)
        ≡ ok (
            some (
              record_of text_digest no_selection
                (hash_content text_digest node)
                "peer"
                "draft"
                "content"
                "base"
                7
                opened)))
read_proposal-proposal_content_example =
    read_proposal-proposal_content text_digest no_selection leaf_store row_store "peer" "draft"
      "content" "base" 7 opened leaf-IsWellFormed rows-HasDistinctRows filled_texts.0 filled_texts.1
      filled_texts.2 offer-Holds.0 (λ h. offer-Holds.1) offer-Holds.2

abbrev read_as : NodeContent → String → ℕ → ProposalRecord
read_as v content_cid time =
    record_of text_digest no_selection (hash_content text_digest v) "peer" "draft" content_cid
      "base" time opened

renewed_cid :
    (collect_proposals text_digest no_selection row_store rows.children
      ≡ ok (read_as offer "content" 7 ∷ []))
    × (collect_proposals text_digest no_selection row_store
          (proposal_edge text_digest (filled (some (hash_content text_digest renewed))))
        ≡ ok (read_as renewed "later" 9 ∷ []))
    × (others text_digest no_selection "peer" "draft" (read_as renewed "later" 9 ∷ []) ≡ [])
unfolding collect_proposals hash_content primitive_cid String_discrete text_digest insert_field
renewed_cid = (refl, refl, refl)

with_proposal-collect_proposals_example :
    (next : NodeContent) × (all : List ProposalRecord) × (with_proposal text_digest no_selection
        row_store rows "peer"
        (some (hash_content text_digest renewed))
        (some "draft")
      ≡ ok next)
    × (collect_proposals text_digest no_selection row_store next.children ≡ ok all)
    × (those text_digest no_selection "peer" "draft" all ≡ read_as renewed "later" 9 ∷ [])
    × (others text_digest no_selection "peer" "draft" all
        ≡ others text_digest no_selection "peer" "draft" (read_as offer "content" 7 ∷ []))
with_proposal-collect_proposals_example =
    with_proposal-collect_proposals text_digest no_selection row_store rows "peer" "draft"
      (some (hash_content text_digest renewed)) (read_as offer "content" 7 ∷ [])
      (read_as renewed "later" 9 ∷ []) renewed_cid.0 renewed_cid.1 renewed_cid.2
