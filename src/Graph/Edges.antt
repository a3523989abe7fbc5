-- ===== src/Graph/Edges.antt =====
-- The edges of a node by key, shared/sync/graph.ts lines 198-208 (`edgeKey`), 1001-1003 (`findEdge`),
-- 1028-1041 (`replaceEdge`) and 2438-2442 (`findAliasEdge`).
pub mod Laws
use Prim.Native.String
use fos_mono.Common.{
  ℕ, zero, suc, String, Bool, true, false, ◌&&◌, ◌||◌, List, [], ◌∷◌, ◌++◌, Option, none, some,
  ◌==◌, opt_eq, if◌then◌else◌,
}
use fos_mono.Node.{Fields, Edge, NodeContent}
use fos_mono.Store.{FosStore, Result, ok, content, ◌>>=◌, ◌>>◌}
use fos_mono.Graph.Data.{filled, alias_id_of}
use fos_mono.Graph.Refs.{left_is, identity_cid}
use fos_mono.Graph.Branch.{Branches}
use fos_mono.Graph.Proposal.{ProposalRecord, read_proposal}

-- `p:` of the peer and the name, `a:` of an alias, `e:` of both ends
abbrev pub join : String → String → String
join s t = String.◌++◌ s t

abbrev pub proposal_key : ProposalRecord → String
proposal_key p = join "p:" (join p.peer_id (join "/" p.name))

abbrev pub alias_key : String → String
alias_key id = join "a:" id

abbrev pub plain_key : Edge → String
plain_key e = join "e:" (join e.0 (join ":" e.1))

pub record Found : Type 0 where
  pub edge : Edge
  pub index : ℕ

abbrev pub next_index : Option Found → Option Found
next_index none = none
next_index (some f) = some (record f { index = suc f.index })

abbrev pub edge_list : Option Edge → List Edge
edge_list none = []
edge_list (some e) = e ∷ []

module _ (sha3 : Fields × List Edge → String) (b : Branches) where
  -- The key that does not come from a submission.
  unfoldable pub target_key : FosStore → Edge → Result String
  unfolding content alias_id_of
  target_key store e = do
    node ← content store e.1
    ok (elim (filled (alias_id_of node)) [ some id ↦ alias_key id | none ↦ plain_key e ])

  unfoldable pub edge_key : FosStore → Edge → Result String
  unfolding target_key read_proposal
  edge_key store e =
      if left_is sha3 "proposal" e
      then (do
        found ← read_proposal sha3 b store e.1
        elim found [ some p ↦ ok (proposal_key p) | none ↦ target_key store e ])
      else target_key store e

  unfoldable pub find_by_key : FosStore → String → List Edge → Result (Option Edge)
  unfolding edge_key
  find_by_key store key [] = ok none
  find_by_key store key (e ∷ edges) = do
    k ← edge_key store e
    if k == key then ok (some e) else find_by_key store key edges

  unfoldable pub find_edge : FosStore → NodeContent → String → Result (Option Edge)
  unfolding find_by_key
  find_edge store value key = find_by_key store key value.children

  -- The loop of `replaceEdge`: the edges, and whether the key was found.
  unfoldable pub replace_by_key :
      FosStore → String → Option Edge → List Edge → Result (List Edge × Bool)
  unfolding edge_key
  replace_by_key store key edge [] = ok ([], false)
  replace_by_key store key edge (e ∷ edges) = do
    k ← edge_key store e
    rest ← replace_by_key store key edge edges
    if k == key then ok (edge_list edge ++ rest.0, true) else ok (e ∷ rest.0, rest.1)

  unfoldable pub replace_edge : FosStore → NodeContent → String → Option Edge → Result NodeContent
  unfolding replace_by_key
  replace_edge store value key edge = do
    r ← replace_by_key store key edge value.children
    ok (record value { children = if r.1 then r.0 else r.0 ++ edge_list edge })

  -- The key of the edge is looked at first, its target's alias only when it is another.
  unfoldable pub find_alias_from : FosStore → String → List Edge → Result (Option Found)
  unfolding edge_key content alias_id_of identity_cid
  find_alias_from store alias_id [] = ok none
  find_alias_from store alias_id (e ∷ edges) = do
    k ← edge_key store e
    if k == alias_key alias_id then ok (some (record { edge = e; index = 0 })) else (do
      node ← content store (identity_cid e)
      if opt_eq (alias_id_of node) (some alias_id)
          then ok (some (record { edge = e; index = 0 }))
          else (do rest ← find_alias_from store alias_id edges; ok (next_index rest)))

  unfoldable pub find_alias_edge : FosStore → NodeContent → String → Result (Option Found)
  unfolding find_alias_from
  find_alias_edge store value alias_id = find_alias_from store alias_id value.children
