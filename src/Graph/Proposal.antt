-- ===== src/Graph/Proposal.antt =====
-- Submissions to a reference, shared/sync/graph.ts lines 2331-2415: a candidate value with its base and
-- its sender, as rows of a node.
pub mod Read
pub mod Kept
use fos_mono.Common.{
  ℕ, String, Bool, true, false, ◌&&◌, not, List, [], ◌∷◌, ◌++◌, Option, none, some, ◌==◌, opt_eq,
  select, lookup, has_key, if◌then◌else◌,
}
use fos_mono.Node.{Json, num, str, obj, Fields, end, field, Data, Edge, NodeContent}
use fos_mono.Store.{Table, FosStore, Result, ok, content, put_node, ◌>>=◌, ◌>>◌}
use fos_mono.Graph.Data.{member, text_at, filled}
use fos_mono.Graph.Primitive.{primitive_cid, text_node}
use fos_mono.Graph.Refs.{left_is, is_proposal_edge, is_ref_node}
use fos_mono.Graph.Choice.{or_text, peer_data}
use fos_mono.Graph.Branch.{Branches}
use fos_mono.Graph.Value.{text_of}

-- 'open' and 'rejected'
pub data ProposalStatus : Type 0 where
  opened : ProposalStatus
  rejected : ProposalStatus

pub record ProposalRecord : Type 0 where
  pub cid : String
  pub peer_id : String
  pub name : String
  pub status : ProposalStatus
  pub content_cid : String
  pub base_cid : String
  pub timestamp : ℕ

abbrev pub is_rejected : ProposalStatus → Bool
is_rejected opened = false
is_rejected rejected = true

abbrev pub status_data : ProposalStatus → Data
status_data opened = []
status_data rejected = ("proposal", obj (field "status" (str "rejected") end)) ∷ []

abbrev pub proposal_data : ℕ → ProposalStatus → Data
proposal_data timestamp status =
    ("updated", obj (field "time" (num timestamp) end)) ∷ status_data status

abbrev pub number_of : Option Json → ℕ
number_of (some (num n)) = n
number_of _ = 0

-- What the loop of `readProposal` collects.
pub record Parts : Type 0 where
  pub peer_id : String
  pub name : String
  pub content_cid : String
  pub base_cid : String

abbrev pub no_parts : Parts
no_parts = record { peer_id = ""; name = ""; content_cid = ""; base_cid = "" }

abbrev pub complete : String → NodeContent → Parts → Option ProposalRecord
complete cid value p =
    if p.peer_id == ""
    then none
    else if p.content_cid == ""
    then none
    else if p.base_cid == ""
    then none
    else some (record {
      cid = cid;
      peer_id = p.peer_id;
      name = p.name;
      status =
          if opt_eq (text_at "proposal" "status" value) (some "rejected") then rejected else opened;
      content_cid = p.content_cid;
      base_cid = p.base_cid;
      timestamp = number_of (member "time" (lookup "updated" value.data_fields));
    })

module _ (sha3 : Fields × List Edge → String) where
  abbrev pub sender_node : String → NodeContent
  sender_node peer_id = record { data_fields = peer_data (some peer_id); children = [] }

  -- The rows of a submission, with the ids of its sender and of its name.
  abbrev pub proposal_edges : String → String → String → List Edge → List Edge
  proposal_edges sender content_cid base_cid named =
      (primitive_cid sha3 "sender", sender)
      ∷ (primitive_cid sha3 "proposed", content_cid)
      ∷ (primitive_cid sha3 "previous", base_cid)
      ∷ named

  unfoldable pub proposal_content :
      FosStore
      → String
      → String
      → String
      → String
      → ℕ
      → ProposalStatus
      → Result (NodeContent × FosStore)
  unfolding put_node
  proposal_content store peer_id name content_cid base_cid timestamp status = do
    sender ← put_node sha3 store (sender_node peer_id)
    if name == ""
        then ok (
          record {
            data_fields = proposal_data timestamp status;
            children = proposal_edges sender.0 content_cid base_cid [];
          },
          sender.1,
        )
        else (do
          label ← put_node sha3 sender.1 (text_node name)
          ok (
            record {
              data_fields = proposal_data timestamp status;
              children =
                  proposal_edges sender.0 content_cid base_cid
                    ((primitive_cid sha3 "proposalName", label.0) ∷ []);
            },
            label.1,
          ))

  unfoldable pub is_value_submission : FosStore → ProposalRecord → Bool
  unfolding is_ref_node
  is_value_submission store proposal = elim (lookup proposal.base_cid store.table) [
    | none ↦ false
    | some node ↦ is_ref_node sha3 node
  ]

  -- One row in the loop of `readProposal`.
  unfoldable pub read_part : Branches → FosStore → Edge → Parts → Result Parts
  unfolding text_of content
  read_part b store e p =
      if left_is sha3 "proposalName" e
      then (do name ← text_of sha3 b store e.1; ok (record p { name = or_text name "" }))
      else if left_is sha3 "proposed" e
      then ok (record p { content_cid = e.1 })
      else if left_is sha3 "sender" e
      then (do
        node ← content store e.1
        ok (record p { peer_id = or_text (text_at "peerId" "content" node) "" }))
      else if left_is sha3 "previous" e
      then ok (record p { base_cid = e.1 })
      else ok p

  unfoldable pub read_parts : Branches → FosStore → List Edge → Parts → Result Parts
  unfolding read_part
  read_parts b store [] p = ok p
  read_parts b store (e ∷ edges) p = do q ← read_part b store e p; read_parts b store edges q

  unfoldable pub read_proposal : Branches → FosStore → String → Result (Option ProposalRecord)
  unfolding read_parts
  read_proposal b store cid = elim (lookup cid store.table) [
    | none ↦ ok none
    | some value ↦ (do p ← read_parts b store value.children no_parts; ok (complete cid value p))
  ]

  -- `!!p && p.peerId === peerId && (name === undefined || p.name === name)`
  abbrev pub is_from : String → Option String → Option ProposalRecord → Bool
  is_from peer_id name none = false
  is_from peer_id none (some p) = p.peer_id == peer_id
  is_from peer_id (some name) (some p) = p.peer_id == peer_id && p.name == name

  unfoldable pub drop_proposals :
      Branches → FosStore → String → Option String → List Edge → Result (List Edge)
  unfolding is_proposal_edge read_proposal
  drop_proposals b store peer_id name [] = ok []
  drop_proposals b store peer_id name (e ∷ edges) =
      if is_proposal_edge sha3 e
      then (do
        p ← read_proposal b store e.1
        rest ← drop_proposals b store peer_id name edges
        ok (if is_from peer_id name p then rest else e ∷ rest))
      else (do rest ← drop_proposals b store peer_id name edges; ok (e ∷ rest))

  abbrev pub proposal_edge : Option String → List Edge
  proposal_edge none = []
  proposal_edge (some cid) = (primitive_cid sha3 "proposal", cid) ∷ []

  unfoldable pub with_proposal :
      Branches
      → FosStore
      → NodeContent
      → String
      → Option String
      → Option String
      → Result NodeContent
  unfolding drop_proposals
  with_proposal b store value peer_id proposal_cid name = do
    children ← drop_proposals b store peer_id name value.children
    ok (record value { children = children ++ proposal_edge (filled proposal_cid) })

  unfoldable pub remove_proposal_by_cid : NodeContent → String → NodeContent
  unfolding is_proposal_edge
  remove_proposal_by_cid value proposal_cid = record value {
    children = select (λ e. not (is_proposal_edge sha3 e && e.1 == proposal_cid)) value.children;
  }

  unfoldable pub mark_proposal_rejected :
      Branches → FosStore → NodeContent → String → Result (NodeContent × FosStore)
  unfolding read_proposal proposal_content with_proposal put_node
  mark_proposal_rejected b store value proposal_cid = do
    found ← read_proposal b store proposal_cid
    elim found [
      | none ↦ ok (value, store)
      | some r ↦ if is_rejected r.status then ok (value, store) else (do
        node ← proposal_content store r.peer_id r.name r.content_cid r.base_cid r.timestamp rejected
        put ← put_node sha3 node.1 node.0
        next ← with_proposal b put.1 value r.peer_id (some put.0) (some r.name)
        ok (next, put.1))
    ]

  unfoldable pub collect_proposals : Branches → FosStore → List Edge → Result (List ProposalRecord)
  unfolding is_proposal_edge read_proposal
  collect_proposals b store [] = ok []
  collect_proposals b store (e ∷ edges) =
      if is_proposal_edge sha3 e
      then (do
        p ← read_proposal b store e.1
        rest ← collect_proposals b store edges
        ok (elim p [ none ↦ rest | some r ↦ r ∷ rest ]))
      else collect_proposals b store edges

  unfoldable pub read_proposals : Branches → FosStore → NodeContent → Result (List ProposalRecord)
  unfolding collect_proposals
  read_proposals b store value = do
    out ← collect_proposals b store value.children
    ok (select (λ p. not (is_rejected p.status)) out ++ select (λ p. is_rejected p.status) out)
