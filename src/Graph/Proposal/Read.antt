-- ===== src/Graph/Proposal/Read.antt =====
-- `readProposal` of what `proposalContent` makes.
use fos_mono.Common.{
  ℕ, if◌then◌else◌, String, Bool-cases, false, List, [], ◌∷◌, some, ◌==◌, ==_refl, ◌≡◌, refl, inl,
  inr, arith, lookup, String_discrete,
}
use fos_mono.Node.{Fields, Edge, NodeContent}
use fos_mono.Cid.{hash_content}
use fos_mono.Store.{FosStore, ok, content}
use fos_mono.Store.WellFormed.{IsWellFormed}
use fos_mono.Graph.Grown.{put_node-Grown}
use fos_mono.Graph.Primitive.{primitive_cid, text_node}
use fos_mono.Graph.Branch.{Branches}
use fos_mono.Graph.Choice.Pointer.{Holds}
use fos_mono.Graph.Proposal.{
  ProposalStatus, opened, rejected, ProposalRecord, proposal_data, sender_node, proposal_edges,
  proposal_content, read_part, read_parts, read_proposal, complete, no_parts, Parts,
}
use fos_mono.Graph.Value.Plain.{text_of-text_node}

module _ (sha3 : Fields × List Edge → String) (b : Branches) where
  abbrev Apart : String → String → Type 0
  Apart x y = (primitive_cid sha3 x == primitive_cid sha3 y) ≡ false

  -- The ids of the primitives of a submission are different.
  pub record HasDistinctRows : Type 0 where
    pub sender_name : Apart "sender" "proposalName"
    pub sender_proposed : Apart "sender" "proposed"
    pub proposed_name : Apart "proposed" "proposalName"
    pub previous_name : Apart "previous" "proposalName"
    pub previous_proposed : Apart "previous" "proposed"
    pub previous_sender : Apart "previous" "sender"

  read_part-sender :
      (store : FosStore) (peer_id : String) (p : Parts)
      → HasDistinctRows
      → Holds sha3 store.table (sender_node sha3 peer_id)
      → (peer_id == "") ≡ false
      → read_part sha3 b store
          (primitive_cid sha3 "sender", hash_content sha3 (sender_node sha3 peer_id))
          p
        ≡ ok (record p { peer_id = peer_id })
  unfolding read_part content
  read_part-sender store peer_id p d h n =
      ground (arith, d.sender_name, d.sender_proposed, ==_refl (primitive_cid sha3 "sender"))

  read_part-proposed :
      (store : FosStore) (cid : String) (p : Parts)
      → HasDistinctRows
      → read_part sha3 b store (primitive_cid sha3 "proposed", cid) p
        ≡ ok (record p { content_cid = cid })
  unfolding read_part
  read_part-proposed store cid p d =
      rw (d.proposed_name, ==_refl (primitive_cid sha3 "proposed")) refl

  read_part-previous :
      (store : FosStore) (cid : String) (p : Parts)
      → HasDistinctRows
      → read_part sha3 b store (primitive_cid sha3 "previous", cid) p
        ≡ ok (record p { base_cid = cid })
  unfolding read_part
  read_part-previous store cid p d =
      rw
        (
          d.previous_name,
          d.previous_proposed,
          d.previous_sender,
          ==_refl (primitive_cid sha3 "previous"),
        )
        refl

  read_part-name :
      (store : FosStore) (name : String) (p : Parts)
      → Holds sha3 store.table (text_node name)
      → read_part sha3 b store
          (primitive_cid sha3 "proposalName", hash_content sha3 (text_node name))
          p
        ≡ ok (record p { name = name })
  unfolding read_part
  read_part-name store name p h =
      rw (==_refl (primitive_cid sha3 "proposalName"), text_of-text_node sha3 b store name h) refl

  -- The rows of a submission, its name among them when it has one.
  abbrev pub name_edges : String → List Edge
  name_edges name =
      if name == ""
      then []
      else (primitive_cid sha3 "proposalName", hash_content sha3 (text_node name)) ∷ []

  abbrev pub proposal_node : String → String → String → String → ℕ → ProposalStatus → NodeContent
  proposal_node peer_id name content_cid base_cid timestamp status = record {
    data_fields = proposal_data timestamp status;
    children =
        proposal_edges sha3 (hash_content sha3 (sender_node sha3 peer_id)) content_cid base_cid
          (name_edges name);
  }

  read_parts-name :
      (store : FosStore) (name : String) (p : Parts)
      → ((name == "") ≡ false → Holds sha3 store.table (text_node name))
      → p.name ≡ ""
      → read_parts sha3 b store (name_edges name) p ≡ ok (record p { name = name })
  unfolding read_parts
  read_parts-name store name p h e = elim (Bool-cases (name == "")) [
    | inl k ↦ ground (arith, k, e)
    | inr k ↦ rw (k, read_part-name store name p (h k)) refl
  ]

  read_parts-proposal_node :
      (store : FosStore) (peer_id name content_cid base_cid : String)
      → HasDistinctRows
      → Holds sha3 store.table (sender_node sha3 peer_id)
      → ((name == "") ≡ false → Holds sha3 store.table (text_node name))
      → (peer_id == "") ≡ false
      → read_parts sha3 b store
          (proposal_edges sha3
            (hash_content sha3 (sender_node sha3 peer_id))
            content_cid
            base_cid
            (name_edges name))
          (no_parts)
        ≡ ok (record {
          peer_id = peer_id;
          name = name;
          content_cid = content_cid;
          base_cid = base_cid;
        })
  unfolding read_parts
  read_parts-proposal_node store peer_id name content_cid base_cid d h l n =
      let one : Parts = record no_parts { peer_id = peer_id } in
      let two : Parts = record one { content_cid = content_cid } in
      let three : Parts = record two { base_cid = base_cid } in
      ground (
        arith,
        read_part-sender store peer_id no_parts d h n,
        read_part-proposed store content_cid one d,
        read_part-previous store base_cid two d,
        read_parts-name store name three l refl,
      )

  abbrev pub IsRead : String → NodeContent → ProposalRecord → Type 0
  IsRead cid v r =
      complete cid v (record {
        peer_id = r.peer_id;
        name = r.name;
        content_cid = r.content_cid;
        base_cid = r.base_cid;
      })
      ≡ some r

  -- What `readProposal` is to give for a submission.
  abbrev pub record_of :
      String → String → String → String → String → ℕ → ProposalStatus → ProposalRecord
  record_of cid peer_id name content_cid base_cid timestamp status = record {
    cid = cid;
    peer_id = peer_id;
    name = name;
    status = status;
    content_cid = content_cid;
    base_cid = base_cid;
    timestamp = timestamp;
  }

  complete-proposal_node :
      (cid peer_id name content_cid base_cid : String) (timestamp : ℕ) (status : ProposalStatus)
      → (peer_id == "") ≡ false
      → (content_cid == "") ≡ false
      → (base_cid == "") ≡ false
      → IsRead cid
          (proposal_node peer_id name content_cid base_cid timestamp status)
          (record_of cid peer_id name content_cid base_cid timestamp status)
  unfolding String_discrete
  complete-proposal_node cid peer_id name content_cid base_cid timestamp opened p c q =
      rw (p, c, q) refl
  complete-proposal_node cid peer_id name content_cid base_cid timestamp rejected p c q =
      rw (p, c, q) refl

  read_proposal-complete :
      (store : FosStore) (cid : String) (v : NodeContent) (p : Parts) (r : ProposalRecord)
      → lookup cid store.table ≡ some v
      → read_parts sha3 b store v.children no_parts ≡ ok p
      → complete cid v p ≡ some r
      → read_proposal sha3 b store cid ≡ ok (some r)
  unfolding read_proposal
  read_proposal-complete store cid v p r l e c = ground arith

  -- `proposalContent` returns on every well-formed store, and `readProposal` of the node it makes gives
  -- back its sender, name, status, content, base and time, from any store that holds this node, the
  -- node of its sender and, when it has a name, that of the name. The sender, the content and the base
  -- are no empty texts, and the ids of the primitives of the rows are different.
  pub read_proposal-proposal_content :
      (store later : FosStore) (peer_id name content_cid base_cid : String) (timestamp : ℕ)
      (status : ProposalStatus)
      → IsWellFormed sha3 store.table
      → HasDistinctRows
      → (peer_id == "") ≡ false
      → (content_cid == "") ≡ false
      → (base_cid == "") ≡ false
      → Holds sha3 later.table (sender_node sha3 peer_id)
      → ((name == "") ≡ false → Holds sha3 later.table (text_node name))
      → Holds sha3 later.table (proposal_node peer_id name content_cid base_cid timestamp status)
      → (node : NodeContent) × (next : FosStore) × (proposal_content sha3 store peer_id name
            content_cid base_cid timestamp status
          ≡ ok (node, next))
        × (read_proposal sha3 b later (hash_content sha3 node)
            ≡ ok (
                some (
                  record_of
                    (hash_content sha3 node)
                    peer_id
                    name
                    content_cid
                    base_cid
                    timestamp
                    status)))
  unfolding proposal_content
  read_proposal-proposal_content store later peer_id name content_cid base_cid timestamp status w d
        p c q h l n =
      let v = proposal_node peer_id name content_cid base_cid timestamp status in
      let (one, e, g, _) = put_node-Grown sha3 store (sender_node sha3 peer_id) w refl in
      let (two, f, _, _) = put_node-Grown sha3 one (text_node name) g.valid refl in
      let reads : read_proposal sha3 b later (hash_content sha3 v)
          ≡ ok (
              some (
                record_of (hash_content sha3 v) peer_id name content_cid base_cid timestamp
                  status)) =
        read_proposal-complete later (hash_content sha3 v) v
          (record {
            peer_id = peer_id;
            name = name;
            content_cid = content_cid;
            base_cid = base_cid;
          })
          (record_of (hash_content sha3 v) peer_id name content_cid base_cid timestamp status) n
          (read_parts-proposal_node later peer_id name content_cid base_cid d h l p)
          (complete-proposal_node (hash_content sha3 v) peer_id name content_cid base_cid timestamp
            status p c q) in
      elim (Bool-cases (name == "")) [
        | inl k ↦ (v, one, rw (e, k) refl, reads)
        | inr k ↦ (v, two, rw (e, k, f) refl, reads)
      ]
