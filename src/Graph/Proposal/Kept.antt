-- ===== src/Graph/Proposal/Kept.antt =====
-- A node keeps one submission for each sender and name: `withProposal` against `readProposals`.
use fos_mono.Common.{
  String, Bool-cases, true, false, not, List, [], ◌∷◌, ◌++◌, Option, none, some, ◌≡◌, refl, ◌⊎◌,
  inl, inr, arith, select, Option-cases, if◌then◌else◌,
}
use fos_mono.Node.{Fields, Edge, NodeContent}
use fos_mono.Store.{Result-cases, FosStore, ok}
use fos_mono.Graph.Data.{filled}
use fos_mono.Graph.Refs.{is_proposal_edge}
use fos_mono.Graph.Branch.{Branches}
use fos_mono.Graph.Proposal.{
  ProposalRecord, is_from, drop_proposals, proposal_edge, with_proposal, read_proposal,
  collect_proposals,
}

module _ (sha3 : Fields × List Edge → String) (b : Branches) where
  -- Those of the sender under the name, and the others.
  abbrev pub those : String → String → List ProposalRecord → List ProposalRecord
  those peer_id name ps = select (λ p. is_from sha3 peer_id (some name) (some p)) ps

  abbrev pub others : String → String → List ProposalRecord → List ProposalRecord
  others peer_id name ps = select (λ p. not (is_from sha3 peer_id (some name) (some p))) ps

  those-others :
      (peer_id name : String) (ps : List ProposalRecord)
      → those peer_id name (others peer_id name ps) ≡ []
  those-others peer_id name [] = refl
  those-others peer_id name (p ∷ ps) =
      elim (Bool-cases (is_from sha3 peer_id (some name) (some p))) [
        | inl k ↦ rw k (those-others peer_id name ps)
        | inr k ↦ ground (arith, those-others peer_id name ps)
      ]

  abbrev add : Option ProposalRecord → List ProposalRecord → List ProposalRecord
  add none rest = rest
  add (some r) rest = r ∷ rest

  -- What an edge adds to the submissions.
  abbrev Gives : FosStore → Edge → Option ProposalRecord → Type 0
  Gives store x entry =
      ((is_proposal_edge sha3 x ≡ true) × (read_proposal sha3 b store x.1 ≡ ok entry))
      ⊎ ((is_proposal_edge sha3 x ≡ false) × (entry ≡ none))

  collect-cons :
      (store : FosStore) (x : Edge) (edges : List Edge) (entry : Option ProposalRecord)
      (rest : List ProposalRecord)
      → Gives store x entry
      → collect_proposals sha3 b store edges ≡ ok rest
      → collect_proposals sha3 b store (x ∷ edges) ≡ ok (add entry rest)
  unfolding collect_proposals
  collect-cons store x edges none rest (inl (p, r)) e = rw (p, r, e) refl
  collect-cons store x edges (some q) rest (inl (p, r)) e = rw (p, r, e) refl
  collect-cons store x edges entry rest (inr (p, r)) e = rw (p, e, r) refl

  collect-split :
      (store : FosStore) (x : Edge) (edges : List Edge) (out : List ProposalRecord)
      → collect_proposals sha3 b store (x ∷ edges) ≡ ok out
      → (entry : Option ProposalRecord) × (rest : List ProposalRecord) × Gives store x entry
        × (collect_proposals sha3 b store edges ≡ ok rest)
        × (out ≡ add entry rest)
  unfolding collect_proposals
  collect-split store x edges out e = elim (Bool-cases (is_proposal_edge sha3 x)) [
    | inr n ↦ (none, out, inr (n, refl), rw n at e, refl)
    | inl p ↦ elim (Result-cases (read_proposal sha3 b store x.1)) [
      | inr (t, q) ↦ absurd (ground arith)
      | inl (entry, q) ↦ elim (Result-cases (collect_proposals sha3 b store edges)) [
        | inr (t, k) ↦ absurd (ground arith)
        | inl (rest, k) ↦ (
          entry,
          rest,
          inl (p, q),
          k,
          elim (Option-cases entry) [ inl z ↦ ground arith | inr (r, z) ↦ ground arith ],
        )
      ]
    ]
  ]

  others-add :
      (peer_id name : String) (entry : Option ProposalRecord) (rest : List ProposalRecord)
      → others peer_id name (add entry rest) ≡ (
          if is_from sha3 peer_id (some name) entry
          then others peer_id name rest
          else add entry (others peer_id name rest))
  others-add peer_id name none rest = refl
  others-add peer_id name (some r) rest = ground arith

  none-collected :
      (store : FosStore) (peer_id name : String) (out : List ProposalRecord)
      → collect_proposals sha3 b store [] ≡ ok out
      → collect_proposals sha3 b store [] ≡ ok (others peer_id name out)
  unfolding collect_proposals
  none-collected store peer_id name out e = ground arith

  collect-append :
      (store : FosStore) (xs ys : List Edge) (ps qs : List ProposalRecord)
      → collect_proposals sha3 b store xs ≡ ok ps
      → collect_proposals sha3 b store ys ≡ ok qs
      → collect_proposals sha3 b store (xs ++ ys) ≡ ok (ps ++ qs)
  unfolding collect_proposals
  collect-append store [] ys ps qs e f = ground arith
  collect-append store (x ∷ xs) ys ps qs e f =
      let (entry, rest, g, k, o) = collect-split store x xs ps e in
      let more = collect-append store xs ys rest qs k f in
      let all = collect-cons store x (xs ++ ys) entry (rest ++ qs) g more in
      elim (Option-cases entry) [ inl z ↦ ground (arith, all) | inr (r, z) ↦ ground (arith, all) ]

  -- An edge that is dropped gives a submission of the sender and the name.
  drop_proposals-collect :
      (store : FosStore) (peer_id name : String) (edges : List Edge) (out : List ProposalRecord)
      → collect_proposals sha3 b store edges ≡ ok out
      → (kept : List Edge) × (drop_proposals sha3 b store peer_id (some name) edges ≡ ok kept)
        × (collect_proposals sha3 b store kept ≡ ok (others peer_id name out))
  unfolding drop_proposals
  drop_proposals-collect store peer_id name [] out e =
      ([], refl, none-collected store peer_id name out e)
  drop_proposals-collect store peer_id name (x ∷ edges) out e =
      let (entry, rest, g, k, o) = collect-split store x edges out e in
      let (kept, f, h) = drop_proposals-collect store peer_id name edges rest k in
      let more = collect-cons store x kept entry (others peer_id name rest) g h in
      elim g [
        | inr (n, z) ↦ (x ∷ kept, rw (n, f) refl, ground (arith, more))
        | inl (p, r) ↦ elim (Bool-cases (is_from sha3 peer_id (some name) entry)) [
          | inl y ↦
              (kept, rw (p, r, f, y) refl, ground (arith, h, others-add peer_id name entry rest))
          | inr y ↦ (
            x ∷ kept,
            rw (p, r, f, y) refl,
            ground (arith, more, others-add peer_id name entry rest),
          )
        ]
      ]

  those-append :
      (peer_id name : String) (ps added : List ProposalRecord)
      → others peer_id name added ≡ []
      → those peer_id name (others peer_id name ps ++ added) ≡ added
  those-append peer_id name [] [] h = refl
  those-append peer_id name [] (p ∷ added) h =
      elim (Bool-cases (is_from sha3 peer_id (some name) (some p))) [
        | inl k ↦ ground (arith, those-append peer_id name [] added (ground arith))
        | inr k ↦ absurd (ground arith)
      ]
  those-append peer_id name (p ∷ ps) added h =
      elim (Bool-cases (is_from sha3 peer_id (some name) (some p))) [
        | inl k ↦ rw k (those-append peer_id name ps added h)
        | inr k ↦ ground (arith, those-append peer_id name ps added h)
      ]

  others-append :
      (peer_id name : String) (ps added : List ProposalRecord)
      → others peer_id name added ≡ []
      → others peer_id name (others peer_id name ps ++ added) ≡ others peer_id name ps
  others-append peer_id name [] added h = h
  others-append peer_id name (p ∷ ps) added h =
      elim (Bool-cases (is_from sha3 peer_id (some name) (some p))) [
        | inl k ↦ rw k (others-append peer_id name ps added h)
        | inr k ↦ ground (arith, others-append peer_id name ps added h)
      ]

  -- When `withProposal` puts a submission of a sender under a name, this is afterwards the only one of
  -- the sender under the name, and the submissions of other senders or names are unchanged, in order;
  -- without a submission to put, the sender has none under the name. Every submission row of the node
  -- is readable, and the new one is from the sender under the name.
  pub with_proposal-collect_proposals :
      (store : FosStore) (value : NodeContent) (peer_id name : String) (cid : Option String)
      (out added : List ProposalRecord)
      → collect_proposals sha3 b store value.children ≡ ok out
      → collect_proposals sha3 b store (proposal_edge sha3 (filled cid)) ≡ ok added
      → others peer_id name added ≡ []
      → (next : NodeContent) × (all : List ProposalRecord) × (with_proposal sha3 b store value
            peer_id cid
            (some name)
          ≡ ok next)
        × (collect_proposals sha3 b store next.children ≡ ok all)
        × (those peer_id name all ≡ added)
        × (others peer_id name all ≡ others peer_id name out)
  unfolding with_proposal
  with_proposal-collect_proposals store value peer_id name cid out added e f h =
      let (kept, g, k) = drop_proposals-collect store peer_id name value.children out e in
      let rows = proposal_edge sha3 (filled cid) in
      (
        record value { children = kept ++ rows },
        others peer_id name out ++ added,
        rw g refl,
        collect-append store kept rows (others peer_id name out) added k f,
        those-append peer_id name out added h,
        others-append peer_id name out added h,
      )
