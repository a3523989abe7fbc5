-- ===== src/Merge/Children.antt =====
-- The merge of the children of a node, shared/sync/merge.ts lines 233-291, over any merge of two
-- nodes; `mergeNode` passes itself.
use text.Mathlib.Text.{starts_with}
use fos_mono.Common.{
  ℕ, String, Bool, true, false, ◌||◌, not, List, [], ◌∷◌, ◌++◌, Option, none, some, ltb, lookup,
  set_key, keys, if◌then◌else◌,
}
use fos_mono.Node.{Fields, Edge}
use fos_mono.Store.{FosStore, Result, ok, content, ◌>>=◌}
use fos_mono.Graph.Refs.{is_choice_edge, is_branch_choice, same_shape, identity_cid, with_identity}
use fos_mono.Graph.Primitive.{primitive_cid}
use fos_mono.Graph.Choice.{ChoiceOption, put_choice}
use fos_mono.Graph.Proposal.{ProposalRecord, read_proposal}
use fos_mono.Graph.Edges.{edge_key}
use fos_mono.Graph.Value.{is_field_row}
use fos_mono.Graph.Link.{Host}
use fos_mono.Merge.{ordered_keys, same_edge}

pub record Labels : Type 0 where
  pub ours : String
  pub theirs : String

pub data Outcome : Type 0 where
  node : String → Outcome
  conflict : Outcome

-- The store, and the ids of the choices that were made, the last one in front.
pub record Merging : Type 0 where
  pub store : FosStore
  pub new_choice_cids : List String

-- A merge of two nodes: their base, their ids, whether the node is the top one, and whether it is the
-- value of a field.
abbrev pub Merger : Type 0
Merger = Merging → Option String → String → String → Bool → Bool → Result (Outcome × Merging)

-- `slice(2)`
abbrev pub drop_two : String → String
drop_two (String.◌∷◌ c (String.◌∷◌ d s)) = s
drop_two s = String.[]

abbrev pub choice_id : String → String
choice_id key = if starts_with key "a:" then drop_two key else key

abbrev pub push_edge : Option Edge → List Edge → List Edge
push_edge none out = out
push_edge (some e) out = out ++ (e ∷ [])

abbrev pub timestamp_of : Option ProposalRecord → ℕ
timestamp_of none = 0
timestamp_of (some p) = p.timestamp

module _ (sha3 : Fields × List Edge → String) (h : Host) where
  -- A node's edges by key: a later edge takes the place of an earlier one of the same key.
  unfoldable pub index_edges :
      FosStore → List Edge → List (String × Edge) → Result (List (String × Edge))
  unfolding edge_key
  index_edges store [] m = ok m
  index_edges store (e ∷ edges) m = do
    k ← edge_key sha3 h.branches store e
    index_edges store edges (set_key k e m)

  -- No choice, or one that is edited as a branch.
  unfoldable pub is_mergeable : FosStore → Edge → Result Bool
  unfolding is_choice_edge is_branch_choice content
  is_mergeable store e =
      if is_choice_edge sha3 e
      then (do value ← content store e.1; ok (is_branch_choice sha3 value))
      else ok true

  -- The base of a choice or of a merge: only an edge that is mergeable, of the shape that is asked for.
  unfoldable pub base_edge : FosStore → Option Edge → Result (Option Edge)
  unfolding is_mergeable
  base_edge store none = ok none
  base_edge store (some b) = do fit ← is_mergeable store b; ok (if fit then some b else none)

  unfoldable pub base_identity : FosStore → Option Edge → Edge → Result (Option String)
  unfolding base_edge same_shape identity_cid
  base_identity store none o = ok none
  base_identity store (some b) o =
      if same_shape b o
      then (do
        found ← base_edge store (some b)
        ok (elim found [ none ↦ none | some e ↦ some (identity_cid e) ]))
      else ok none

  abbrev pub is_own_field : FosStore → Option Edge → Bool
  is_own_field store none = false
  is_own_field store (some e) = is_field_row sha3 store e

  abbrev pub option_of : String → Option Edge → ChoiceOption
  option_of peer_id edge = record {
    peer_id = peer_id;
    edge = edge;
    base = none;
    request_merge = none;
  }

  -- The end of a round: the node conflicts as a whole, or the child becomes a choice.
  unfoldable pub raise_choice :
      Labels
      → Merging
      → String
      → Option Edge
      → Option Edge
      → Option Edge
      → Result (Option Edge × Merging)
  unfolding base_edge put_choice is_field_row
  raise_choice labels m key b o t =
      if is_own_field m.store o || is_own_field m.store t then ok (none, m) else (do
        base ← base_edge m.store b
        r ←
            put_choice sha3 m.store (choice_id key) base
              (option_of labels.ours o ∷ option_of labels.theirs t ∷ [])
        ok (
          some (primitive_cid sha3 "choice", r.0),
          record { store = r.1; new_choice_cids = r.0 ∷ m.new_choice_cids },
        ))

  -- Two versions of one peer's submission: the newer one.
  unfoldable pub newer_proposal : FosStore → Edge → Edge → Result Edge
  unfolding read_proposal
  newer_proposal store o t = do
    p ← read_proposal sha3 h.branches store o.1
    q ← read_proposal sha3 h.branches store t.1
    ok (if ltb (timestamp_of p) (timestamp_of q) then t else o)

  -- A child that both sides hold: merged as a node where both are of one shape, else a choice.
  unfoldable pub merge_pair :
      Merger
      → Labels
      → Merging
      → String
      → Option Edge
      → Edge
      → Edge
      → Result (Option Edge × Merging)
  unfolding same_shape is_mergeable base_identity identity_cid with_identity is_field_row
      raise_choice
  merge_pair merge labels m key b o t =
      if not (same_shape o t) then raise_choice labels m key b (some o) (some t) else (do
        fit ← is_mergeable m.store o
        if not fit then raise_choice labels m key b (some o) (some t) else (do
          base ← base_identity m.store b o
          r ← merge m base (identity_cid o) (identity_cid t) false (is_field_row sha3 m.store o)
          elim r.0 [
            | node cid ↦ ok (some (with_identity o cid), r.1)
            | conflict ↦ raise_choice labels r.1 key b (some o) (some t)
          ]))

  -- Both sides changed the child differently; `none` is the conflict of the node itself.
  unfoldable pub merge_clash :
      Merger
      → Labels
      → Merging
      → String
      → Option Edge
      → Option Edge
      → Option Edge
      → Result (Option Edge × Merging)
  unfolding newer_proposal merge_pair raise_choice
  merge_clash merge labels m key b (some o) (some t) =
      if starts_with key "p:"
      then (do e ← newer_proposal m.store o t; ok (some e, m))
      else merge_pair merge labels m key b o t
  merge_clash merge labels m key b o t = raise_choice labels m key b o t

  -- The loop over the ordered keys.
  unfoldable pub merge_keys :
      Merger
      → Labels
      → List (String × Edge)
      → List (String × Edge)
      → List (String × Edge)
      → List String
      → List Edge
      → Merging
      → Result (Option (List Edge) × Merging)
  unfolding same_edge merge_clash
  merge_keys merge labels bs os ts [] out m = ok (some out, m)
  merge_keys merge labels bs os ts (key ∷ rest) out m =
      let b = lookup key bs in
      let o = lookup key os in
      let t = lookup key ts in
      elim (same_edge o t) [
        | true ↦ merge_keys merge labels bs os ts rest (push_edge o out) m
        | false ↦ elim (same_edge b o) [
          | true ↦ merge_keys merge labels bs os ts rest (push_edge t out) m
          | false ↦ elim (same_edge b t) [
            | true ↦ merge_keys merge labels bs os ts rest (push_edge o out) m
            | false ↦ (do
              r ← merge_clash merge labels m key b o t
              elim r.0 [
                | none ↦ ok (none, r.1)
                | some e ↦ merge_keys merge labels bs os ts rest (push_edge (some e) out) r.1
              ])
          ]
        ]
      ]

  -- `mergeChildren`; `none` is its null.
  unfoldable pub merge_children :
      Merger
      → Labels
      → Merging
      → List Edge
      → List Edge
      → List Edge
      → Result (Option (List Edge) × Merging)
  unfolding index_edges ordered_keys merge_keys
  merge_children merge labels m base ours theirs = do
    bs ← index_edges m.store base []
    os ← index_edges m.store ours []
    ts ← index_edges m.store theirs []
    merge_keys merge labels bs os ts (ordered_keys (keys os) (keys ts) (keys bs)) [] m
