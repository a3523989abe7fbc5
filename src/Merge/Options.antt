-- ===== src/Merge/Options.antt =====
-- The merge of two branch choices, option by option, shared/sync/merge.ts lines 85-120.
use fos_mono.Common.{
  String, Bool, true, false, ◌&&◌, not, List, [], ◌∷◌, ◌++◌, Option, none, some, opt_eq,
  if◌then◌else◌,
}
use fos_mono.Node.{Fields, Edge}
use fos_mono.Store.{FosStore, Result, ok, ◌>>=◌}
use fos_mono.Graph.Data.{filled}
use fos_mono.Graph.Refs.{same_shape, identity_cid, with_identity}
use fos_mono.Graph.Choice.{ChoiceOption, ChoiceRecord, or_text, read_choice}
use fos_mono.Graph.Branch.{named, or_else, edge_of, put_branches}
use fos_mono.Graph.Link.{Host}
use fos_mono.Merge.{distinct}
use fos_mono.Merge.Children.{Outcome, node, conflict, Merging, Merger}

abbrev pub request_of : Option ChoiceOption → Option String
request_of none = none
request_of (some o) = o.request_merge

abbrev pub names_of : List ChoiceOption → List String
names_of [] = []
names_of (o ∷ options) = o.peer_id ∷ names_of options

abbrev pub options_of : Option ChoiceRecord → List ChoiceOption
options_of none = []
options_of (some c) = c.options

abbrev pub identity_of : Option Edge → Option String
identity_of none = none
identity_of (some e) = some (identity_cid e)

abbrev pub base_of : Option ChoiceRecord → Option Edge
base_of none = none
base_of (some c) = c.base

abbrev pub default_of : Option ChoiceRecord → Option String
default_of none = none
default_of (some c) = c.default_name

-- What the request of an option becomes, when no merge of requests is needed.
abbrev pub kept_request : Option String → Option String → Option String → Option String
kept_request before o t = if opt_eq o before then t else o

abbrev pub requests_differ : Option String → Option String → Option String → Bool
requests_differ before o t = not (opt_eq o before) && (not (opt_eq t before) && not (opt_eq o t))

-- An option that both sides hold with an edge each.
pub record Pair : Type 0 where
  pub mine : ChoiceOption
  pub other : ChoiceOption
  pub our_edge : Edge
  pub their_edge : Edge

abbrev pub both_edges :
    Option ChoiceOption → Option ChoiceOption → Option Edge → Option Edge → Option Pair
both_edges (some mine) (some other) (some oe) (some te) =
    some (record { mine = mine; other = other; our_edge = oe; their_edge = te })
both_edges _ _ _ _ = none

module _ (sha3 : Fields × List Edge → String) (h : Host) where
  unfoldable pub lift : ChoiceRecord → String → Edge → Merging → String → Result (String × Merging)
  unfolding put_branches with_identity
  lift choice name main_edge m cid = do
    r ←
        put_branches sha3 m.store choice.id choice.base
          (record {
            peer_id = name;
            edge = some (with_identity main_edge cid);
            base = none;
            request_merge = none;
          }
            ∷ [])
          (or_text choice.default_name "main")
    ok (r.0, record m { store = r.1 })

  abbrev pub lift_unless :
      Bool → ChoiceRecord → String → Edge → Merging → String → Result (String × Merging)
  lift_unless true choice name main_edge m cid = ok (cid, m)
  lift_unless false choice name main_edge m cid = lift choice name main_edge m cid

  -- The base is lifted when there is one and it is no branch choice.
  abbrev pub lift_base :
      Bool
      → ChoiceRecord
      → String
      → Edge
      → Merging
      → Option String
      → Result (Option String × Merging)
  lift_base branched choice name main_edge m none = ok (none, m)
  lift_base branched choice name main_edge m (some cid) = do
    r ← lift_unless branched choice name main_edge m cid
    ok (some r.0, r.1)

  -- The requests to merge of an option that both sides hold; `none` is a conflict.
  unfoldable pub merge_requests :
      Merger
      → Merging
      → Option String
      → Option String
      → Option String
      → Result (Option (Option String) × Merging)
  merge_requests merge m before o t =
      if requests_differ before o t
      then elim (filled o) [
        | none ↦ ok (none, m)
        | some mine ↦ elim (filled t) [
          | none ↦ ok (none, m)
          | some other ↦ (do
            r ← merge m before mine other false false
            elim r.0 [ node cid ↦ ok (some (some cid), r.1) | conflict ↦ ok (none, r.1) ])
        ]
      ]
      else ok (some (kept_request before o t), m)

  -- An option that both sides hold with an edge.
  unfoldable pub merge_option :
      Merger
      → Merging
      → Option ChoiceOption
      → ChoiceOption
      → ChoiceOption
      → Edge
      → Edge
      → Result (Option ChoiceOption × Merging)
  unfolding same_shape identity_cid with_identity merge_requests
  merge_option merge m b oo tt oe te = if not (same_shape oe te) then ok (none, m) else (do
    merged ← merge m (identity_of (edge_of b)) (identity_cid oe) (identity_cid te) false false
    elim merged.0 [
      | conflict ↦ ok (none, merged.1)
      | node cid ↦ (do
        request ← merge_requests merge merged.1 (request_of b) oo.request_merge tt.request_merge
        ok (
          elim request.0 [
            | none ↦ none
            | some r ↦ some (record oo { edge = some (with_identity oe cid); request_merge = r })
          ],
          request.1,
        ))
    ])

  -- An option that one side holds, or that has an edge on one side only.
  abbrev pub one_sided : Option ChoiceOption → Option ChoiceOption → List ChoiceOption
  one_sided oo tt = elim (or_else (edge_of oo) (edge_of tt)) [
    | none ↦ []
    | some e ↦ elim (or_else oo tt) [ none ↦ [] | some o ↦ record o { edge = some e } ∷ [] ]
  ]

  -- The loop over the names of both sides' options; `none` is a conflict.
  unfoldable pub merge_options :
      Merger
      → List ChoiceOption
      → List ChoiceOption
      → List ChoiceOption
      → List String
      → List ChoiceOption
      → Merging
      → Result (Option (List ChoiceOption) × Merging)
  unfolding merge_option
  merge_options merge bs os ts [] out m = ok (some out, m)
  merge_options merge bs os ts (name ∷ names) out m =
      let oo = named (some name) os in
      let tt = named (some name) ts in
      elim (both_edges oo tt (edge_of oo) (edge_of tt)) [
        | none ↦ merge_options merge bs os ts names (out ++ one_sided oo tt) m
        | some p ↦ (do
          r ← merge_option merge m (named (some name) bs) p.mine p.other p.our_edge p.their_edge
          elim r.0 [
            | none ↦ ok (none, r.1)
            | some o ↦ merge_options merge bs os ts names (out ++ (o ∷ [])) r.1
          ])
      ]

  abbrev pub read_base_choice : FosStore → Option String → Bool → Result (Option ChoiceRecord)
  read_base_choice store (some cid) true = do choice ← read_choice sha3 store cid; ok (some choice)
  read_base_choice store _ _ = ok none

  -- Both versions are branch choices.
  unfoldable pub merge_branches :
      Merger → Merging → Option String → Bool → String → String → Result (Outcome × Merging)
  unfolding read_choice merge_options distinct put_branches
  merge_branches merge m base branched ours theirs = do
    o ← read_choice sha3 m.store ours
    t ← read_choice sha3 m.store theirs
    b ← read_base_choice m.store base branched
    r ←
        merge_options merge (options_of b) o.options t.options
          (distinct [] (names_of (o.options ++ t.options))) [] m
    elim r.0 [
      | none ↦ ok (conflict, r.1)
      | some options ↦ (do
        put ←
            put_branches sha3 r.1.store o.id (or_else (base_of b) o.base) options
              (or_text (or_else (default_of b) o.default_name) "main")
        ok (node put.0, record r.1 { store = put.1 }))
    ]
