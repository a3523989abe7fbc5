-- ===== src/Graph/Choice.antt =====
-- Choice nodes, shared/sync/graph.ts lines 907-940 and 956-996: a divergence with its base and its
-- options, each option a pointer node.
pub mod Built
pub mod Put
pub mod Sorted
pub mod Pointer
pub mod Read
use Prim.Native.String.{compare}
use text.Mathlib.Text.{is_lt}
use fos_mono.Common.{
  ℕ, zero, suc, String, Bool, true, false, not, List, [], ◌∷◌, ◌++◌, Option, none, some, ◌==◌, find,
  lookup, has_key, set_key, map, if◌then◌else◌,
}
use fos_mono.Node.{Json, num, str, obj, Fields, end, field, Data, Edge, NodeContent}
use fos_mono.Cid.{hash_content}
use fos_mono.Store.{Table, FosStore, Result, ok, content, put_node, ◌>>=◌, ◌>>◌}
use fos_mono.Graph.Data.{member, text_at, filled, is_filled, with_alias, alias_id_of}
use fos_mono.Graph.Primitive.{primitive_cid}
use fos_mono.Graph.Refs.{left_is, pointed}

-- `edge`, `base` and `requestMerge` are null or undefined as `none`.
pub record ChoiceOption : Type 0 where
  pub peer_id : String
  pub edge : Option Edge
  pub base : Option Edge
  pub request_merge : Option String

pub record ChoiceRecord : Type 0 where
  pub default_name : Option String
  pub cid : String
  pub id : String
  pub base : Option Edge
  pub options : List ChoiceOption

abbrev pub or_text : Option String → String → String
or_text none s = s
or_text (some r) s = r

-- `instr && target ? [instr, target] : null`
abbrev pub both : Option String → Option String → Option Edge
both (some i) (some t) = some (i, t)
both _ _ = none

-- The last of the edges whose left has the id.
abbrev pub last_target : String → Option String → List Edge → Option String
last_target left found [] = found
last_target left found ((i, t) ∷ edges) =
    last_target left (if i == left then some t else found) edges

abbrev pub peer_data : Option String → Data
peer_data none = []
peer_data (some peer_id) = ("peerId", obj (field "content" (str peer_id) end)) ∷ []

-- `sort` of ids: code units are compared as code points.
unfoldable pub insert_cid : String → List String → List String
insert_cid c [] = c ∷ []
insert_cid c (d ∷ cids) = if is_lt (compare d c) then d ∷ insert_cid c cids else c ∷ d ∷ cids

unfoldable pub sort_cids : List String → List String
unfolding insert_cid
sort_cids [] = []
sort_cids (c ∷ cids) = insert_cid c (sort_cids cids)

-- `options[selectedIndex ?? 0]?.peerId`
abbrev pub nth_peer : ℕ → List ChoiceOption → Option String
nth_peer n [] = none
nth_peer zero (o ∷ options) = some o.peer_id
nth_peer (suc n) (o ∷ options) = nth_peer n options

abbrev pub peer_at : Option Json → List ChoiceOption → Option String
peer_at none options = nth_peer 0 options
peer_at (some (num n)) options = nth_peer n options
peer_at (some v) options = none

module _ (sha3 : Fields × List Edge → String) where
  abbrev pub edge_pointers : Option Edge → List Edge
  edge_pointers none = []
  edge_pointers (some (i, t)) =
      (primitive_cid sha3 "instruction", i) ∷ (primitive_cid sha3 "target", t) ∷ []

  unfoldable pub pointer_content : Option String → Option Edge → NodeContent
  pointer_content peer_id edge = record {
    data_fields = peer_data (filled peer_id);
    children = edge_pointers edge;
  }

  unfoldable pub read_pointer : FosStore → String → Result (Option String × Option Edge)
  unfolding content
  read_pointer store cid = do
    value ← content store cid
    ok (
      text_at "peerId" "content" value,
      both (filled (last_target (primitive_cid sha3 "instruction") none value.children))
          (filled (last_target (primitive_cid sha3 "target") none value.children)),
    )

  abbrev pub approve_edges : Option String → List Edge
  approve_edges none = []
  approve_edges (some request) = (primitive_cid sha3 "approve", request) ∷ []

  -- The pointer of an option before its base: its peer, its edge and its request to merge.
  abbrev pub option_node : ChoiceOption → List Edge → NodeContent
  option_node o base_edges =
      let p = pointer_content (some o.peer_id) o.edge in
      record p { children = p.children ++ (approve_edges (filled o.request_merge) ++ base_edges) }

  -- The base of an option is a pointer node of its own.
  unfoldable pub put_option : FosStore → ChoiceOption → Option Edge → Result (String × FosStore)
  unfolding pointer_content put_node
  put_option store o none = put_node sha3 store (option_node o [])
  put_option store o (some e) = do
    b ← put_node sha3 store (pointer_content none (some e))
    put_node sha3 b.1 (option_node o ((primitive_cid sha3 "base", b.0) ∷ []))

  unfoldable pub put_options : FosStore → List ChoiceOption → Result (List String × FosStore)
  unfolding put_option
  put_options store [] = ok ([], store)
  put_options store (o ∷ options) = do
    r ← put_option store o o.base
    rest ← put_options r.1 options
    ok (r.0 ∷ rest.0, rest.1)

  abbrev pub alternative : String → Edge
  alternative cid = (primitive_cid sha3 "notSelected", cid)

  abbrev pub choice_data : String → Data
  choice_data id =
      ("alias", with_alias id)
      ∷ ("conflict", obj (field "path" (str id) end))
      ∷ (
        "option",
        obj (field "selectedIndex" (num 0) (field "defaultResolutionStrategy" (str "choice") end)),
      )
      ∷ []

  unfoldable pub put_choice :
      FosStore → String → Option Edge → List ChoiceOption → Result (String × FosStore)
  unfolding put_options sort_cids pointer_content put_node
  put_choice store id base options = do
    alternatives ← put_options store options
    b ← put_node sha3 alternatives.1 (pointer_content none base)
    put_node sha3 b.1 (record {
      data_fields = choice_data id;
      children = (primitive_cid sha3 "base", b.0) ∷ map alternative (sort_cids alternatives.0);
    })

  -- The base of an option, when it has one.
  abbrev pub read_base : FosStore → Option String → Result (Option Edge)
  read_base store none = ok none
  read_base store (some cid) = do pointer ← read_pointer store cid; ok pointer.1

  unfoldable pub read_option : FosStore → String → Result ChoiceOption
  unfolding read_pointer content
  read_option store target = do
    pointer ← read_pointer store target
    value ← content store target
    base ← read_base store (pointed sha3 "base" value.children)
    ok (record {
      peer_id = or_text pointer.0 "unknown";
      edge = pointer.1;
      base = base;
      request_merge = filled (pointed sha3 "approve" value.children);
    })

  -- The loop of `readChoice`.
  unfoldable pub read_options :
      FosStore
      → List Edge
      → Option Edge
      → List ChoiceOption
      → Result (Option Edge × List ChoiceOption)
  unfolding read_option read_pointer
  read_options store [] base options = ok (base, options)
  read_options store (e ∷ edges) base options =
      if left_is sha3 "base" e
      then (do pointer ← read_pointer store e.1; read_options store edges pointer.1 options)
      else if left_is sha3 "notSelected" e
      then (do o ← read_option store e.1; read_options store edges base (options ++ (o ∷ [])))
      else read_options store edges base options

  unfoldable pub read_choice : FosStore → String → Result ChoiceRecord
  unfolding read_options content alias_id_of
  read_choice store choice_cid = do
    value ← content store choice_cid
    r ← read_options store value.children none []
    ok (record {
      default_name = peer_at (member "selectedIndex" (lookup "option" value.data_fields)) r.1;
      cid = choice_cid;
      id = or_text (alias_id_of value) choice_cid;
      base = r.0;
      options = r.1;
    })
