-- ===== src/Graph/Choice/Built.antt =====
-- The nodes that `putChoice` makes, as contents, and that it puts them.
use fos_mono.Common.{
  String, Bool, true, List, [], ◌∷◌, ◌++◌, Option, none, some, ◌≡◌, refl, arith, every, has_key,
  map,
}
use fos_mono.Node.{Fields, Edge, NodeContent}
use fos_mono.Cid.{hash_content}
use fos_mono.Store.{Table, edge_resolves}
use fos_mono.Store.WellFormed.{Resolves}
use fos_mono.Graph.Data.{filled}
use fos_mono.Graph.Grown.{KeepsKeys, every-append}
use fos_mono.Graph.Primitive.{primitive_cid}
use fos_mono.Graph.Choice.{
  ChoiceOption, pointer_content, option_node, approve_edges, edge_pointers, choice_data,
  alternative, sort_cids,
}

module _ (sha3 : Fields × List Edge → String) where
  abbrev pub base_edges : Option Edge → List Edge
  base_edges none = []
  base_edges (some e) =
      (primitive_cid sha3 "base", hash_content sha3 (pointer_content sha3 none (some e))) ∷ []

  abbrev pub option_content : ChoiceOption → NodeContent
  option_content o = option_node sha3 o (base_edges o.base)

  abbrev pub option_cid : ChoiceOption → String
  option_cid o = hash_content sha3 (option_content o)

  abbrev pub choice_content : String → Option Edge → List ChoiceOption → NodeContent
  choice_content id base options = record {
    data_fields = choice_data sha3 id;
    children =
        (primitive_cid sha3 "base", hash_content sha3 (pointer_content sha3 none base))
        ∷ map (alternative sha3) (sort_cids (map option_cid options));
  }

  -- The primitives that choices are made of are nodes of the table.
  pub record HasPrimitives (table : Table) : Type 0 where
    pub instruction : has_key (primitive_cid sha3 "instruction") table ≡ true
    pub target : has_key (primitive_cid sha3 "target") table ≡ true
    pub base : has_key (primitive_cid sha3 "base") table ≡ true
    pub approve : has_key (primitive_cid sha3 "approve") table ≡ true
    pub not_selected : has_key (primitive_cid sha3 "notSelected") table ≡ true

abbrev pub has_ends : Table → Option Edge → Bool
has_ends table none = true
has_ends table (some e) = edge_resolves table e

abbrev pub has_request : Table → Option String → Bool
has_request table none = true
has_request table (some r) = has_key r table

-- What an option names is in the table.
pub record Known (table : Table) (o : ChoiceOption) : Type 0 where
  pub edge : has_ends table o.edge ≡ true
  pub base : has_ends table o.base ≡ true
  pub request : has_request table (filled o.request_merge) ≡ true

pub has_ends-kept :
    (s t : Table) (e : Option Edge) → KeepsKeys s t → has_ends s e ≡ true → has_ends t e ≡ true
has_ends-kept s t none k h = refl
has_ends-kept s t (some (i, j)) k h = ground (arith, k i, k j)

pub has_request-kept :
    (s t : Table) (r : Option String)
    → KeepsKeys s t
    → has_request s r ≡ true
    → has_request t r ≡ true
has_request-kept s t none k h = refl
has_request-kept s t (some r) k h = k r h

pub Known-kept : (s t : Table) (o : ChoiceOption) → KeepsKeys s t → Known s o → Known t o
Known-kept s t o k x = record {
  edge = has_ends-kept s t o.edge k x.edge;
  base = has_ends-kept s t o.base k x.base;
  request = has_request-kept s t (filled o.request_merge) k x.request;
}

module _ (sha3 : Fields × List Edge → String) where
  pub HasPrimitives-kept :
      (s t : Table) → KeepsKeys s t → HasPrimitives sha3 s → HasPrimitives sha3 t
  HasPrimitives-kept s t k p = record {
    instruction = k _ p.instruction;
    target = k _ p.target;
    base = k _ p.base;
    approve = k _ p.approve;
    not_selected = k _ p.not_selected;
  }

  pub pointer-Resolves :
      (table : Table) (peer_id : Option String) (edge : Option Edge)
      → HasPrimitives sha3 table
      → has_ends table edge ≡ true
      → Resolves table (pointer_content sha3 peer_id edge)
  unfolding pointer_content
  pointer-Resolves table peer_id none p h = refl
  pointer-Resolves table peer_id (some (i, t)) p h = ground (arith, p.instruction, p.target)

  pub approve-Resolves :
      (table : Table) (r : Option String)
      → HasPrimitives sha3 table
      → has_request table r ≡ true
      → every (edge_resolves table) (approve_edges sha3 r) ≡ true
  approve-Resolves table none p h = refl
  approve-Resolves table (some r) p h = ground (arith, p.approve)

  pub option-Resolves :
      (table : Table) (o : ChoiceOption) (rows : List Edge)
      → HasPrimitives sha3 table
      → Known table o
      → every (edge_resolves table) rows ≡ true
      → Resolves table (option_node sha3 o rows)
  unfolding pointer_content
  option-Resolves table o rows p x h = ground (
    arith,
    every-append (edge_resolves table) (edge_pointers sha3 o.edge)
        (approve_edges sha3 (filled o.request_merge) ++ rows),
    every-append (edge_resolves table) (approve_edges sha3 (filled o.request_merge)) rows,
    pointer-Resolves table none o.edge p x.edge,
    approve-Resolves table (filled o.request_merge) p x.request,
  )

  -- The pointer node of a base is in the table, when there is a base.
  abbrev pub has_base : Table → Option Edge → Bool
  has_base table none = true
  has_base table (some e) = has_key (hash_content sha3 (pointer_content sha3 none (some e))) table

  pub has_base-kept :
      (s t : Table) (b : Option Edge) → KeepsKeys s t → has_base s b ≡ true → has_base t b ≡ true
  has_base-kept s t none k h = refl
  has_base-kept s t (some e) k h = k _ h
