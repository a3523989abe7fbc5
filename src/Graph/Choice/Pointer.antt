-- ===== src/Graph/Choice/Pointer.antt =====
-- The pointer nodes of choices, and what reading them gives.
use fos_mono.Common.{
  ==_refl, append-nil, String, Bool, true, false, ◌&&◌, not, List, ◌++◌, Option, none, some, ◌==◌,
  ◌≡◌, refl, arith, lookup,
}
use fos_mono.Node.{Fields, Edge, NodeContent}
use fos_mono.Cid.{hash_content}
use fos_mono.Store.{Table, FosStore, ok, content}
use fos_mono.Graph.Data.{filled}
use fos_mono.Graph.Primitive.{primitive_cid}
use fos_mono.Graph.Refs.{pointed}
use fos_mono.Graph.Choice.{
  ChoiceOption, pointer_content, approve_edges, edge_pointers, both, last_target, read_pointer,
}
use fos_mono.Graph.Choice.Built.{base_edges}

module _ (sha3 : Fields × List Edge → String) where
  abbrev Apart : String → String → Type 0
  Apart a b = (primitive_cid sha3 a == primitive_cid sha3 b) ≡ false

  -- The ids of the primitives that choices are made of are different.
  pub record HasDistinctPrimitives : Type 0 where
    pub instruction_target : Apart "instruction" "target"
    pub instruction_base : Apart "instruction" "base"
    pub instruction_approve : Apart "instruction" "approve"
    pub target_instruction : Apart "target" "instruction"
    pub target_base : Apart "target" "base"
    pub target_approve : Apart "target" "approve"
    pub approve_instruction : Apart "approve" "instruction"
    pub approve_target : Apart "approve" "target"
    pub approve_base : Apart "approve" "base"
    pub base_instruction : Apart "base" "instruction"
    pub base_target : Apart "base" "target"
    pub base_approve : Apart "base" "approve"
    pub base_not_selected : Apart "base" "notSelected"
    pub not_selected_base : Apart "notSelected" "base"

  -- The node stands in the table under the id of its content.
  abbrev pub Holds : Table → NodeContent → Type 0
  Holds table v = lookup (hash_content sha3 v) table ≡ some v

-- An edge, or none, whose ends are no empty texts.
abbrev pub is_edge : Option Edge → Bool
is_edge none = true
is_edge (some (i, t)) = not (i == "") && not (t == "")

-- An option as `readChoice` gives it: a peer with a name, edges with two ends.
pub record IsOption (o : ChoiceOption) : Type 0 where
  pub peer_id : (o.peer_id == "") ≡ false
  pub edge : is_edge o.edge ≡ true
  pub base : is_edge o.base ≡ true
  pub request : filled o.request_merge ≡ o.request_merge

abbrev pub left_of : Option Edge → Option String
left_of none = none
left_of (some (i, t)) = some i

abbrev pub right_of : Option Edge → Option String
right_of none = none
right_of (some (i, t)) = some t

pub both_lem :
    (e : Option Edge) → is_edge e ≡ true → both (filled (left_of e)) (filled (right_of e)) ≡ e
both_lem none h = refl
both_lem (some (i, t)) h = ground arith

module _ (sha3 : Fields × List Edge → String) (d : HasDistinctPrimitives sha3) where
  abbrev pub rows : Option String → Option Edge → List Edge
  rows r b = approve_edges sha3 r ++ base_edges sha3 b

  abbrev pub base_cid : Option Edge → Option String
  base_cid none = none
  base_cid (some e) = some (hash_content sha3 (pointer_content sha3 none (some e)))

  record RowsRead (r : Option String) (b : Option Edge) : Type 0 where
    instruction :
        (found : Option String)
        → last_target (primitive_cid sha3 "instruction") found (rows r b) ≡ found
    target :
        (found : Option String) → last_target (primitive_cid sha3 "target") found (rows r b) ≡ found
    approve : pointed sha3 "approve" (rows r b) ≡ r
    base : pointed sha3 "base" (rows r b) ≡ base_cid b

  rows-read : (r : Option String) (b : Option Edge) → RowsRead r b
  rows-read none none = record {
    instruction = λ f. refl;
    target = λ f. refl;
    approve = refl;
    base = refl;
  }
  rows-read none (some e) = record {
    instruction = λ f. ground (arith, d.base_instruction);
    target = λ f. ground (arith, d.base_target);
    approve = ground (arith, d.base_approve);
    base = ground (arith, ==_refl (primitive_cid sha3 "base"));
  }
  rows-read (some r) none = record {
    instruction = λ f. ground (arith, d.approve_instruction);
    target = λ f. ground (arith, d.approve_target);
    approve = ground (arith, ==_refl (primitive_cid sha3 "approve"));
    base = ground (arith, d.approve_base);
  }
  rows-read (some r) (some e) = record {
    instruction = λ f. ground (arith, d.approve_instruction, d.base_instruction);
    target = λ f. ground (arith, d.approve_target, d.base_target);
    approve = ground (arith, ==_refl (primitive_cid sha3 "approve"));
    base = ground (arith, d.approve_base, ==_refl (primitive_cid sha3 "base"));
  }

  pub record PointerRead (e : Option Edge) (r : Option String) (b : Option Edge) : Type 0 where
    pub instruction :
        last_target (primitive_cid sha3 "instruction") none (edge_pointers sha3 e ++ rows r b)
        ≡ left_of e
    pub target :
        last_target (primitive_cid sha3 "target") none (edge_pointers sha3 e ++ rows r b)
        ≡ right_of e
    pub approve : pointed sha3 "approve" (edge_pointers sha3 e ++ rows r b) ≡ r
    pub base : pointed sha3 "base" (edge_pointers sha3 e ++ rows r b) ≡ base_cid b

  pub pointer-read : (e : Option Edge) (r : Option String) (b : Option Edge) → PointerRead e r b
  pointer-read none r b =
      let x = rows-read r b in
      record {
        instruction = x.instruction none;
        target = x.target none;
        approve = x.approve;
        base = x.base;
      }
  pointer-read (some (i, t)) r b =
      let x = rows-read r b in
      record {
        instruction = ground (
          arith,
          ==_refl (primitive_cid sha3 "instruction"),
          d.target_instruction,
          x.instruction (some i),
        );
        target =
            ground (
              arith,
              ==_refl (primitive_cid sha3 "target"),
              d.instruction_target,
              x.target (some t),
            );
        approve = ground (arith, d.instruction_approve, d.target_approve, x.approve);
        base = ground (arith, d.instruction_base, d.target_base, x.base);
      }

  pub read_pointer-base :
      (store : FosStore) (e : Option Edge)
      → is_edge e ≡ true
      → Holds sha3 store.table (pointer_content sha3 none e)
      → read_pointer sha3 store (hash_content sha3 (pointer_content sha3 none e)) ≡ ok (none, e)
  unfolding read_pointer content pointer_content
  read_pointer-base store e h k =
      let x = pointer-read e none none in
      ground (arith, k, append-nil (edge_pointers sha3 e), x.instruction, x.target, both_lem e h)
