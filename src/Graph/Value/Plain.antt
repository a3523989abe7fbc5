-- ===== src/Graph/Value/Plain.antt =====
-- A text node is its own value, and its text is read back.
use fos_mono.Common.{
  ℕ, suc, String, false, List, none, some, ◌≡◌, refl, arith, lookup, String_discrete,
}
use fos_mono.Node.{Fields, Edge, NodeContent}
use fos_mono.Cid.{hash_content}
use fos_mono.Store.{FosStore, ok}
use fos_mono.Graph.Primitive.{primitive_name, text_node}
use fos_mono.Graph.Refs.{is_branch_choice, is_ref_node}
use fos_mono.Graph.Branch.{Branches}
use fos_mono.Graph.Value.{text_of, value_of, leaf_holder, scalar_text}
use fos_mono.Graph.Choice.Pointer.{Holds}

module _ (sha3 : Fields × List Edge → String) (b : Branches) where
  text_node-plain :
      (s : String)
      → (is_branch_choice sha3 (text_node s) ≡ false)
        × (is_ref_node sha3 (text_node s) ≡ false)
        × (scalar_text (text_node s) ≡ some s)
  unfolding is_branch_choice is_ref_node String_discrete
  text_node-plain s = (refl, refl, refl)

  primitive_name-text_node :
      (store : FosStore) (s : String)
      → Holds sha3 store.table (text_node s)
      → primitive_name store (hash_content sha3 (text_node s)) ≡ none
  unfolding primitive_name
  primitive_name-text_node store s h = ground (arith, h)

  value_of-plain :
      (store : FosStore) (fuel : ℕ) (cid : String) (v : NodeContent)
      → lookup cid store.table ≡ some v
      → is_branch_choice sha3 v ≡ false
      → is_ref_node sha3 v ≡ false
      → value_of sha3 b store (suc fuel) cid ≡ ok cid
  unfolding value_of
  value_of-plain store fuel cid v l p q = ground arith

  leaf_holder-plain :
      (store : FosStore) (cid : String) (v : NodeContent)
      → lookup cid store.table ≡ some v
      → is_branch_choice sha3 v ≡ false
      → is_ref_node sha3 v ≡ false
      → primitive_name store cid ≡ none
      → leaf_holder sha3 b store cid ≡ ok (some v)
  unfolding leaf_holder
  leaf_holder-plain store cid v l p q n = rw (value_of-plain store 32 cid v l p q, n, l) refl

  pub text_of-text_node :
      (store : FosStore) (s : String)
      → Holds sha3 store.table (text_node s)
      → text_of sha3 b store (hash_content sha3 (text_node s)) ≡ ok (some s)
  unfolding text_of
  text_of-text_node store s h =
      let (p, q, r) = text_node-plain s in
      ground (
        arith,
        leaf_holder-plain store (hash_content sha3 (text_node s)) (text_node s) h p q
            (primitive_name-text_node store s h),
        r,
      )
