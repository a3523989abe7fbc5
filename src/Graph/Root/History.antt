-- ===== src/Graph/Root/History.antt =====
-- The versions that `linkHistory` lists.
use fos_mono.Common.{
  ℕ, zero, suc, ◌≤◌, String, Bool-cases, true, List, [], ◌∷◌, Option-cases, some, ◌==◌, ◌≡◌, refl,
  inl, inr, arith, length, has_key, lookup, every,
}
use fos_mono.Node.{Fields, Edge, NodeContent}
use fos_mono.Store.{Table, FosStore, ok, content, edge_resolves}
use fos_mono.Store.WellFormed.{IsWellFormed}
use fos_mono.Graph.Data.{filled}
use fos_mono.Graph.Grown.{Kept, KeepsKeys-of_Kept}
use fos_mono.Graph.Refs.{pointed}
use fos_mono.Graph.Root.{link_history}

module _ (sha3 : Fields × List Edge → String) where
  -- Each version is the one before the version in front of it.
  pub data IsChain (table : Table) : String → List String → Type 0 where
    stop : (c : String) → IsChain table c []
    previous :
        (c p : String) (v : NodeContent) (rest : List String)
        → lookup c table ≡ some v
        → pointed sha3 "previous" v.children ≡ some p
        → has_key p table ≡ true
        → IsChain table p rest
        → IsChain table c (p ∷ rest)

  pub has_key-pointed :
      (table : Table) (name p : String) (edges : List Edge)
      → every (edge_resolves table) edges ≡ true
      → pointed sha3 name edges ≡ some p
      → has_key p table ≡ true
  has_key-pointed table name p [] r h = absurd (ground arith)
  has_key-pointed table name p ((i, t) ∷ edges) r h =
      ground (arith, has_key-pointed table name p edges)

  -- On a well-formed store `linkHistory` of a node returns at most as many versions as the limit, each
  -- of them a node of the store that the version in front of it names as its first previous one.
  pub link_history-IsChain :
      (store : FosStore) (limit : ℕ) (cid : String)
      → IsWellFormed sha3 store.table
      → has_key cid store.table ≡ true
      → (out : List String) × (link_history sha3 store limit cid ≡ ok out)
        × (length out ≤ limit)
        × IsChain store.table cid out
  unfolding link_history content
  link_history-IsChain store zero cid w h = ([], refl, omega arith, stop cid)
  link_history-IsChain store (suc limit) cid w h = elim (Bool-cases (cid == "")) [
    | inl e ↦ ([], ground arith, omega arith, stop cid)
    | inr n ↦ elim (Option-cases (lookup cid store.table)) [
      | inl l ↦ absurd (ground arith)
      | inr (v, l) ↦ elim (Option-cases (filled (pointed sha3 "previous" v.children))) [
        | inl q ↦ ([], ground arith, omega arith, stop cid)
        | inr (p, q) ↦
            let is : pointed sha3 "previous" v.children ≡ some p = ground arith in
            let there = has_key-pointed store.table "previous" p v.children (w.closed cid v l) is in
            let (out, e, b, x) = link_history-IsChain store limit p w there in
            (p ∷ out, ground (arith, e), omega (arith, b), previous cid p v out l is there x)
      ]
    ]
  ]

  -- The history of a node is the same in a store that keeps the nodes.
  pub link_history-Kept :
      (store next : FosStore) (limit : ℕ) (cid : String)
      → IsWellFormed sha3 store.table
      → Kept store.table next.table
      → has_key cid store.table ≡ true
      → link_history sha3 next limit cid ≡ link_history sha3 store limit cid
  unfolding link_history content
  link_history-Kept store next zero cid w k h = refl
  link_history-Kept store next (suc limit) cid w k h = elim (Bool-cases (cid == "")) [
    | inl e ↦ ground arith
    | inr n ↦ elim (Option-cases (lookup cid store.table)) [
      | inl l ↦ absurd (ground arith)
      | inr (v, l) ↦ elim (Option-cases (filled (pointed sha3 "previous" v.children))) [
        | inl q ↦ ground (arith, k cid v l)
        | inr (p, q) ↦
            let there =
              has_key-pointed store.table "previous" p v.children (w.closed cid v l)
                (ground arith) in
            ground (
              arith,
              k cid v l,
              there,
              KeepsKeys-of_Kept store.table next.table k p there,
              link_history-Kept store next limit p w k there,
            )
      ]
    ]
  ]
