-- ===== src/Graph/Root/Commit.antt =====
-- What `commitRoot` makes of the root.
use fos_mono.Common.{
  ℕ, suc, String, Bool, Bool-cases, true, false, List, [], ◌∷◌, Option, Option-cases, none, some,
  ◌==◌, ==_refl, ◌≡◌, refl, inl, inr, arith, has_key, lookup, every, if◌then◌else◌,
}
use fos_mono.Node.{Fields, Edge, NodeContent}
use fos_mono.Cid.{hash_content}
use fos_mono.Cid.Current.{hash_content-is_filled}
use fos_mono.Store.{Table, FosStore, ok, content, put_node, edge_resolves, ◌>>=◌}
use fos_mono.Store.WellFormed.{IsWellFormed, Resolves}
use fos_mono.Graph.Data.{filled, is_set}
use fos_mono.Graph.Grown.{Kept, Grown-keys, put_node-Grown, put_node-Holds, every-append}
use fos_mono.Graph.Primitive.{primitive_cid}
use fos_mono.Graph.Refs.{pointed}
use fos_mono.Graph.Choice.{or_text}
use fos_mono.Graph.Root.{
  RootChange, root_stored_target, root_is_alias, node_links, merge_edges, next_root, is_unchanged,
  commit_root, link_history,
}
use fos_mono.Graph.Root.History.{has_key-pointed, link_history-Kept}

module _ (sha3 : Fields × List Edge → String) where
  -- What a new root names is in the table.
  pub record HasParts (store : FosStore) (c : RootChange) : Type 0 where
    pub root : has_key store.root_node_id store.table ≡ true
    pub wanted : has_key c.target store.table ≡ true
    pub document_root : has_key c.document_root store.table ≡ true
    pub merge_source : (s : String) → c.merge_source ≡ some s → has_key s store.table ≡ true
    pub target : has_key (primitive_cid sha3 "target") store.table ≡ true
    pub instruction : has_key (primitive_cid sha3 "instruction") store.table ≡ true
    pub previous : has_key (primitive_cid sha3 "previous") store.table ≡ true
    pub source : has_key (primitive_cid sha3 "mergeSource") store.table ≡ true

  node_links_lem :
      (store : FosStore) (edges : List Edge)
      → every (edge_resolves store.table) edges ≡ true
      → (links : List Edge) × (node_links sha3 store edges ≡ ok links)
        × (every (edge_resolves store.table) links ≡ true)
  unfolding node_links content
  node_links_lem store [] r = ([], refl, refl)
  node_links_lem store ((i, t) ∷ edges) r = elim (Option-cases (lookup t store.table)) [
    | inl l ↦ absurd (ground arith)
    | inr (v, l) ↦
        let (links, e, k) = node_links_lem store edges (ground arith) in
        elim (Bool-cases (is_set (lookup "nodeLink" v.data_fields))) [
          | inl a ↦ ((i, t) ∷ links, ground (arith, e), ground (arith, k))
          | inr a ↦ (links, ground (arith, e), k)
        ]
  ]

  or_text-key :
      (table : Table) (o : Option String) (s : String)
      → ((r : String) → o ≡ some r → has_key r table ≡ true)
      → has_key s table ≡ true
      → has_key (or_text o s) table ≡ true
  or_text-key table none s f h = h
  or_text-key table (some r) s f h = f r refl

  merge-Resolves :
      (table : Table) (o : Option String)
      → ((r : String) → o ≡ some r → has_key r table ≡ true)
      → has_key (primitive_cid sha3 "mergeSource") table ≡ true
      → every (edge_resolves table) (merge_edges sha3 (filled o)) ≡ true
  merge-Resolves table none f p = refl
  merge-Resolves table (some r) f p = ground (arith, f r refl)

  instruction-key :
      (table : Table) (edges : List Edge) (alias : Bool)
      → every (edge_resolves table) edges ≡ true
      → (r : String) → (if alias then pointed sha3 "instruction" edges else none) ≡ some r
      → has_key r table ≡ true
  instruction-key table edges true h r e = has_key-pointed sha3 table "instruction" r edges h e
  instruction-key table edges false h r e = absurd (ground arith)

  next_root-Resolves :
      (store : FosStore) (c : RootChange) (v : NodeContent) (alias : Bool) (links : List Edge)
      → IsWellFormed sha3 store.table
      → HasParts store c
      → lookup store.root_node_id store.table ≡ some v
      → every (edge_resolves store.table) links ≡ true
      → Resolves store.table (next_root sha3 store c v alias links)
  unfolding next_root
  next_root-Resolves store c v alias links w p l h = ground (
    arith,
    p.wanted,
    p.root,
    p.target,
    p.instruction,
    p.previous,
    merge-Resolves store.table c.merge_source p.merge_source p.source,
    every-append (edge_resolves store.table) (merge_edges sha3 (filled c.merge_source)) links,
    or_text-key store.table (if alias then pointed sha3 "instruction" v.children else none)
        c.document_root (instruction-key store.table v.children alias (w.closed _ v l))
        p.document_root,
  )

  -- The node that a call puts, when it changes the root.
  abbrev pub Puts : FosStore → RootChange → NodeContent → Type 0
  Puts store c v =
      (previous : NodeContent) × (alias : Bool) × (links : List Edge) × (lookup store.root_node_id
          store.table
        ≡ some previous)
      × (root_is_alias sha3 store ≡ ok alias)
      × (node_links sha3 store previous.children ≡ ok links)
      × (v ≡ next_root sha3 store c previous alias links)

  commit_root-Grown :
      (store : FosStore) (c : RootChange) (stored : String) (alias : Bool)
      → IsWellFormed sha3 store.table
      → HasParts store c
      → root_stored_target sha3 store ≡ ok stored
      → root_is_alias sha3 store ≡ ok alias
      → is_unchanged sha3 c stored alias ≡ false
      → (v : NodeContent) × (next : FosStore) × Puts store c v
        × Resolves store.table v
        × (put_node sha3 store v ≡ ok (hash_content sha3 v, next))
        × (commit_root sha3 store c ≡ ok (record next { root_node_id = hash_content sha3 v }))
  unfolding commit_root content
  commit_root-Grown store c stored alias w p s a u =
      elim (Option-cases (lookup store.root_node_id store.table)) [
        | inl l ↦ absurd (ground (arith, p.root))
        | inr (v, l) ↦
            let (links, e, k) = node_links_lem store v.children (w.closed _ v l) in
            let r = next_root-Resolves store c v alias links w p l k in
            let (next, f, g, h) =
              put_node-Grown sha3 store (next_root sha3 store c v alias links) w r in
            (
              next_root sha3 store c v alias links,
              next,
              (v, alias, links, l, a, e, refl),
              r,
              f,
              ground (arith, s, a, e, f),
            )
      ]

  next_root-pointed :
      (store : FosStore) (c : RootChange) (previous : NodeContent) (alias : Bool)
      (links : List Edge)
      → (primitive_cid sha3 "target" == primitive_cid sha3 "previous") ≡ false
      → (primitive_cid sha3 "instruction" == primitive_cid sha3 "previous") ≡ false
      → (pointed sha3 "target" (next_root sha3 store c previous alias links).children
          ≡ some c.target)
        × (pointed sha3 "previous" (next_root sha3 store c previous alias links).children
            ≡ some store.root_node_id)
  unfolding next_root
  next_root-pointed store c previous alias links d e = (
    ground (arith, ==_refl (primitive_cid sha3 "target")),
    ground (arith, d, e, ==_refl (primitive_cid sha3 "previous")),
  )

  -- A `commitRoot` that has something to change returns on a well-formed store that holds what the
  -- new root names. The store stays well formed and keeps every node, its root now points at the given
  -- target, and the history of the new root is the old root followed by the history of the old root.
  -- The ids of the three primitives are different, the old root's is no empty text, and no other content
  -- stands under the id of the new root.
  pub commit_root-link_history :
      (store : FosStore) (c : RootChange) (stored : String) (alias : Bool) (limit : ℕ)
      → IsWellFormed sha3 store.table
      → HasParts store c
      → (primitive_cid sha3 "target" == primitive_cid sha3 "previous") ≡ false
      → (primitive_cid sha3 "instruction" == primitive_cid sha3 "previous") ≡ false
      → (store.root_node_id == "") ≡ false
      → root_stored_target sha3 store ≡ ok stored
      → root_is_alias sha3 store ≡ ok alias
      → is_unchanged sha3 c stored alias ≡ false
      → ((v n : NodeContent)
          → Puts store c v
          → lookup (hash_content sha3 v) store.table ≡ some n
          → n ≡ v)
      → (next : FosStore) × (commit_root sha3 store c ≡ ok next)
        × IsWellFormed sha3 next.table
        × Kept store.table next.table
        × (root_stored_target sha3 next ≡ ok c.target)
        × (link_history sha3 next (suc limit) next.root_node_id ≡ (
            link_history sha3 store limit store.root_node_id >>= λ rest.
            ok (store.root_node_id ∷ rest)))
  unfolding root_stored_target link_history content
  commit_root-link_history store c stored alias limit w p d e n s a u f =
      let (v, next, q, r, put, eq) = commit_root-Grown store c stored alias w p s a u in
      let (g, held) = put_node-Holds sha3 store v next w r put (λ n. f v n q) in
      let (previous, old, links, _, _, _, is) = q in
      let (to, back) = next_root-pointed store c previous old links d e in
      (
        record next { root_node_id = hash_content sha3 v },
        eq,
        g.valid,
        g.kept,
        ground (arith, held, is, to),
        ground (
          arith,
          held,
          hash_content-is_filled sha3 v,
          is,
          back,
          n,
          Grown-keys sha3 store next g store.root_node_id p.root,
          link_history-Kept sha3 store (record next { root_node_id = hash_content sha3 v }) limit
              store.root_node_id w g.kept p.root,
        ),
      )
