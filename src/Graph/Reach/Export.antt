-- ===== src/Graph/Reach/Export.antt =====
-- An exported context loads again: `exportReachableContext` against `storeOf`.
use fos_mono.Common.{
  String, Bool, Bool-cases, true, List, [], ◌∷◌, Option, Option-cases, none, some, ◌==◌, ◌≡◌, refl,
  inl, inr, arith, All, every, has_key, lookup, set_key, lookup-set_key, HasDistinctKeys,
  set_key-HasDistinctKeys, if◌then◌else◌,
}
use fos_mono.Node.{Fields, Edge, NodeContent}
use fos_mono.Cid.{codes, is_digest, is_current_cid, hash_content}
use fos_mono.Cid.Current.{hash_content-is_current_cid}
use fos_mono.Store.{Table, FosStore, ok, check_nodes, load_nodes, store_of, edge_resolves}
use fos_mono.Store.WellFormed.{IsWellFormed, Resolves, check_edges_iff}
use fos_mono.Graph.Reach.{Context, export_reachable_context, has_node}
use fos_mono.Graph.Reach.Steps.{has_end}
use fos_mono.Graph.Reach.Invariant.{Reaches, edge, root}
use fos_mono.Graph.Reach.Complete.{
  has_key-Reaches, is_root, has_key-is_root, IsReached, reachable_nodes-IsReached,
}

All-of_lookup {ℓ} :
    (P : String × NodeContent → Type ℓ) (table : Table)
    → HasDistinctKeys table
    → ((c : String) (v : NodeContent) → lookup c table ≡ some v → P (c, v))
    → All P table
All-of_lookup P [] d f = tt
All-of_lookup P ((c, v) ∷ table) d f = (
  f c v (ground arith),
  All-of_lookup P table d.1 (λ k w h. elim (Bool-cases (c == k)) [
    | inl e ↦ absurd (ground (arith, d.0))
    | inr n ↦ f k w (ground arith)
  ]),
)

every-of_has_end :
    (table : Table) (edges : List Edge)
    → ((d : String) → has_end d edges ≡ true → has_key d table ≡ true)
    → every (edge_resolves table) edges ≡ true
every-of_has_end table [] f = refl
every-of_has_end table ((i, t) ∷ edges) f = ground (
  arith,
  f i (ground arith),
  f t (ground arith),
  every-of_has_end table edges (λ d h. f d (ground arith)),
)

loaded_as :
    (c : String) (nodes loaded : Table)
    → lookup c loaded ≡ (if has_key c nodes then lookup c nodes else none)
    → lookup c loaded ≡ lookup c nodes
loaded_as c nodes loaded h = ground arith

Reaches-mono :
    (table : Table) (roots others : String → Bool)
    → ((c : String) → roots c ≡ true → others c ≡ true)
    → (c : String) → Reaches table roots c
    → Reaches table others c
Reaches-mono table roots others f c (root _ h) = root c (f c h)
Reaches-mono table roots others f d (edge c _ v r l h) =
    edge c d v (Reaches-mono table roots others f c r) l h

check_nodes_lem :
    (table nodes : Table) → All (λ e. Resolves table e.1) nodes → check_nodes table nodes ≡ ok tt
unfolding check_nodes
check_nodes_lem table [] h = refl
check_nodes_lem table ((c, v) ∷ nodes) h =
    ground (arith, check_edges_iff table v.children, h.0, check_nodes_lem table nodes h.1)

module _ (sha3 : Fields × List Edge → String) where
  abbrev IsAddressed : String × NodeContent → Type 0
  IsAddressed e = (is_current_cid e.0 ≡ true) × (hash_content sha3 e.1 ≡ e.0)

  load_nodes_lem :
      (table nodes : Table)
      → HasDistinctKeys table
      → HasDistinctKeys nodes
      → All IsAddressed nodes
      → (loaded : Table) × (load_nodes sha3 table nodes ≡ ok loaded)
        × HasDistinctKeys loaded
        × ((c : String)
            → lookup c loaded ≡ (if has_key c nodes then lookup c nodes else lookup c table))
  unfolding load_nodes
  load_nodes_lem table [] d e h = (table, refl, d, λ c. refl)
  load_nodes_lem table ((k, v) ∷ nodes) d e h =
      let (loaded, eq, x, f) =
        load_nodes_lem (set_key k v table) nodes (set_key-HasDistinctKeys k v table d) e.1 h.1 in
      (
        loaded,
        ground (arith, eq, h.0.0, h.0.1),
        x,
        λ c. ground (arith, f c, lookup-set_key k c v table, e.0),
      )

  reached-IsAddressed :
      ((x : Fields × List Edge) → is_digest (codes (sha3 x)) ≡ true)
      → (store : FosStore) (roots : String → Bool) (nodes : Table) → IsWellFormed sha3 store.table
      → IsReached sha3 store roots [] nodes
      → All IsAddressed nodes
  reached-IsAddressed hex store roots nodes w x =
      All-of_lookup IsAddressed nodes x.distinct (λ c v h.
        let same = w.addressed c v ((x.exact c v).0 h).2 in
        (rw same at (hash_content-is_current_cid sha3 hex v), same))

  has_key-reached :
      (store : FosStore) (roots : String → Bool) (nodes : Table)
      → IsReached sha3 store roots [] nodes
      → (d : String) → Reaches store.table roots d
      → has_key d store.table ≡ true
      → has_key d nodes ≡ true
  has_key-reached store roots nodes x d r h = elim (Option-cases (lookup d store.table)) [
    | inl n ↦ absurd (ground arith)
    | inr (v, l) ↦ let found = (x.exact d v).1 (r, refl, l) in ground arith
  ]

  reached-Resolves :
      (store : FosStore) (roots : String → Bool) (nodes loaded : Table)
      → ((c : String) → Reaches store.table roots c → has_key c store.table ≡ true)
      → IsReached sha3 store roots [] nodes
      → ((c : String) → lookup c loaded ≡ lookup c nodes)
      → (c : String) (v : NodeContent) → lookup c loaded ≡ some v
      → Resolves loaded v
  reached-Resolves store roots nodes loaded k x same c v h =
      every-of_has_end loaded v.children (λ d e.
        let (r, _, l) = (x.exact c v).0 (ground (arith, same c)) in
        let there = edge c d v r l e in
        ground (arith, same d, has_key-reached store roots nodes x d there (k d there)))

  is_current_cid-key :
      ((x : Fields × List Edge) → is_digest (codes (sha3 x)) ≡ true)
      → (table : Table) (c : String) → IsWellFormed sha3 table
      → has_key c table ≡ true
      → is_current_cid c ≡ true
  is_current_cid-key hex table c w h = elim (Option-cases (lookup c table)) [
    | inl n ↦ absurd (ground arith)
    | inr (v, l) ↦ rw (w.addressed c v l) at (hash_content-is_current_cid sha3 hex v)
  ]

  store_of_lem :
      (nodes : Table) (top : String) (loaded : Table)
      → is_current_cid top ≡ true
      → load_nodes sha3 [] nodes ≡ ok loaded
      → check_nodes loaded loaded ≡ ok tt
      → has_key top loaded ≡ true
      → store_of sha3 nodes top ≡ ok (record { table = loaded; root_node_id = top })
  unfolding store_of
  store_of_lem nodes top loaded c l k h = ground arith

  lookup-reached :
      (store : FosStore) (roots : String → Bool) (nodes : Table)
      → IsReached sha3 store roots [] nodes
      → (d : String) → Reaches store.table roots d
      → lookup d nodes ≡ lookup d store.table
  lookup-reached store roots nodes x d r = elim (Option-cases (lookup d store.table)) [
    | inl n ↦ elim (Option-cases (lookup d nodes)) [
      | inl m ↦ ground arith
      | inr (v, l) ↦ let old = (x.exact d v).0 l in absurd (ground (arith, old.2))
    ]
    | inr (v, l) ↦ let found = (x.exact d v).1 (r, refl, l) in ground arith
  ]

  -- Whatever extra roots are asked for, the context that `exportReachableContext` makes of a
  -- well-formed store, whose root is a node of it, is accepted by `storeOf`: the store that is loaded
  -- has the same root and holds the same content under each id that the root reaches. The digest is
  -- assumed to give 64 hexadecimal digits.
  pub export_reachable_context-store_of :
      ((x : Fields × List Edge) → is_digest (codes (sha3 x)) ≡ true)
      → (store : FosStore) (extra_roots : List (Option String)) → IsWellFormed sha3 store.table
      → has_node store (some store.root_node_id) ≡ true
      → (c : Context) × (export_reachable_context store extra_roots ≡ ok c)
        × (loaded : FosStore) × (store_of sha3 c.nodes c.root_node_id ≡ ok loaded)
        × (loaded.root_node_id ≡ store.root_node_id)
        × ((cid : String)
            → Reaches store.table (is_root store (some store.root_node_id ∷ [])) cid
            → lookup cid loaded.table ≡ lookup cid store.table)
  unfolding export_reachable_context has_node
  export_reachable_context-store_of hex store extra_roots w present =
      let roots = some store.root_node_id ∷ extra_roots in
      let (nodes, e, x) = reachable_nodes-IsReached sha3 store roots [] w in
      let (loaded, l, d, f) =
        load_nodes_lem [] nodes tt x.distinct
          (reached-IsAddressed hex store (is_root store roots) nodes w x) in
      let k =
        has_key-Reaches sha3 store.table (is_root store roots) w (has_key-is_root store roots) in
      let same : (c : String) → lookup c loaded ≡ lookup c nodes =
        λ c. loaded_as c nodes loaded (f c) in
      let checked = check_nodes_lem loaded loaded (
        All-of_lookup (λ p. Resolves loaded p.1) loaded d
          (reached-Resolves store (is_root store roots) nodes loaded k x same)) in
      let here =
        has_key-reached store (is_root store roots) nodes x store.root_node_id
          (root store.root_node_id (ground arith)) (k _ (root store.root_node_id (ground arith))) in
      (
        record { nodes = nodes; root_node_id = store.root_node_id },
        ground (arith, e),
        record { table = loaded; root_node_id = store.root_node_id },
        store_of_lem nodes store.root_node_id loaded
            (is_current_cid-key hex store.table store.root_node_id w (k _ (root _ (ground arith))))
            l checked (ground (arith, same store.root_node_id, here)),
        refl,
        λ cid r. ground (
          arith,
          same cid,
          lookup-reached store (is_root store roots) nodes x cid
              (Reaches-mono store.table _ (is_root store roots) (λ c h. ground arith) cid r),
        ),
      )
