-- ===== src/Store/WellFormed.antt =====
-- The invariant of the node table, and what `storeOf` and `putNode` do with it.
use fos_mono.Common.{
  String, Bool-cases, Option-cases, true, List, [], ◌∷◌, some, none, ◌≡◌, refl, ◌↔◌, arith, inl,
  inr, lookup, has_key, set_key, lookup-set_key, every,
}
use fos_mono.Node.{Fields, Edge, NodeContent}
use fos_mono.Cid.{hash_content}
use fos_mono.Store.{
  ok, Table, FosStore, check_edges, check_nodes, edge_resolves, load_nodes, store_of, put_node,
}

-- Both ends of every edge are nodes of the table.
abbrev pub Resolves : Table → NodeContent → Type 0
Resolves table node = every (edge_resolves table) node.children ≡ true

module _ (sha3 : Fields × List Edge → String) where
  -- Every node stands under the id of its content, and its edges resolve.
  pub record IsWellFormed (table : Table) : Type 0 where
    pub addressed :
        (cid : String) (node : NodeContent)
        → lookup cid table ≡ some node
        → hash_content sha3 node ≡ cid
    pub closed :
        (cid : String) (node : NodeContent) → lookup cid table ≡ some node → Resolves table node

pub check_edges_iff :
    (table : Table) (edges : List Edge)
    → (check_edges table edges ≡ ok tt) ↔ (every (edge_resolves table) edges ≡ true)
unfolding check_edges
check_edges_iff table [] = ground arith
check_edges_iff table ((left, right) ∷ edges) = ground (arith, check_edges_iff table edges)

has_key-set_key :
    (k j : String) (v : NodeContent) (table : Table)
    → has_key j table ≡ true
    → has_key j (set_key k v table) ≡ true
has_key-set_key k j v table h = ground (arith, lookup-set_key k j v table)

pub Resolves-set_key :
    (k : String) (v : NodeContent) (table : Table) (edges : List Edge)
    → every (edge_resolves table) edges ≡ true
    → every (edge_resolves (set_key k v table)) edges ≡ true
Resolves-set_key k v table [] h = refl
Resolves-set_key k v table ((i, t) ∷ edges) h = ground (
  arith,
  has_key-set_key k i v table,
  has_key-set_key k t v table,
  Resolves-set_key k v table edges,
)

module _ (sha3 : Fields × List Edge → String) where
  pub empty-IsWellFormed : IsWellFormed sha3 []
  empty-IsWellFormed = record { addressed = λ cid node h. cc; closed = λ cid node h. cc }

  pub set_key-IsWellFormed :
      (k : String) (v : NodeContent) (table : Table)
      → IsWellFormed sha3 table
      → hash_content sha3 v ≡ k
      → Resolves table v
      → IsWellFormed sha3 (set_key k v table)
  set_key-IsWellFormed k v table w e r = record {
    addressed = λ cid node h. ground (arith, lookup-set_key k cid v table, w.addressed cid node);
    closed = λ cid node h.
        Resolves-set_key k v table node.children
          (ground (arith, lookup-set_key k cid v table, w.closed cid node));
  }

  -- What `putNode` gives when the edges of the value resolve.
  pub record IsPut (store : FosStore) (value : NodeContent) (cid : String) (next : FosStore)
      : Type 0 where
    pub named : cid ≡ hash_content sha3 value
    pub valid : IsWellFormed sha3 next.table
    pub root : next.root_node_id ≡ store.root_node_id
    pub stored :
        (node : NodeContent) × (lookup cid next.table ≡ some node) × (hash_content sha3 node ≡ cid)
    pub kept :
        (c : String) (node : NodeContent)
        → lookup c store.table ≡ some node
        → lookup c next.table ≡ some node

  IsPut-set_key :
      (store : FosStore) (value : NodeContent)
      → IsWellFormed sha3 store.table
      → Resolves store.table value
      → lookup (hash_content sha3 value) store.table ≡ none
      → IsPut store value
          (hash_content sha3 value)
          (record store { table = set_key (hash_content sha3 value) value store.table })
  IsPut-set_key store value w r fresh = record {
    named = refl;
    valid = set_key-IsWellFormed _ value store.table w refl r;
    root = refl;
    stored = (
      value,
      ground (
        arith,
        lookup-set_key (hash_content sha3 value) (hash_content sha3 value) value store.table,
      ),
      refl,
    );
    kept = λ c node h. ground (arith, lookup-set_key (hash_content sha3 value) c value store.table);
  }

  -- On a well-formed store, `putNode` of a value whose edges resolve returns the id of its content;
  -- the new store is well formed, holds a node of that id, and holds every earlier node unchanged.
  pub put_node-IsPut :
      (store : FosStore) (value : NodeContent)
      → IsWellFormed sha3 store.table
      → Resolves store.table value
      → (next : FosStore) × (put_node sha3 store value ≡ ok (hash_content sha3 value, next))
        × IsPut store value (hash_content sha3 value) next
  unfolding put_node
  put_node-IsPut store value w r =
      elim (Option-cases (lookup (hash_content sha3 value) store.table)) [
        | inl fresh ↦ (
          record store { table = set_key (hash_content sha3 value) value store.table },
          ground (arith, check_edges_iff store.table value.children),
          IsPut-set_key store value w r fresh,
        )
        | inr (node, found) ↦ (
          store,
          ground (arith, check_edges_iff store.table value.children),
          record {
            named = refl;
            valid = w;
            root = refl;
            stored = (node, found, w.addressed _ node found);
            kept = λ c n h. h;
          },
        )
      ]

  -- `putNode` returns exactly when both ends of every edge of the value are in the store.
  pub put_node-ok_iff :
      (store : FosStore) (value : NodeContent)
      → ((r : String × FosStore) × (put_node sha3 store value ≡ ok r)) ↔ Resolves store.table value
  unfolding put_node
  put_node-ok_iff store value = (
    λ p. ground (arith, check_edges_iff store.table value.children, p.1),
    λ r. elim (Bool-cases (has_key (hash_content sha3 value) store.table)) [
      | inl old ↦ (
        (hash_content sha3 value, store),
        ground (arith, check_edges_iff store.table value.children),
      )
      | inr new ↦ (
        (
          hash_content sha3 value,
          record store { table = set_key (hash_content sha3 value) value store.table },
        ),
        ground (arith, check_edges_iff store.table value.children),
      )
    ],
  )

  load_nodes-eq-ok :
      (table nodes : Table) {loaded : Table}
      → load_nodes sha3 table nodes ≡ ok loaded
      → ((cid : String) (node : NodeContent)
          → lookup cid table ≡ some node
          → hash_content sha3 node ≡ cid)
      → (cid : String) (node : NodeContent) → lookup cid loaded ≡ some node
      → hash_content sha3 node ≡ cid
  unfolding load_nodes
  load_nodes-eq-ok table [] e h cid node found = ground (arith, h cid node)
  load_nodes-eq-ok table ((k, v) ∷ nodes) e h cid node found =
      load_nodes-eq-ok (set_key k v table) nodes (ground arith)
        (λ c n f. ground (arith, lookup-set_key k c v table, h c n)) cid node found

check_nodes-eq-ok :
    (table nodes : Table)
    → check_nodes table nodes ≡ ok tt
    → (cid : String) (node : NodeContent) → lookup cid nodes ≡ some node
    → Resolves table node
unfolding check_nodes
check_nodes-eq-ok table [] e cid node h = cc
check_nodes-eq-ok table ((k, v) ∷ nodes) e cid node h =
    ground (
      arith,
      check_edges_iff table v.children,
      check_nodes-eq-ok table nodes (ground arith) cid node,
    )

module _ (sha3 : Fields × List Edge → String) where
  store_of-parts :
      (nodes : Table) (root : String) (s : FosStore)
      → store_of sha3 nodes root ≡ ok s
      → (load_nodes sha3 [] nodes ≡ ok s.table)
        × (check_nodes s.table s.table ≡ ok tt)
        × (has_key root s.table ≡ true)
        × (s.root_node_id ≡ root)
  unfolding store_of
  store_of-parts nodes root s e = ground arith

  -- A store that `storeOf` accepts is well formed, and its root is the given one and is among its
  -- nodes.
  pub store_of-IsWellFormed :
      (nodes : Table) (root : String) (s : FosStore)
      → store_of sha3 nodes root ≡ ok s
      → IsWellFormed sha3 s.table
        × (has_key s.root_node_id s.table ≡ true)
        × (s.root_node_id ≡ root)
  store_of-IsWellFormed nodes root s e =
      let (loaded, checked, rooted, same) = store_of-parts nodes root s e in
      (
        record {
          addressed = load_nodes-eq-ok sha3 [] nodes loaded (λ cid node h. cc);
          closed = check_nodes-eq-ok s.table s.table checked;
        },
        rw same rooted,
        same,
      )
