-- ===== src/Graph/Reach/Complete.antt =====
-- The nodes that `reachableNodes` returns are those that the roots reach.
use fos_mono.Common.{
  String, Bool, true, false, ◌&&◌, ◌||◌, List, [], ◌∷◌, Option, none, some, ◌==◌, ◌≡◌, refl, ◌↔◌,
  arith, All, contains, has_key, lookup, HasDistinctKeys,
}
use fos_mono.Node.{Fields, Edge, NodeContent}
use fos_mono.Store.{Table, FosStore, ok}
use fos_mono.Store.WellFormed.{IsWellFormed}
use fos_mono.Graph.Reach.{Walk, has_node, root_stack, reachable_walk, reachable_nodes}
use fos_mono.Graph.Reach.Steps.{marked}
use fos_mono.Graph.Reach.Invariant.{Reaches, edge, root, has_key-has_end, Inv, walk-Inv}

-- One of the given roots that is a node of the store.
abbrev pub is_root : FosStore → List (Option String) → String → Bool
is_root store [] c = false
is_root store (none ∷ roots) c = is_root store roots c
is_root store (some r ∷ roots) c = (r == c && has_node store (some c)) || is_root store roots c

contains-root_stack :
    (store : FosStore) (roots : List (Option String)) (stack : List String) (c : String)
    → contains c (root_stack store roots stack) ≡ (is_root store roots c || contains c stack)
unfolding root_stack has_node
contains-root_stack store [] stack c = refl
contains-root_stack store (none ∷ roots) stack c = contains-root_stack store roots stack c
contains-root_stack store (some r ∷ roots) stack c =
    ground (
      arith,
      contains-root_stack store roots (r ∷ stack) c,
      contains-root_stack store roots stack c,
    )

pub has_key-is_root :
    (store : FosStore) (roots : List (Option String)) (c : String)
    → is_root store roots c ≡ true
    → has_key c store.table ≡ true
unfolding has_node
has_key-is_root store [] c h = absurd (ground arith)
has_key-is_root store (none ∷ roots) c h = has_key-is_root store roots c h
has_key-is_root store (some r ∷ roots) c h = ground (arith, has_key-is_root store roots c)

All-of_contains {ℓ} :
    (P : String → Type ℓ) (xs : List String)
    → ((c : String) → contains c xs ≡ true → P c)
    → All P xs
All-of_contains P [] f = tt
All-of_contains P (x ∷ xs) f =
    (f x (ground arith), All-of_contains P xs (λ c h. f c (ground arith)))

contains-marked : (c : String) (stack : List String) → marked c [] stack ≡ contains c stack
contains-marked c stack = refl

module _ (sha3 : Fields × List Edge → String) where
  pub has_key-Reaches :
      (table : Table) (roots : String → Bool)
      → IsWellFormed sha3 table
      → ((c : String) → roots c ≡ true → has_key c table ≡ true)
      → (c : String) → Reaches table roots c
      → has_key c table ≡ true
  has_key-Reaches table roots w f c (root _ h) = f c h
  has_key-Reaches table roots w f d (edge c _ v r l h) =
      has_key-has_end table d v.children (w.closed c v l) h

  pub reachable_walk-Inv :
      (store : FosStore) (roots : List (Option String)) (skip : List String)
      → IsWellFormed sha3 store.table
      → (w : Walk) × (reachable_walk store roots skip ≡ ok w)
        × Inv store skip (is_root store roots) [] w.seen w.out
  unfolding reachable_walk
  reachable_walk-Inv store roots skip w =
      let (x, e, s, y) =
        walk-Inv store skip (is_root store roots) _ (root_stack store roots []) [] []
          (has_key-Reaches store.table (is_root store roots) w (has_key-is_root store roots))
          (omega arith)
          (record {
            waiting =
                All-of_contains (Reaches store.table (is_root store roots)) _
                  (λ c h. root c (ground (arith, contains-root_stack store roots [] c)));
            sound = λ c h. absurd (ground arith);
            closed = λ c d v h l e. absurd (ground arith);
            rooted = λ r h. ground (arith, contains-root_stack store roots [] r);
            collected = λ c. refl;
            distinct = tt;
          }) in
      (x, e, y)

  contains-Reaches :
      (store : FosStore) (skip : List String) (roots : String → Bool) (seen : List String)
      (out : Table)
      → Inv store skip roots [] seen out
      → ((c : String) → Reaches store.table roots c → contains c seen ≡ true)
  contains-Reaches store skip roots seen out x c (root _ h) = x.rooted c h
  contains-Reaches store skip roots seen out x d (edge c _ v r l h) =
      x.closed c d v (contains-Reaches store skip roots seen out x c r) l h

  pub record IsReached (store : FosStore) (roots : String → Bool) (skip : List String)
      (nodes : Table) : Type 0 where
    pub distinct : HasDistinctKeys nodes
    pub exact :
        (c : String) (v : NodeContent)
        → (lookup c nodes ≡ some v) ↔ (
            Reaches store.table roots c
            × (contains c skip ≡ false)
            × (lookup c store.table ≡ some v))

  pub reachable_nodes-IsReached :
      (store : FosStore) (roots : List (Option String)) (skip : List String)
      → IsWellFormed sha3 store.table
      → (nodes : Table) × (reachable_nodes store roots skip ≡ ok nodes)
        × IsReached store (is_root store roots) skip nodes
  unfolding reachable_nodes
  reachable_nodes-IsReached store roots skip w =
      let (x, e, y) = reachable_walk-Inv store roots skip w in
      (
        x.out,
        ground (arith, e),
        record {
          distinct = y.distinct;
          exact = λ c v. (
            λ h. (
              y.sound c (ground (arith, y.collected c)),
              ground (arith, y.collected c),
              ground (arith, y.collected c),
            ),
            λ p. ground (
              arith,
              y.collected c,
              contains-Reaches store skip (is_root store roots) x.seen x.out y c p.0,
              p.1,
              p.2,
            ),
          );
        },
      )

  -- On a well-formed store `reachableNodes` returns, and what it returns holds exactly the nodes that
  -- a chain of edges reaches from one of the given roots in the store, each with its content, less
  -- those whose ids are to be skipped.
  pub reachable_nodes-Reaches :
      (store : FosStore) (roots : List (Option String)) (skip : List String)
      → IsWellFormed sha3 store.table
      → (nodes : Table) × (reachable_nodes store roots skip ≡ ok nodes)
        × ((c : String) (v : NodeContent)
            → (lookup c nodes ≡ some v) ↔ (
                Reaches store.table (is_root store roots) c
                × (contains c skip ≡ false)
                × (lookup c store.table ≡ some v)))
  reachable_nodes-Reaches store roots skip w =
      let (nodes, e, x) = reachable_nodes-IsReached store roots skip w in (nodes, e, x.exact)
