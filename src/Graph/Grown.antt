-- ===== src/Graph/Grown.antt =====
-- Stores that keep the nodes of another: what the helpers that put nodes do to a store.
use fos_mono.Common.{
  subst, lookup-set_key, ==_refl, String, Bool, true, ◌&&◌, List, [], ◌∷◌, ◌++◌, Option-cases, some,
  ◌≡◌, refl, inl, inr, arith, every, has_key, lookup,
}
use fos_mono.Node.{Fields, Edge, NodeContent}
use fos_mono.Cid.{hash_content}
use fos_mono.Store.{Table, FosStore, ok, put_node}
use fos_mono.Store.WellFormed.{IsWellFormed, Resolves, put_node-IsPut, check_edges_iff}

-- Every node of the first table is in the second.
abbrev pub Kept : Table → Table → Type 0
Kept s t = (c : String) (v : NodeContent) → lookup c s ≡ some v → lookup c t ≡ some v

abbrev pub KeepsKeys : Table → Table → Type 0
KeepsKeys s t = (c : String) → has_key c s ≡ true → has_key c t ≡ true

pub KeepsKeys-of_Kept : (s t : Table) → Kept s t → KeepsKeys s t
KeepsKeys-of_Kept s t k c h = elim (Option-cases (lookup c s)) [
  | inl n ↦ absurd (ground arith)
  | inr (v, l) ↦ let there = k c v l in ground arith
]

pub every-append :
    (test : Edge → Bool) (xs ys : List Edge)
    → every test (xs ++ ys) ≡ (every test xs && every test ys)
every-append test [] ys = refl
every-append test (x ∷ xs) ys = ground (arith, every-append test xs ys)

module _ (sha3 : Fields × List Edge → String) where
  -- A well-formed store that keeps the nodes of another.
  pub record Grown (store next : FosStore) : Type 0 where
    pub valid : IsWellFormed sha3 next.table
    pub kept : Kept store.table next.table

  pub Grown-trans : (one two three : FosStore) → Grown one two → Grown two three → Grown one three
  Grown-trans one two three x y = record {
    valid = y.valid;
    kept = λ c v h. y.kept c v (x.kept c v h);
  }

  pub Grown-keys : (store next : FosStore) → Grown store next → KeepsKeys store.table next.table
  Grown-keys store next x = KeepsKeys-of_Kept store.table next.table x.kept

  pub put_node-Grown :
      (store : FosStore) (value : NodeContent)
      → IsWellFormed sha3 store.table
      → Resolves store.table value
      → (next : FosStore) × (put_node sha3 store value ≡ ok (hash_content sha3 value, next))
        × Grown store next
        × (has_key (hash_content sha3 value) next.table ≡ true)
  put_node-Grown store value w r =
      let (next, e, x) = put_node-IsPut sha3 store value w r in
      let (v, l, _) = x.stored in (next, e, record { valid = x.valid; kept = x.kept }, ground arith)

  -- A node whose id stands for no other content is stored as it is.
  pub put_node-Holds :
      (store : FosStore) (v : NodeContent) (next : FosStore)
      → IsWellFormed sha3 store.table
      → Resolves store.table v
      → put_node sha3 store v ≡ ok (hash_content sha3 v, next)
      → ((n : NodeContent) → lookup (hash_content sha3 v) store.table ≡ some n → n ≡ v)
      → Grown store next × (lookup (hash_content sha3 v) next.table ≡ some v)
  unfolding put_node
  put_node-Holds store v next w r e f =
      let (other, k, g, _) = put_node-Grown store v w r in
      let same : other ≡ next = ground (arith, e, k) in
      (
        subst (Grown store) same g,
        elim (Option-cases (lookup (hash_content sha3 v) store.table)) [
          | inl l ↦ ground (
            arith,
            check_edges_iff store.table v.children,
            lookup-set_key (hash_content sha3 v) (hash_content sha3 v) v store.table,
            ==_refl (hash_content sha3 v),
          )
          | inr (n, l) ↦ ground (arith, check_edges_iff store.table v.children, f n l)
        ],
      )
