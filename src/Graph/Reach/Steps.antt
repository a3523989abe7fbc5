-- ===== src/Graph/Reach/Steps.antt =====
-- The walk ends with an empty stack, keeps what it has found, and stays within what can be reached.
use fos_mono.Common.{
  ◌+◌, ◌*◌, ◌≤◌, String, Bool, Bool-cases, true, false, ◌||◌, List, [], ◌∷◌, some, ◌==◌, ◌≡◌, inl,
  inr, arith, All, length, contains, lookup,
}
use fos_mono.Node.{Edge, NodeContent}
use fos_mono.Store.{Table}
use fos_mono.Graph.Reach.{push, push_edges, weight}

-- The id is an end of one of the edges.
abbrev pub has_end : String → List Edge → Bool
has_end d [] = false
has_end d ((i, t) ∷ edges) = i == d || t == d || has_end d edges

abbrev pub marked : String → List String → List String → Bool
marked d stack seen = contains d stack || contains d seen

pub push_edges-kept :
    (d : String) (seen : List String) (edges : List Edge) (stack : List String)
    → contains d stack ≡ true
    → contains d (push_edges seen edges stack) ≡ true
unfolding push_edges
push_edges-kept d seen [] stack h = h
push_edges-kept d seen ((i, t) ∷ edges) stack h = push_edges-kept d seen edges _ (ground arith)

pub push_edges-marked :
    (d : String) (seen : List String) (edges : List Edge) (stack : List String)
    → has_end d edges ≡ true
    → marked d (push_edges seen edges stack) seen ≡ true
unfolding push_edges
push_edges-marked d seen [] stack h = absurd (ground arith)
push_edges-marked d seen ((i, t) ∷ edges) stack h = elim (Bool-cases (has_end d edges)) [
  | inl k ↦ push_edges-marked d seen edges _ k
  | inr k ↦ elim (Bool-cases (contains d seen)) [
    | inl s ↦ ground arith
    | inr s ↦ ground (arith, push_edges-kept d seen edges (push seen t (push seen i stack)))
  ]
]

module _ {ℓ} (P : String → Type ℓ) where
  push-All :
      (seen : List String) (cid : String) (stack : List String)
      → P cid
      → All P stack
      → All P (push seen cid stack)
  push-All seen cid stack p h = elim (Bool-cases (contains cid seen)) [
    | inl a ↦ rw a h
    | inr a ↦ rw a (p, h)
  ]

  pub push_edges-All :
      (seen : List String) (edges : List Edge) (stack : List String)
      → ((d : String) → has_end d edges ≡ true → P d)
      → All P stack
      → All P (push_edges seen edges stack)
  unfolding push_edges
  push_edges-All seen [] stack f h = h
  push_edges-All seen ((i, t) ∷ edges) stack f h =
      push_edges-All seen edges _ (λ d k. f d (ground arith))
        (push-All seen t _ (f t (ground arith)) (push-All seen i stack (f i (ground arith)) h))

pub length-push_edges_le :
    (seen : List String) (edges : List Edge) (stack : List String)
    → length (push_edges seen edges stack) ≤ length stack + 2 * length edges
unfolding push_edges
length-push_edges_le seen [] stack = omega arith
length-push_edges_le seen ((i, t) ∷ edges) stack =
    ground (arith, length-push_edges_le seen edges (push seen t (push seen i stack)))

weight_mono :
    (cid : String) (seen : List String) (table : Table)
    → weight (cid ∷ seen) table ≤ weight seen table
weight_mono cid seen [] = omega arith
weight_mono cid seen ((j, w) ∷ table) = ground (arith, weight_mono cid seen table)

-- A node that is seen takes its edges off the weight.
pub weight-cons_le :
    (cid : String) (value : NodeContent) (seen : List String) (table : Table)
    → lookup cid table ≡ some value
    → contains cid seen ≡ false
    → weight (cid ∷ seen) table + 2 * length value.children ≤ weight seen table
weight-cons_le cid value seen [] h n = absurd cc
weight-cons_le cid value seen ((j, w) ∷ table) h n =
    ground (arith, weight_mono cid seen table, weight-cons_le cid value seen table)
