-- ===== src/Graph/Reach/Invariant.antt =====
-- Reachability with no stack, and what the walk keeps true of it.
use fos_mono.Common.{
  ℕ, zero, suc, ◌+◌, ◌≤◌, String, Bool, Bool-cases, true, false, ◌&&◌, not, List, [], ◌∷◌,
  Option-cases, none, some, ◌==◌, ◌≡◌, refl, inl, inr, arith, All, every, length, contains, has_key,
  lookup, set_key, lookup-set_key, HasDistinctKeys, set_key-HasDistinctKeys, subst, if◌then◌else◌,
}
use fos_mono.Node.{Edge, NodeContent}
use fos_mono.Store.{Table, FosStore, ok, content, edge_resolves}
use fos_mono.Graph.Reach.{Walk, push_edges, visit, walk, weight}
use fos_mono.Graph.Reach.Steps.{
  has_end, marked, push_edges-kept, push_edges-marked, push_edges-All, length-push_edges_le,
  weight-cons_le,
}

pub data Reaches (table : Table) (roots : String → Bool) : String → Type 0 where
  root : (c : String) → roots c ≡ true → Reaches table roots c
  edge :
      (c d : String) (v : NodeContent)
      → Reaches table roots c
      → lookup c table ≡ some v
      → has_end d v.children ≡ true
      → Reaches table roots d

pub has_key-has_end :
    (table : Table) (d : String) (edges : List Edge)
    → every (edge_resolves table) edges ≡ true
    → has_end d edges ≡ true
    → has_key d table ≡ true
has_key-has_end table d [] r h = absurd (ground arith)
has_key-has_end table d ((i, t) ∷ edges) r h = ground (arith, has_key-has_end table d edges)

module _ (store : FosStore) (skip : List String) (roots : String → Bool) where
  pub record Inv (stack seen : List String) (out : Table) : Type 0 where
    pub waiting : All (Reaches store.table roots) stack
    pub sound : (c : String) → contains c seen ≡ true → Reaches store.table roots c
    pub closed :
        (c d : String) (v : NodeContent)
        → contains c seen ≡ true
        → lookup c store.table ≡ some v
        → has_end d v.children ≡ true
        → marked d stack seen ≡ true
    pub rooted : (r : String) → roots r ≡ true → marked r stack seen ≡ true
    pub collected :
        (c : String)
        → lookup c out
          ≡ (if contains c seen && not (contains c skip) then lookup c store.table else none)
    pub distinct : HasDistinctKeys out

  Inv-seen :
      (cid : String) (stack seen : List String) (out : Table)
      → Inv (cid ∷ stack) seen out
      → contains cid seen ≡ true
      → Inv stack seen out
  Inv-seen cid stack seen out x h = record {
    waiting = x.waiting.1;
    sound = x.sound;
    closed = λ c d v s l e. ground (arith, x.closed c d v s l e);
    rooted = λ r k. ground (arith, x.rooted r k);
    collected = x.collected;
    distinct = x.distinct;
  }

  Inv-visit :
      (cid : String) (value : NodeContent) (stack seen : List String) (out : Table)
      → Inv (cid ∷ stack) seen out
      → contains cid seen ≡ false
      → lookup cid store.table ≡ some value
      → Inv
          (push_edges (cid ∷ seen) value.children stack)
          (cid ∷ seen)
          (if contains cid skip then out else set_key cid value out)
  Inv-visit cid value stack seen out x n l = record {
    waiting =
        push_edges-All (Reaches store.table roots) (cid ∷ seen) value.children stack
          (λ d h. edge cid d value x.waiting.0 l h) x.waiting.1;
    sound = λ c h. elim (Bool-cases (cid == c)) [
      | inl e ↦ subst (Reaches store.table roots) (ground arith) x.waiting.0
      | inr e ↦ x.sound c (ground arith)
    ];
    closed = λ c d v s k e. elim (Bool-cases (cid == c)) [
      | inl same ↦ push_edges-marked d (cid ∷ seen) value.children stack (ground arith)
      | inr other ↦ ground (
        arith,
        x.closed c d v (ground arith) k e,
        push_edges-kept d (cid ∷ seen) value.children stack,
      )
    ];
    rooted =
        λ r k. ground (arith, x.rooted r k, push_edges-kept r (cid ∷ seen) value.children stack);
    collected = λ c. ground (arith, x.collected c, lookup-set_key cid c value out);
    distinct = elim (Bool-cases (contains cid skip)) [
      | inl k ↦ rw k x.distinct
      | inr k ↦ rw k (set_key-HasDistinctKeys cid value out x.distinct)
    ];
  }

  pub walk-Inv :
      (fuel : ℕ) (stack seen : List String) (out : Table)
      → ((c : String) → Reaches store.table roots c → has_key c store.table ≡ true)
      → length stack + weight seen store.table ≤ fuel
      → Inv stack seen out
      → (w : Walk) × (walk store skip fuel stack seen out ≡ ok w)
        × (w.stack ≡ [])
        × Inv [] w.seen w.out
  unfolding walk visit content
  walk-Inv zero [] seen out k f x = (_, refl, refl, x)
  walk-Inv zero (cid ∷ stack) seen out k f x = absurd (omega arith)
  walk-Inv (suc fuel) [] seen out k f x = (_, refl, refl, x)
  walk-Inv (suc fuel) (cid ∷ stack) seen out k f x = elim (Bool-cases (contains cid seen)) [
    | inl h ↦
        let (w, e, s, y) =
          walk-Inv fuel stack seen out k (omega arith) (Inv-seen cid stack seen out x h) in
        (w, ground (arith, e), s, y)
    | inr h ↦ elim (Option-cases (lookup cid store.table)) [
      | inl l ↦ absurd (ground (arith, k cid x.waiting.0))
      | inr (value, l) ↦
          let (w, e, s, y) =
            walk-Inv fuel (push_edges (cid ∷ seen) value.children stack) (cid ∷ seen)
              (if contains cid skip then out else set_key cid value out) k
              (omega (
                arith,
                length-push_edges_le (cid ∷ seen) value.children stack,
                weight-cons_le cid value seen store.table l h,
              ))
              (Inv-visit cid value stack seen out x h l) in
          (w, ground (arith, e), s, y)
    ]
  ]
