-- ===== src/Store/Import.antt =====
-- `importNodes`: what is accepted, what is kept, and that nothing acceptable is left out.
pub mod Step
pub mod Round
pub mod Loop
use fos_mono.Common.{
  ℕ, zero, suc, ◌+◌, ◌≤◌, ◌<◌, String, Bool, Bool-cases, true, false, List, [], ◌∷◌, ◌++◌, some,
  ◌≡◌, refl, ◌⊎◌, arith, inl, inr, All, All-append, All-mono, lookup, has_key, set_key,
  lookup-set_key, every, select, length, length-append, sym, subst,
}
use fos_mono.Node.{Fields, Edge, NodeContent}
use fos_mono.Cid.{hash_content, verify_cid}
use fos_mono.Store.{
  Table, FosStore, Pass, edge_resolves, acceptable, import_pass, import_loop, import_nodes,
}
use fos_mono.Store.WellFormed.{IsWellFormed, set_key-IsWellFormed, Resolves}
use fos_mono.Store.Import.Step.{
  Entry, Among, Among-append_left, Among-append_right, All-among, take_in, put_off,
  import_pass-take_in, import_pass-put_off, import_pass_inv,
}
use fos_mono.Store.Import.Round.{
  Covered, has_key-set_key, Anything, All-Anything, has_key-import_pass, import_pass-Covered,
  IsIdle, import_pass-IsIdle, import_pass-shrinks_lt,
}
use fos_mono.Store.Import.Loop.{start, import_loop_inv, Settled, import_loop-Settled}

All-select : (test : Entry → Bool) (xs : Table) → All (λ e. test e ≡ true) (select test xs)
All-select test [] = tt
All-select test (x ∷ xs) = elim (Bool-cases (test x)) [
  | inl h ↦ rw h (h, All-select test xs)
  | inr h ↦ rw h (All-select test xs)
]

All-of_select {ℓ} :
    (P : Entry → Type ℓ) (test : Entry → Bool) (xs : Table)
    → All P (select test xs)
    → All (λ e. test e ≡ true → P e) xs
All-of_select P test [] h = tt
All-of_select P test (x ∷ xs) h = elim (Bool-cases (test x)) [
  | inl k ↦
      let (p, q) : All P (x ∷ select test xs) = rw k at h in (λ _. p, All-of_select P test xs q)
  | inr k ↦ (λ l. absurd (ground arith), All-of_select P test xs (rw k at h))
]

module _ (sha3 : Fields × List Edge → String) where
  abbrev Fresh : Table → Entry → Type 0
  Fresh table e = (has_key e.0 table ≡ false) × (hash_content sha3 e.1 ≡ e.0)

  Fresh-of_acceptable : (table : Table) (e : Entry) → acceptable sha3 table e ≡ true → Fresh table e
  unfolding verify_cid
  Fresh-of_acceptable table e h = ground arith

  pending-Fresh : (table nodes : Table) → All (Fresh table) (select (acceptable sha3 table) nodes)
  pending-Fresh table nodes =
      All-mono (λ e. acceptable sha3 table e ≡ true) (Fresh table) (Fresh-of_acceptable table)
        (select (acceptable sha3 table) nodes) (All-select (acceptable sha3 table) nodes)

  -- The table of an import starts from a store `s`: it is well formed and holds the nodes of `s`.
  record Extends (s t : Table) : Type 0 where
    valid : IsWellFormed sha3 t
    kept : (c : String) (node : NodeContent) → lookup c s ≡ some node → lookup c t ≡ some node

  Extends-take_in :
      (s : Table) (p : Pass) (e : Entry)
      → Fresh s e
      → Extends s p.table
      → Resolves p.table e.1
      → Extends s (take_in p e).table
  Extends-take_in s p e f x r = record {
    valid = set_key-IsWellFormed sha3 e.0 e.1 p.table x.valid f.1 r;
    kept = λ c node h. ground (arith, f.0, lookup-set_key e.0 c e.1 p.table, x.kept c node h);
  }

  round-Extends :
      (s table : Table) (accepted : List String) (pending : Table)
      → Extends s table
      → All (Fresh s) pending
      → Extends s (import_pass (start table accepted) pending).table
        × All (Fresh s) (import_pass (start table accepted) pending).rest
  round-Extends s table accepted pending x f =
      let both =
        import_pass_inv (λ p. Extends s p.table × All (Fresh s) p.rest) (Fresh s)
          (λ p e g h r. (Extends-take_in s p e g h.0 r, h.1))
          (λ p e g h. (h.0, All-append (Fresh s) p.rest (e ∷ []) h.1 (g, tt))) pending
          (start table accepted) f (x, tt) in
      both

  import_nodes-Extends :
      (store : FosStore) (nodes : Table)
      → IsWellFormed sha3 store.table
      → Extends store.table (import_nodes sha3 store nodes).0.table
  unfolding import_nodes
  import_nodes-Extends store nodes w =
      import_loop_inv (Extends store.table) (Fresh store.table) (round-Extends store.table) _
        store.table [] (select (acceptable sha3 store.table) nodes)
        (record { valid = w; kept = λ c node h. h }) (pending-Fresh store.table nodes)

  -- Whatever nodes a peer sends, importing them into a well-formed store gives a well-formed store
  -- that holds every earlier node unchanged.
  pub import_nodes-IsWellFormed :
      (store : FosStore) (nodes : Table)
      → IsWellFormed sha3 store.table
      → IsWellFormed sha3 (import_nodes sha3 store nodes).0.table
        × ((c : String) (node : NodeContent)
            → lookup c store.table ≡ some node
            → lookup c (import_nodes sha3 store nodes).0.table ≡ some node)
  import_nodes-IsWellFormed store nodes w =
      let x = import_nodes-Extends store nodes w in (x.valid, x.kept)

  -- The loop of `importNodes` leaves nothing out: each given entry whose id verifies is in the store
  -- afterwards, or an end of one of its edges is not.
  pub import_nodes-Settled :
      (store : FosStore) (nodes : Table)
      → All
          (λ e.
            acceptable sha3 store.table e ≡ true
            → (has_key e.0 (import_nodes sha3 store nodes).0.table ≡ true)
              ⊎ (every (edge_resolves (import_nodes sha3 store nodes).0.table) e.1.children
                  ≡ false))
          nodes
  unfolding import_nodes
  import_nodes-Settled store nodes =
      All-of_select (Settled (import_nodes sha3 store nodes).0.table) (acceptable sha3 store.table)
        nodes
        (import_loop-Settled _ store.table [] (select (acceptable sha3 store.table) nodes)
          (omega arith))
