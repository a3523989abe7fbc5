-- ===== src/Store/Import/Loop.antt =====
-- The loop of `importNodes`.
use fos_mono.Common.{
  ℕ, zero, suc, ◌≤◌, String, Bool-cases, true, false, List, [], ◌∷◌, ◌≡◌, refl, ◌⊎◌, arith, inl,
  inr, All, has_key, every, length, sym, subst,
}
use fos_mono.Store.{Table, Pass, edge_resolves, import_pass, import_loop}
use fos_mono.Store.Import.Step.{Entry, All-among}
use fos_mono.Store.Import.Round.{
  Covered, Anything, All-Anything, has_key-import_pass, import_pass-Covered, import_pass-IsIdle,
  import_pass-shrinks_lt,
}

abbrev pub start : Table → List String → Pass
start table accepted = record { table = table; accepted = accepted; rest = []; progress = false }

abbrev pub round : Table → List String → Entry → Table → Pass
round table accepted e pending = import_pass (start table accepted) (e ∷ pending)

pub import_loop-again :
    (fuel : ℕ) (table : Table) (accepted : List String) (e : Entry) (pending : Table)
    → (round table accepted e pending).progress ≡ true
    → import_loop (suc fuel) table accepted (e ∷ pending)
      ≡ import_loop fuel
          (round table accepted e pending).table
          (round table accepted e pending).accepted
          (round table accepted e pending).rest
unfolding import_loop
import_loop-again fuel table accepted e pending h = rw h

pub import_loop-stop :
    (fuel : ℕ) (table : Table) (accepted : List String) (e : Entry) (pending : Table)
    → (round table accepted e pending).progress ≡ false
    → import_loop (suc fuel) table accepted (e ∷ pending) ≡ round table accepted e pending
unfolding import_loop
import_loop-stop fuel table accepted e pending h = rw h

-- What rounds keep, the loop keeps.
module _ {ℓ κ} (P : Table → Type ℓ) (Q : Entry → Type κ)
    (round_keeps : (table : Table) (accepted : List String) (pending : Table)
      → P table
      → All Q pending
      → P (import_pass (start table accepted) pending).table
        × All Q (import_pass (start table accepted) pending).rest) where
  pub import_loop_inv :
      (fuel : ℕ) (table : Table) (accepted : List String) (pending : Table)
      → P table
      → All Q pending
      → P (import_loop fuel table accepted pending).table
  unfolding import_loop
  import_loop_inv zero table accepted pending h q = h
  import_loop_inv (suc fuel) table accepted [] h q = h
  import_loop_inv (suc fuel) table accepted (e ∷ pending) h q =
      let kept = round_keeps table accepted (e ∷ pending) h q in
      elim (Bool-cases (round table accepted e pending).progress) [
        | inl r ↦
            rw (import_loop-again fuel table accepted e pending r)
              (import_loop_inv fuel _ (round table accepted e pending).accepted _ kept.0 kept.1)
        | inr r ↦ rw (import_loop-stop fuel table accepted e pending r) kept.0
      ]

pub has_key-import_loop :
    (c : String) (fuel : ℕ) (table : Table) (accepted : List String) (pending : Table)
    → has_key c table ≡ true
    → has_key c (import_loop fuel table accepted pending).table ≡ true
has_key-import_loop c fuel table accepted pending h =
    import_loop_inv (λ t. has_key c t ≡ true) Anything
      (λ t a es k _. (has_key-import_pass c es (start t a) k, All-Anything _)) fuel table accepted
      pending h (All-Anything pending)

-- Taken in, or left out because an end of an edge is missing.
abbrev pub Settled : Table → Entry → Type 0
Settled table e = (has_key e.0 table ≡ true) ⊎ (every (edge_resolves table) e.1.children ≡ false)

pub All-stuck :
    (t : Table) (pending : Table)
    → All (λ e. every (edge_resolves t) e.1.children ≡ false) pending
    → All (Settled t) pending
All-stuck t [] h = tt
All-stuck t (e ∷ pending) h = (inr h.0, All-stuck t pending h.1)

pub All-Covered :
    (t : Table) (p : Pass) (pending : Table)
    → ((c : String) → has_key c p.table ≡ true → has_key c t ≡ true)
    → All (Settled t) p.rest
    → All (λ d. Covered d p) pending
    → All (Settled t) pending
All-Covered t p [] grows rest h = tt
All-Covered t p (e ∷ pending) grows rest (inl k, h) =
    (inl (grows e.0 k), All-Covered t p pending grows rest h)
All-Covered t p (e ∷ pending) grows rest (inr m, h) =
    (All-among (Settled t) e p.rest rest m, All-Covered t p pending grows rest h)

pub import_loop-Settled :
    (fuel : ℕ) (table : Table) (accepted : List String) (pending : Table)
    → length pending ≤ fuel
    → All (Settled (import_loop fuel table accepted pending).table) pending
unfolding import_loop
import_loop-Settled zero table accepted [] h = tt
import_loop-Settled zero table accepted (e ∷ pending) h = absurd (omega arith)
import_loop-Settled (suc fuel) table accepted [] h = tt
import_loop-Settled (suc fuel) table accepted (e ∷ pending) h =
    let p = round table accepted e pending in
    elim (Bool-cases p.progress) [
      | inl r ↦
          subst (λ q. All (Settled q.table) (e ∷ pending))
            (sym (import_loop-again fuel table accepted e pending r))
            (All-Covered _ p (e ∷ pending)
              (λ c k. has_key-import_loop c fuel p.table p.accepted p.rest k)
              (import_loop-Settled fuel p.table p.accepted p.rest
                (omega (arith, import_pass-shrinks_lt (e ∷ pending) (start table accepted) refl r)))
              (import_pass-Covered (e ∷ pending) (start table accepted)))
      | inr r ↦
          let idle = import_pass-IsIdle (e ∷ pending) (start table accepted) r in
          subst (λ q. All (Settled q.table) (e ∷ pending))
            (sym (import_loop-stop fuel table accepted e pending r))
            (subst (λ t. All (Settled t) (e ∷ pending)) (sym idle.table)
              (All-stuck table (e ∷ pending) idle.stuck))
    ]
