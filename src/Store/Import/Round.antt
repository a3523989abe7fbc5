-- ===== src/Store/Import/Round.antt =====
-- One round of the loop of `importNodes`.
use fos_mono.Common.{
  ◌+◌, ◌≤◌, ◌<◌, String, Bool-cases, true, false, [], ◌∷◌, ◌≡◌, refl, ◌⊎◌, arith, inl, inr, All,
  has_key, set_key, lookup-set_key, every, length, length-append, sym, subst,
}
use fos_mono.Node.{NodeContent}
use fos_mono.Store.{Table, Pass, edge_resolves, import_pass}
use fos_mono.Store.Import.Step.{
  Entry, Among, Among-append_left, Among-append_right, take_in, put_off, import_pass-take_in,
  import_pass-put_off, import_pass_inv,
}

abbrev pub Covered : Entry → Pass → Type 0
Covered e p = (has_key e.0 p.table ≡ true) ⊎ Among e p.rest

pub has_key-set_key :
    (k j : String) (v : NodeContent) (table : Table)
    → has_key j table ≡ true
    → has_key j (set_key k v table) ≡ true
has_key-set_key k j v table h = ground (arith, lookup-set_key k j v table)

pub has_key-set_key_self :
    (k : String) (v : NodeContent) (table : Table) → has_key k (set_key k v table) ≡ true
has_key-set_key_self k v table = ground (arith, lookup-set_key k k v table)

pub Covered-take_in : (d : Entry) (p : Pass) (e : Entry) → Covered d p → Covered d (take_in p e)
Covered-take_in d p e (inl h) = inl (has_key-set_key e.0 d.0 e.1 p.table h)
Covered-take_in d p e (inr m) = inr m

pub Covered-put_off : (d : Entry) (p : Pass) (e : Entry) → Covered d p → Covered d (put_off p e)
Covered-put_off d p e (inl h) = inl h
Covered-put_off d p e (inr m) = inr (Among-append_left d p.rest (e ∷ []) m)

abbrev pub Anything : Entry → Type 0
Anything e = Unit {0}

pub All-Anything : (xs : Table) → All Anything xs
All-Anything [] = tt
All-Anything (x ∷ xs) = (tt, All-Anything xs)

pub Covered-import_pass :
    (d : Entry) (pending : Table) (p : Pass) → Covered d p → Covered d (import_pass p pending)
Covered-import_pass d pending p h =
    import_pass_inv (Covered d) Anything (λ q e _ c _. Covered-take_in d q e c)
      (λ q e _ c. Covered-put_off d q e c) pending p (All-Anything pending) h

pub has_key-import_pass :
    (c : String) (pending : Table) (p : Pass)
    → has_key c p.table ≡ true
    → has_key c (import_pass p pending).table ≡ true
has_key-import_pass c pending p h =
    import_pass_inv (λ q. has_key c q.table ≡ true) Anything
      (λ q e _ k _. has_key-set_key e.0 c e.1 q.table k) (λ q e _ k. k) pending p
      (All-Anything pending) h

-- After a round every entry is in the table or waits.
pub import_pass-Covered :
    (pending : Table) (p : Pass) → All (λ d. Covered d (import_pass p pending)) pending
import_pass-Covered [] p = tt
import_pass-Covered (e ∷ pending) p =
    elim (Bool-cases (every (edge_resolves p.table) e.1.children)) [
      | inl r ↦
          subst (λ q. All (λ d. Covered d q) (e ∷ pending))
            (sym (import_pass-take_in p e pending r))
            (
              Covered-import_pass e pending (take_in p e)
                  (inl (has_key-set_key_self e.0 e.1 p.table)),
              import_pass-Covered pending (take_in p e),
            )
      | inr r ↦
          subst (λ q. All (λ d. Covered d q) (e ∷ pending))
            (sym (import_pass-put_off p e pending r))
            (
              Covered-import_pass e pending (put_off p e)
                  (inr (Among-append_right e p.rest (e ∷ []) (inl refl))),
              import_pass-Covered pending (put_off p e),
            )
    ]

-- A round without progress has changed nothing, and no edge list of the entries resolves.
pub record IsIdle (p q : Pass) (pending : Table) : Type 0 where
  pub before : p.progress ≡ false
  pub table : q.table ≡ p.table
  pub stuck : All (λ e. every (edge_resolves p.table) e.1.children ≡ false) pending

pub progress-take_in :
    (pending : Table) (p : Pass) → p.progress ≡ true → (import_pass p pending).progress ≡ true
progress-take_in pending p h =
    import_pass_inv (λ q. q.progress ≡ true) Anything (λ q e _ k _. refl) (λ q e _ k. k) pending p
      (All-Anything pending) h

pub import_pass-IsIdle :
    (pending : Table) (p : Pass)
    → (import_pass p pending).progress ≡ false
    → IsIdle p (import_pass p pending) pending
unfolding import_pass
import_pass-IsIdle [] p h = record { before = h; table = refl; stuck = tt }
import_pass-IsIdle (e ∷ pending) p h =
    elim (Bool-cases (every (edge_resolves p.table) e.1.children)) [
      | inl r ↦ absurd (
          ground (arith, import_pass-take_in p e pending r, progress-take_in pending (take_in p e)))
      | inr r ↦
          let same = import_pass-put_off p e pending r in
          let i = import_pass-IsIdle pending (put_off p e) (rw same at h) in
          rw same (record { before = i.before; table = i.table; stuck = (r, i.stuck) })
    ]

-- A round with progress leaves fewer entries waiting.
pub import_pass-shrinks :
    (pending : Table) (p : Pass)
    → length (import_pass p pending).rest ≤ length p.rest + length pending
unfolding import_pass
import_pass-shrinks [] p = omega arith
import_pass-shrinks (e ∷ pending) p =
    elim (Bool-cases (every (edge_resolves p.table) e.1.children)) [
      | inl r ↦
          rw (import_pass-take_in p e pending r)
            (omega (arith, import_pass-shrinks pending (take_in p e)))
      | inr r ↦
          rw (import_pass-put_off p e pending r) (
            omega (arith, import_pass-shrinks pending (put_off p e), length-append p.rest (e ∷ [])))
    ]

pub import_pass-shrinks_lt :
    (pending : Table) (p : Pass)
    → p.progress ≡ false
    → (import_pass p pending).progress ≡ true
    → length (import_pass p pending).rest < length p.rest + length pending
unfolding import_pass
import_pass-shrinks_lt [] p h k = absurd (ground arith)
import_pass-shrinks_lt (e ∷ pending) p h k =
    elim (Bool-cases (every (edge_resolves p.table) e.1.children)) [
      | inl r ↦
          rw (import_pass-take_in p e pending r)
            (omega (arith, import_pass-shrinks pending (take_in p e)))
      | inr r ↦
          let same = import_pass-put_off p e pending r in
          rw same (
            omega (
              arith,
              import_pass-shrinks_lt pending (put_off p e) h (rw same at k),
              length-append p.rest (e ∷ []),
            ))
    ]
