-- ===== src/Store/Import/Step.antt =====
-- One entry of the inner loop of `importNodes`.
use fos_mono.Common.{
  String, Bool-cases, true, false, List, [], ◌∷◌, ◌++◌, ◌≡◌, ◌⊎◌, inl, inr, All, set_key, every,
  subst,
}
use fos_mono.Node.{NodeContent}
use fos_mono.Store.{Table, Pass, edge_resolves, import_pass}
use fos_mono.Store.WellFormed.{Resolves}

abbrev pub Entry : Type 0
Entry = String × NodeContent

abbrev pub Among : Entry → List Entry → Type 0
Among e [] = ⊥
Among e (x ∷ xs) = (x ≡ e) ⊎ Among e xs

pub Among-append_left : (e : Entry) (xs ys : List Entry) → Among e xs → Among e (xs ++ ys)
Among-append_left e [] ys h = absurd h
Among-append_left e (x ∷ xs) ys (inl p) = inl p
Among-append_left e (x ∷ xs) ys (inr p) = inr (Among-append_left e xs ys p)

pub Among-append_right : (e : Entry) (xs ys : List Entry) → Among e ys → Among e (xs ++ ys)
Among-append_right e [] ys h = h
Among-append_right e (x ∷ xs) ys h = inr (Among-append_right e xs ys h)

pub All-among {ℓ} : (P : Entry → Type ℓ) (e : Entry) (xs : List Entry) → All P xs → Among e xs → P e
All-among P e [] h m = absurd m
All-among P e (x ∷ xs) h (inl p) = subst P p h.0
All-among P e (x ∷ xs) h (inr m) = All-among P e xs h.1 m

-- One step of the inner loop.
abbrev pub take_in : Pass → Entry → Pass
take_in p (cid, value) = record p {
  table = set_key cid value p.table;
  accepted = p.accepted ++ (cid ∷ []);
  progress = true;
}

abbrev pub put_off : Pass → Entry → Pass
put_off p e = record p { rest = p.rest ++ (e ∷ []) }

pub import_pass-take_in :
    (p : Pass) (e : Entry) (pending : Table)
    → Resolves p.table e.1
    → import_pass p (e ∷ pending) ≡ import_pass (take_in p e) pending
unfolding import_pass
import_pass-take_in p e pending h = rw h

pub import_pass-put_off :
    (p : Pass) (e : Entry) (pending : Table)
    → every (edge_resolves p.table) e.1.children ≡ false
    → import_pass p (e ∷ pending) ≡ import_pass (put_off p e) pending
unfolding import_pass
import_pass-put_off p e pending h = rw h

-- A property of passes that both steps keep holds after a whole round.
pub import_pass_inv {ℓ κ} :
    (P : Pass → Type ℓ) (Q : Entry → Type κ)
    → ((p : Pass) (e : Entry) → Q e → P p → Resolves p.table e.1 → P (take_in p e))
    → ((p : Pass) (e : Entry) → Q e → P p → P (put_off p e))
    → (pending : Table) (p : Pass) → All Q pending
    → P p
    → P (import_pass p pending)
unfolding import_pass
import_pass_inv P Q yes_step no_step [] p q h = h
import_pass_inv P Q yes_step no_step (e ∷ pending) p q h =
    elim (Bool-cases (every (edge_resolves p.table) e.1.children)) [
      | inl r ↦
          rw (import_pass-take_in p e pending r)
            (import_pass_inv P Q yes_step no_step pending (take_in p e) q.1 (yes_step p e q.0 h r))
      | inr r ↦
          rw (import_pass-put_off p e pending r)
            (import_pass_inv P Q yes_step no_step pending (put_off p e) q.1 (no_step p e q.0 h))
    ]
