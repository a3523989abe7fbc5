-- ===== src/Work/Exclusive.antt =====
-- The claims of a store do not overlap, whatever events come in whatever order.
pub mod History
use fos_mono.Common.{
  ℕ, zero, suc, ◌+◌, ◌≤◌, String, Bool, true, false, ◌&&◌, ◌||◌, not, List, [], ◌∷◌, ◌++◌, Option,
  none, some, ◌≡◌, refl, sym, arith, map, length, length-append, find, select, ◌==◌, All, All-mono,
  ==_refl, ==_iff, leb, subst, ◌∙◌, ap, Bool-cases, Option-cases, inl, inr, if◌then◌else◌,
}
use fos_mono.Work.{
  Scope, Selections, WorkClaim, work_overlaps, is_live, work_claims, Actor, Rights, WorkEvent,
  status, release, renew, claim, submit, Answer, is_own, active_with, drop_claim, renewed,
  replace_claim, any_overlaps, release_claim, renew_claim, make_claim, new_claim, work_event,
  dispatch_work,
}

-- The second claim has another id, and the first one does not overlap it.
abbrev pub IsApart : WorkClaim → WorkClaim → Type 0
IsApart c d = (work_overlaps c d.path d.branches ≡ false) × ((d.id == c.id) ≡ false)

-- Each claim is apart from those behind it.
abbrev pub IsExclusive : List WorkClaim → Type 0
IsExclusive [] = Unit
IsExclusive (c ∷ claims) = All (IsApart c) claims × IsExclusive claims

-- No claim has the id.
abbrev pub IsNew : String → List WorkClaim → Type 0
IsNew id claims = All (λ c. (id == c.id) ≡ false) claims

select-All :
    (P : WorkClaim → Type 0) (p : WorkClaim → Bool) (claims : List WorkClaim)
    → All P claims
    → All P (select p claims)
select-All P p [] h = tt
select-All P p (c ∷ claims) h = elim (Bool-cases (p c)) [
  | inl keep ↦ rw keep (h.0, select-All P p claims h.1)
  | inr drop ↦ rw drop (select-All P p claims h.1)
]

select-IsExclusive :
    (p : WorkClaim → Bool) (claims : List WorkClaim)
    → IsExclusive claims
    → IsExclusive (select p claims)
select-IsExclusive p [] h = tt
select-IsExclusive p (c ∷ claims) h = elim (Bool-cases (p c)) [
  | inl keep ↦ rw keep (select-All (IsApart c) p claims h.0, select-IsExclusive p claims h.1)
  | inr drop ↦ rw drop (select-IsExclusive p claims h.1)
]

length-select :
    (p : WorkClaim → Bool) (claims : List WorkClaim) → length (select p claims) ≤ length claims
length-select p [] = omega arith
length-select p (c ∷ claims) = ground (arith, length-select p claims)

All-snoc :
    (P : WorkClaim → Type 0) (claims : List WorkClaim) (n : WorkClaim)
    → All P claims
    → P n
    → All P (claims ++ (n ∷ []))
All-snoc P [] n h k = (k, tt)
All-snoc P (c ∷ claims) n h k = (h.0, All-snoc P claims n h.1 k)

snoc-IsExclusive :
    (claims : List WorkClaim) (n : WorkClaim)
    → IsExclusive claims
    → IsNew n.id claims
    → any_overlaps n.path n.branches claims ≡ false
    → IsExclusive (claims ++ (n ∷ []))
snoc-IsExclusive [] n h new free = (tt, tt)
snoc-IsExclusive (c ∷ claims) n h new free = (
  All-snoc (IsApart c) claims n h.0 (ground arith, new.0),
  snoc-IsExclusive claims n h.1 new.1 (ground arith),
)

All-find :
    (P : WorkClaim → Type 0) (p : WorkClaim → Bool) (claims : List WorkClaim) {c : WorkClaim}
    → All P claims
    → find p claims ≡ some c
    → P c
All-find P p [] h e = cc
All-find P p (d ∷ claims) {c} h e = elim (Bool-cases (p d)) [
  | inl here ↦ subst P (ground arith) h.0
  | inr there ↦ All-find P p claims h.1 (rw there at e)
]

-- Only the claim itself has its id.
abbrev IsAlone : WorkClaim → WorkClaim → Type 0
IsAlone c d = (d.id == c.id) ≡ true → d ≡ c

find-IsAlone :
    (p : WorkClaim → Bool) (claims : List WorkClaim) {c : WorkClaim}
    → IsExclusive claims
    → find p claims ≡ some c
    → All (IsAlone c) claims
find-IsAlone p [] h e = tt
find-IsAlone p (d ∷ claims) {c} h e = elim (Bool-cases (p d)) [
  | inl here ↦
      let same : d ≡ c = ground arith in
      (
        λ _. same,
        All-mono (IsApart d) (IsAlone c) (λ x apart k. absurd (ground (arith, ap (λ w. w.id) same)))
            claims h.0,
      )
  | inr there ↦
      let rest = rw there at e in
      (
        λ k. absurd (ground (arith, (All-find (IsApart d) p claims h.0 rest).1)),
        find-IsAlone p claims h.1 rest,
      )
]

-- What a renewal makes of a claim.
abbrev put : ℕ → WorkClaim → WorkClaim → WorkClaim
put now c d = if d.id == c.id then renewed now c else d

-- It leaves what tells claims apart.
put-same :
    (now : ℕ) (c d : WorkClaim)
    → IsAlone c d
    → ((put now c d).path ≡ d.path)
      × ((put now c d).branches ≡ d.branches)
      × ((put now c d).id ≡ d.id)
put-same now c d alone = elim (Bool-cases (d.id == c.id)) [
  | inl own ↦
      let same = alone own in
      rw own
        (sym (ap (λ w. w.path) same), sym (ap (λ w. w.branches) same), sym (ap (λ w. w.id) same))
  | inr other ↦ rw other (refl, refl, refl)
]

work_overlaps-same :
    (c d : WorkClaim) (path : Scope) (branches : Selections)
    → c.path ≡ d.path
    → c.branches ≡ d.branches
    → work_overlaps c path branches ≡ work_overlaps d path branches
unfolding work_overlaps
work_overlaps-same c d path branches same_path same_branches = rw (same_path, same_branches) refl

put-IsApart :
    (now : ℕ) (c d x : WorkClaim)
    → IsAlone c d
    → IsAlone c x
    → IsApart d x
    → IsApart (put now c d) (put now c x)
put-IsApart now c d x alone_d alone_x h =
    let e = put-same now c d alone_d in
    let f = put-same now c x alone_x in
    (
      work_overlaps-same (put now c d) d (put now c x).path (put now c x).branches e.0 e.1
          ∙ (ap (λ q. work_overlaps d q (put now c x).branches) f.0
              ∙ (ap (λ b. work_overlaps d x.path b) f.1 ∙ h.0)),
      ap (λ i. i == (put now c d).id) f.2 ∙ (ap (λ i. x.id == i) e.2 ∙ h.1),
    )

replaced-IsApart :
    (now : ℕ) (c d : WorkClaim) (claims : List WorkClaim)
    → All (IsAlone c) claims
    → IsAlone c d
    → All (IsApart d) claims
    → All (IsApart (put now c d)) (replace_claim (renewed now c) claims)
unfolding replace_claim
replaced-IsApart now c d [] alone same h = tt
replaced-IsApart now c d (x ∷ claims) alone same h =
    (put-IsApart now c d x same alone.0 h.0, replaced-IsApart now c d claims alone.1 same h.1)

replace_claim-IsExclusive :
    (now : ℕ) (c : WorkClaim) (claims : List WorkClaim)
    → All (IsAlone c) claims
    → IsExclusive claims
    → IsExclusive (replace_claim (renewed now c) claims)
unfolding replace_claim
replace_claim-IsExclusive now c [] alone h = tt
replace_claim-IsExclusive now c (d ∷ claims) alone h = (
  replaced-IsApart now c d claims alone.1 alone.0 h.0,
  replace_claim-IsExclusive now c claims alone.1 h.1,
)

length-replace_claim :
    (n : WorkClaim) (claims : List WorkClaim) → length (replace_claim n claims) ≡ length claims
unfolding replace_claim
length-replace_claim n [] = refl
length-replace_claim n (c ∷ claims) = omega (arith, length-replace_claim n claims)
