-- ===== src/Work/Exclusive/History.antt =====
-- Histories of work events, and what every one of them keeps.
use fos_mono.Common.{
  ℕ, suc, ◌≤◌, String, Bool, true, false, List, [], ◌∷◌, ◌++◌, Option, none, some, ◌≡◌, refl, arith,
  length, length-append, find, select, not, ◌==◌, leb, Bool-cases, Option-cases, inl, inr,
  if◌then◌else◌,
}
use fos_mono.Work.{
  Scope, WorkClaim, is_live, work_claims, Actor, Rights, WorkEvent, status, release, renew, claim,
  submit, Answer, failed, claimed, not_allowed, not_outstanding, overlapping, too_many, is_own,
  active_with, drop_claim, renewed, any_overlaps, after, release_claim, renew_claim, make_claim,
  new_claim, work_event, dispatch_work,
}
use fos_mono.Work.Exclusive.{
  IsExclusive, IsNew, select-IsExclusive, length-select, snoc-IsExclusive, find-IsAlone,
  replace_claim-IsExclusive, length-replace_claim,
}

abbrev pub IsKept : List WorkClaim → Type 0
IsKept claims = IsExclusive claims × (length claims ≤ 256)

-- The claims to save, if there are any.
abbrev Saves : Option (List WorkClaim) → Type 0
Saves none = Unit
Saves (some claims) = IsKept claims

-- The id of a new claim is no other claim's.
abbrev pub HasNewId : WorkEvent → List WorkClaim → Type 0
HasNewId (claim id path) claims = IsNew id claims
HasNewId _ claims = Unit

select-IsKept :
    (p : WorkClaim → Bool) (claims : List WorkClaim) → IsKept claims → IsKept (select p claims)
select-IsKept p claims h =
    (select-IsExclusive p claims h.0, omega (arith, h.1, length-select p claims))

-- What is active with an id is a claim of the list.
active_with-find :
    (actor : Actor) (id : String) (claims : List WorkClaim) {c : WorkClaim}
    → active_with actor id claims ≡ some c
    → find (is_own actor) claims ≡ some c
unfolding active_with
active_with-find actor id claims {c} h = elim (Option-cases (find (is_own actor) claims)) [
  | inl absent ↦ absurd (ground arith)
  | inr (d, found) ↦ elim (Bool-cases (d.id == id)) [
    | inl same ↦ ground arith
    | inr other ↦ absurd (ground arith)
  ]
]

release_claim-Saves :
    (actor : Actor) (id : String) (claims : List WorkClaim)
    → IsKept claims
    → Saves (release_claim actor id claims).1
unfolding release_claim drop_claim
release_claim-Saves actor id claims h = elim (Option-cases (active_with actor id claims)) [
  | inl absent ↦ rw (absent, Saves) tt
  | inr (c, found) ↦ rw (found, Saves) (select-IsKept (λ d. not (d.id == c.id)) claims h)
]

renew_claim-Saves :
    (actor : Actor) (rights : Rights) (now : ℕ) (id : String) (claims : List WorkClaim)
    → IsKept claims
    → Saves (renew_claim actor rights now id claims).1
unfolding renew_claim
renew_claim-Saves actor rights now id claims h = elim (Option-cases (active_with actor id claims)) [
  | inl absent ↦ rw (absent, Saves) tt
  | inr (c, found) ↦ elim (Bool-cases (rights.can_renew (after (length actor.attachment) c.path))) [
    | inl can ↦
        let alone =
          find-IsAlone (is_own actor) claims h.0 (active_with-find actor id claims found) in
        rw (found, Saves)
          (rw (can, Saves)
            (
              replace_claim-IsExclusive now c claims alone h.0,
              omega (arith, h.1, length-replace_claim (renewed now c) claims),
            ))
    | inr cannot ↦ rw (found, Saves) (rw (cannot, Saves) tt)
  ]
]

-- The three guards of a new claim.
abbrev guarded : Bool → Bool → Bool → List WorkClaim → WorkClaim → Answer × Option (List WorkClaim)
guarded blocked overlaps full claims n =
    if blocked
    then (failed not_outstanding, none)
    else if overlaps
    then (failed overlapping, none)
    else if full
    then (failed too_many, none)
    else (claimed n, some (claims ++ (n ∷ [])))

guarded-Saves :
    (blocked overlaps full : Bool) (claims : List WorkClaim) (n : WorkClaim)
    → (overlaps ≡ false → full ≡ false → IsKept (claims ++ (n ∷ [])))
    → Saves (guarded blocked overlaps full claims n).1
guarded-Saves true o f claims n h = tt
guarded-Saves false true f claims n h = tt
guarded-Saves false false true claims n h = tt
guarded-Saves false false false claims n h = h refl refl

-- The guard of the rights to work.
abbrev permitted : Bool → Answer × Option (List WorkClaim) → Answer × Option (List WorkClaim)
permitted can r = if can then r else (failed not_allowed, none)

permitted-Saves :
    (can : Bool) (r : Answer × Option (List WorkClaim)) → Saves r.1 → Saves (permitted can r).1
permitted-Saves true r h = h
permitted-Saves false r h = tt

make_claim-Saves :
    (actor : Actor) (rights : Rights) (now : ℕ) (id : String) (path : Scope)
    (claims : List WorkClaim)
    → IsKept claims
    → IsNew id claims
    → Saves (make_claim actor rights now id path claims).1
unfolding make_claim new_claim
make_claim-Saves actor rights now id [] claims h new =
    elim (Option-cases (find (is_own actor) claims)) [
      | inl absent ↦ rw (absent, Saves) tt
      | inr (c, found) ↦ rw (found, Saves) tt
    ]
make_claim-Saves actor rights now id (p ∷ path) claims h new =
    elim (Option-cases (find (is_own actor) claims)) [
      | inr (c, found) ↦ rw (found, Saves) tt
      | inl absent ↦
          let n = new_claim actor rights now id (p ∷ path) in
          rw (absent, Saves)
            (guarded-Saves (not (rights.is_outstanding (p ∷ path)))
              (any_overlaps n.path n.branches claims) (leb 256 (length claims)) claims n
              (λ free few.
                let below : suc (length claims) ≤ 256 = ground arith in
                (
                  snoc-IsExclusive claims n h.0 new free,
                  omega (arith, below, length-append claims (n ∷ [])),
                )))
    ]

work_event-Saves :
    (actor : Actor) (rights : Rights) (now : ℕ) (event : WorkEvent) (claims : List WorkClaim)
    → IsKept claims
    → HasNewId event claims
    → Saves (work_event actor rights now event claims).1
unfolding work_event
work_event-Saves actor rights now status claims h new = tt
work_event-Saves actor rights now (release id) claims h new = release_claim-Saves actor id claims h
work_event-Saves actor rights now (submit id) claims h new = release_claim-Saves actor id claims h
work_event-Saves actor rights now (renew id) claims h new =
    permitted-Saves rights.can_work (renew_claim actor rights now id claims)
      (renew_claim-Saves actor rights now id claims h)
work_event-Saves actor rights now (claim id path) claims h new =
    permitted-Saves rights.can_work (make_claim actor rights now id path claims)
      (make_claim-Saves actor rights now id path claims h new)

-- What is stored after an answer.
abbrev stored_after : List WorkClaim → Answer × Option (List WorkClaim) → Answer × List WorkClaim
stored_after stored r = elim r.1 [ none ↦ (r.0, stored) | some next ↦ (r.0, next) ]

stored_after-IsKept :
    (stored : List WorkClaim) (a : Answer) (o : Option (List WorkClaim))
    → IsKept stored
    → Saves o
    → IsKept (stored_after stored (a, o)).1
stored_after-IsKept stored a none h saved = h
stored_after-IsKept stored a (some next) h saved = saved

dispatch_work-IsKept :
    (actor : Actor) (rights : Rights) (now : ℕ) (event : WorkEvent) (stored : List WorkClaim)
    → IsKept stored
    → HasNewId event (work_claims now stored)
    → IsKept (dispatch_work actor rights now event stored).1
unfolding dispatch_work work_claims
dispatch_work-IsKept actor rights now event stored h new =
    let r = work_event actor rights now event (select (is_live now) stored) in
    stored_after-IsKept stored r.0 r.1 h (
      work_event-Saves actor rights now event (select (is_live now) stored)
        (select-IsKept (is_live now) stored h) new)

-- What the store holds after a sequence of events, whoever sends them and whatever the graph says.
pub data History : List WorkClaim → Type 0 where
  start : History []
  step :
      (actor : Actor) (rights : Rights) (now : ℕ) (event : WorkEvent) {stored : List WorkClaim}
      → HasNewId event (work_claims now stored)
      → History stored
      → History (dispatch_work actor rights now event stored).1

-- After any sequence of claims, renewals, releases, submissions and status requests, in any order and
-- at any times, each new claim with an id that no live claim has, the store holds at most 256 claims,
-- no two with the same id, and no claim overlaps the path and branches of a later one.
pub History-IsKept : (stored : List WorkClaim) → History stored → IsKept stored
History-IsKept stored start = (tt, omega arith)
History-IsKept stored (step actor rights now event {stored = before} new history) =
    dispatch_work-IsKept actor rights now event before (History-IsKept before history) new
