-- ===== src/Work/Tests.antt =====
-- Claims made, refused, renewed and released on a concrete tree.
use fos_mono.Common.{ℕ, List, [], ◌∷◌, true, none, ◌≡◌, refl, String_discrete}
use fos_mono.Work.{
  WorkClaim, Actor, Rights, claim, renew, release, submit, status, standing, claimed, failed,
  overlapping, unavailable, has_claim, released, dispatch_work,
}
use fos_mono.Work.Exclusive.History.{IsKept, start, step, History-IsKept}

abbrev first : Actor
first = record { peer_id = "p1"; session = "s1"; attachment = "home" ∷ [] }

abbrev second : Actor
second = record { peer_id = "p2"; session = "s2"; attachment = "home" ∷ [] }

-- Everything is permitted, and one choice is on the path.
abbrev rights : Rights
rights = record {
  can_work = true;
  can_renew = λ path. true;
  is_outstanding = λ path. true;
  branches_at = λ path. ("plan", "main") ∷ [];
}

abbrev first_claim : ℕ → WorkClaim
first_claim now = record {
  id = "c1";
  peer_id = "p1";
  session = "s1";
  attachment = "home" ∷ [];
  path = "home" ∷ "task" ∷ [];
  branches = ("plan", "main") ∷ [];
  expires_at = now;
}

abbrev held : List WorkClaim
held = first_claim 900005 ∷ []

claim_tests :
    (dispatch_work first rights 5 (claim "c1" ("task" ∷ [])) []
      ≡ (claimed (first_claim 900005), held))
    × (dispatch_work second rights 6 (claim "c2" ("task" ∷ "part" ∷ [])) held
        ≡ (failed overlapping, held))
    × (dispatch_work first rights 6 (claim "c2" ("other" ∷ [])) held ≡ (failed has_claim, held))
    × (dispatch_work first rights 10 (renew "c1") held
        ≡ (claimed (first_claim 900010), first_claim 900010 ∷ []))
    × (dispatch_work second rights 10 (release "c1") held ≡ (failed unavailable, held))
    × (dispatch_work first rights 10 (submit "c1") held ≡ (released "c1", []))
    × (dispatch_work first rights 900005 status held ≡ (standing none, held))
unfolding dispatch_work String_discrete
claim_tests = (refl, refl, refl, refl, refl, refl, refl)

History-IsKept_example :
    IsKept
      (dispatch_work second rights 6
        (claim "c2" ("other" ∷ []))
        (dispatch_work first rights 5 (claim "c1" ("task" ∷ [])) []).1).1
unfolding dispatch_work String_discrete
History-IsKept_example =
    History-IsKept
      (dispatch_work second rights 6 (claim "c2" ("other" ∷ []))
        (dispatch_work first rights 5 (claim "c1" ("task" ∷ [])) []).1).1
      (step second rights 6 (claim "c2" ("other" ∷ [])) (refl, tt)
        (step first rights 5 (claim "c1" ("task" ∷ [])) tt start))
