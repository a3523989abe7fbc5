-- ===== src/Work.antt =====
-- Leases on work: shared/sync/work-claims.ts, and of shared/sync/events.ts the events of kind `work`
-- (lines 223-233 and 296-339) and the release on submission (lines 544-547). What these events ask the
-- graph for, the capabilities along a path and the branches selected there, is an argument.
pub mod Overlap
pub mod Exclusive
pub mod Tests
use fos_mono.Common.{
  ℕ, zero, suc, ◌+◌, ◌*◌, String, Bool, true, false, ◌&&◌, ◌||◌, not, List, [], ◌∷◌, ◌++◌, Option,
  none, some, map, length, find, select, every, lookup, ltb, leb, ◌==◌, if◌then◌else◌,
}
use fos_mono.Common.Text.{text_length}

-- `Scope`
abbrev pub Scope : Type 0
Scope = List String

-- `Record<string, string>`: a choice's id and the name of the branch.
abbrev pub Selections : Type 0
Selections = List (String × String)

pub record WorkClaim : Type 0 where
  pub id : String
  pub peer_id : String
  pub session : String
  pub attachment : Scope
  pub path : Scope
  pub branches : Selections
  pub expires_at : ℕ

-- `WORK_LEASE_MS`
abbrev pub work_lease : ℕ
work_lease = 900000

unfoldable pub within : Scope → Scope → Bool
within path [] = true
within [] (id ∷ root) = false
within (p ∷ path) (id ∷ root) = p == id && within path root

unfoldable pub valid_id : String → Bool
valid_id id =
    ltb 0 (text_length id) && leb (text_length id) 128 && not (id == ".") && not (id == "..")

unfoldable pub valid_path : Scope → Bool
unfolding valid_id
valid_path path = leb (length path) 64 && every valid_id path

-- The test of `workClaims`, for a claim whose fields have their types.
unfoldable pub is_live : ℕ → WorkClaim → Bool
unfolding valid_path within
is_live now c =
    valid_path c.attachment
    && valid_path c.path
    && within c.path c.attachment
    && every (λ s. ltb 0 (text_length s.1)) c.branches
    && ltb now c.expires_at

unfoldable pub work_claims : ℕ → List WorkClaim → List WorkClaim
unfolding is_live
work_claims now stored = select (is_live now) stored

-- Some choice has another branch on the other side.
unfoldable pub differs : Selections → Selections → Bool
differs [] other = false
differs ((id, name) ∷ branches) other =
    (elim (lookup id other) [ none ↦ false | some o ↦ not (o == name) ]) || differs branches other

unfoldable pub work_overlaps : WorkClaim → Scope → Selections → Bool
unfolding within differs
work_overlaps c path branches =
    (within path c.path || within c.path path) && not (differs c.branches branches)

-- Who asks: the principal with its session and its scope.
pub record Actor : Type 0 where
  pub peer_id : String
  pub session : String
  pub attachment : Scope

-- What the graph says: the capabilities `execute` and `edit` at the attachment, those along the path of
-- a renewal, whether the path of a new claim leads to an outstanding task that the actor may claim at the
-- revision and with the branches that the event names, and the branches selected along a path.
pub record Rights : Type 0 where
  pub can_work : Bool
  pub can_renew : Scope → Bool
  pub is_outstanding : Scope → Bool
  pub branches_at : Scope → Selections

pub data WorkEvent : Type 0 where
  status : WorkEvent
  release : String → WorkEvent
  renew : String → WorkEvent
  claim : String → Scope → WorkEvent
  -- A submission under the claim that changed something.
  submit : String → WorkEvent

pub data WorkError : Type 0 where
  unavailable : WorkError
  not_allowed : WorkError
  revoked : WorkError
  has_claim : WorkError
  no_task : WorkError
  not_outstanding : WorkError
  overlapping : WorkError
  too_many : WorkError

pub data Answer : Type 0 where
  standing : Option WorkClaim → Answer
  released : String → Answer
  claimed : WorkClaim → Answer
  failed : WorkError → Answer

unfoldable pub same_scope : Scope → Scope → Bool
same_scope [] [] = true
same_scope (a ∷ as_path) (b ∷ path) = a == b && same_scope as_path path
same_scope _ _ = false

unfoldable pub is_own : Actor → WorkClaim → Bool
unfolding same_scope
is_own actor c =
    c.peer_id == actor.peer_id
    && c.session == actor.session
    && same_scope c.attachment actor.attachment

-- The claim that the actor works on, if it has the given id.
unfoldable pub active_with : Actor → String → List WorkClaim → Option WorkClaim
unfolding is_own
active_with actor id claims = elim (find (is_own actor) claims) [
  | none ↦ none
  | some c ↦ if c.id == id then some c else none
]

unfoldable pub drop_claim : String → List WorkClaim → List WorkClaim
drop_claim id claims = select (λ c. not (c.id == id)) claims

abbrev pub renewed : ℕ → WorkClaim → WorkClaim
renewed now c = record c { expires_at = now + work_lease }

unfoldable pub replace_claim : WorkClaim → List WorkClaim → List WorkClaim
replace_claim new claims = map (λ c. if c.id == new.id then new else c) claims

-- `drop`: what `slice(n)` leaves.
abbrev pub after : ℕ → Scope → Scope
after zero path = path
after (suc n) [] = []
after (suc n) (p ∷ path) = after n path

abbrev pub any_overlaps : Scope → Selections → List WorkClaim → Bool
any_overlaps path branches [] = false
any_overlaps path branches (c ∷ claims) =
    work_overlaps c path branches || any_overlaps path branches claims

-- A release, also the one that follows a submission.
unfoldable pub release_claim : Actor → String → List WorkClaim → Answer × Option (List WorkClaim)
unfolding active_with drop_claim
release_claim actor id claims = elim (active_with actor id claims) [
  | none ↦ (failed unavailable, none)
  | some c ↦ (released c.id, some (drop_claim c.id claims))
]

unfoldable pub renew_claim :
    Actor → Rights → ℕ → String → List WorkClaim → Answer × Option (List WorkClaim)
unfolding active_with replace_claim
renew_claim actor rights now id claims = elim (active_with actor id claims) [
  | none ↦ (failed unavailable, none)
  | some c ↦
      if rights.can_renew (after (length actor.attachment) c.path)
      then (claimed (renewed now c), some (replace_claim (renewed now c) claims))
      else (failed revoked, none)
]

-- The new claim; its id is a new one.
unfoldable pub new_claim : Actor → Rights → ℕ → String → Scope → WorkClaim
new_claim actor rights now id path = record {
  id = id;
  peer_id = actor.peer_id;
  session = actor.session;
  attachment = actor.attachment;
  path = actor.attachment ++ path;
  branches = rights.branches_at (actor.attachment ++ path);
  expires_at = now + work_lease;
}

unfoldable pub make_claim :
    Actor → Rights → ℕ → String → Scope → List WorkClaim → Answer × Option (List WorkClaim)
unfolding is_own new_claim work_overlaps
make_claim actor rights now id [] claims = elim (find (is_own actor) claims) [
  | some c ↦ (failed has_claim, none)
  | none ↦ (failed no_task, none)
]
make_claim actor rights now id (p ∷ path) claims = elim (find (is_own actor) claims) [
  | some c ↦ (failed has_claim, none)
  | none ↦
      let new = new_claim actor rights now id (p ∷ path) in
      if not (rights.is_outstanding (p ∷ path))
      then (failed not_outstanding, none)
      else if any_overlaps new.path new.branches claims
      then (failed overlapping, none)
      else if leb 256 (length claims)
      then (failed too_many, none)
      else (claimed new, some (claims ++ (new ∷ [])))
]

-- The answer, and the claims to save if there are any.
unfoldable pub work_event :
    Actor → Rights → ℕ → WorkEvent → List WorkClaim → Answer × Option (List WorkClaim)
unfolding is_own release_claim renew_claim make_claim
work_event actor rights now status claims = (standing (find (is_own actor) claims), none)
work_event actor rights now (release id) claims = release_claim actor id claims
work_event actor rights now (submit id) claims = release_claim actor id claims
work_event actor rights now (renew id) claims =
    if rights.can_work then renew_claim actor rights now id claims else (failed not_allowed, none)
work_event actor rights now (claim id path) claims =
    if rights.can_work
    then make_claim actor rights now id path claims
    else (failed not_allowed, none)

-- The claims that the store holds afterwards.
unfoldable pub dispatch_work :
    Actor → Rights → ℕ → WorkEvent → List WorkClaim → Answer × List WorkClaim
unfolding work_claims work_event
dispatch_work actor rights now event stored =
    let r = work_event actor rights now event (work_claims now stored) in
    elim r.1 [ none ↦ (r.0, stored) | some next ↦ (r.0, next) ]
