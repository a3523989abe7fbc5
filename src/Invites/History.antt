-- ===== src/Invites/History.antt =====
-- Histories of requests to the invite handlers.
use fos_mono.Common.{ap, ℕ, String, List, [], Option, some, ◌≡◌, ◌∙◌, opt_eq, arith}
use fos_mono.Node.{Json}
use fos_mono.Invites.{
  Deps, Claims, User, Reply, done, Created, Polled, approved_with, peer_claims, create_invite,
  list_requests, approve_request, deny_request, claim_invite, poll_request,
}
use fos_mono.Invites.Table.{Invite, World, Capability, approved, find_by_request_id}
use fos_mono.Common.Rows.{HasDistinctIds, All-find}
use fos_mono.Invites.Change.{Change, claim_invite-Change, granted_of-eq, find_polled-eq}
use fos_mono.Invites.Handlers.{
  create_invite-Change, list_requests-Change, approve_request-Change, deny_request-Change,
  poll_request-Change, poll_request-Handed,
}
use fos_mono.Invites.Sound.{IsSound, IsSoundRow, Change-IsSound}

-- One request, answered in any way.
pub data Step (deps : Deps) (w w' : World) : Type 0 where
  creating :
      (claims : Claims) (scope : Option Json) (names : Option (List String)) (token : String)
      (now : ℕ) (r : Reply Created)
      → create_invite deps claims scope names token now w ≡ (r, w')
      → Step deps w w'
  listing :
      (claims : Claims) (now : ℕ) (r : Reply (List Invite))
      → list_requests deps claims now w ≡ (r, w')
      → Step deps w w'
  approving :
      (claims : Claims) (capabilities : Option Json) (id : Option ℕ) (now : ℕ)
      (r : Reply (List Capability))
      → approve_request deps claims capabilities id now w ≡ (r, w')
      → Step deps w w'
  denying :
      (claims : Claims) (id : Option ℕ) (r : Reply (Unit {0}))
      → deny_request deps claims id w ≡ (r, w')
      → Step deps w w'
  claiming :
      (token peer name : Option Json) (request_id : String) (now : ℕ) (r : Reply String)
      → claim_invite deps token peer name request_id now w ≡ (r, w')
      → Step deps w w'
  polling :
      (request_id peer_id : String) (now : ℕ) (r : Reply Polled)
      → poll_request deps request_id peer_id now w ≡ (r, w')
      → Step deps w w'

pub data Reach (deps : Deps) (w : World) : World → Type 0 where
  start : Reach deps w w
  step : {mid last : World} → Reach deps w mid → Step deps mid last → Reach deps w last

pub Step-Change : {deps : Deps} {w w' : World} → Step deps w w' → Change deps w w'
Step-Change {deps} {w} {w'} (creating claims scope names token now r h) =
    create_invite-Change deps claims scope names token now r w w' h
Step-Change {deps} {w} {w'} (listing claims now r h) = list_requests-Change deps claims now r w w' h
Step-Change {deps} {w} {w'} (approving claims capabilities id now r h) =
    approve_request-Change deps claims capabilities id now r w w' h
Step-Change {deps} {w} {w'} (denying claims id r h) = deny_request-Change deps claims id r w w' h
Step-Change {deps} {w} {w'} (claiming token peer name request_id now r h) =
    claim_invite-Change deps token peer name request_id now r w w' h
Step-Change {deps} {w} {w'} (polling request_id peer_id now r h) =
    poll_request-Change deps request_id peer_id now r w w' h

pub Reach-IsSound :
    {deps : Deps} {w w' : World} → IsSound deps w → Reach deps w w' → IsSound deps w'
Reach-IsSound s start = s
Reach-IsSound {deps} s (step {mid} {last} r st) =
    Change-IsSound deps mid last (Reach-IsSound s r) (Step-Change st)

-- The table before the first request.
abbrev pub no_invites : World
no_invites = record { invites = []; next_id = 1; notices = []; members = [] }

no_invites-IsSound : (deps : Deps) → IsSound deps no_invites
unfolding HasDistinctIds
no_invites-IsSound deps = record { rows = tt; below = tt; distinct = tt }

pub Reached-IsSound : {deps : Deps} {w : World} → Reach deps no_invites w → IsSound deps w
Reached-IsSound {deps} r = Reach-IsSound (no_invites-IsSound deps) r

-- Whatever requests came before, a JWT that a poll hands out stands in the invite of that request,
-- an approved one, and the JWT is signed by that invite's owner, a known user, for the peer that
-- polls and for that invite's scope, which the answer repeats.
pub poll_request-IsSigned :
    {deps : Deps} {w : World}
    → Reach deps no_invites w
    → (request_id peer_id : String) (now : ℕ) (jwt : String) (name : Option String)
      (scope : List String) (w' : World)
    → poll_request deps request_id peer_id now w ≡ (done (approved_with jwt name scope), w')
    → (i : Invite) × (username : String) × (user : User) × (at : ℕ) × (find_by_request_id request_id
          w.invites
        ≡ some i)
      × (i.status ≡ approved)
      × (i.granted_jwt ≡ some jwt)
      × (i.scope ≡ scope)
      × (deps.resolve_user username ≡ some user)
      × (user.id ≡ i.user_id)
      × (jwt ≡ deps.jwt_sign (peer_claims user.username peer_id i.scope at i.peer_name))
poll_request-IsSigned {deps} {w} r request_id peer_id now jwt name scope w' h =
    let c = poll_request-Handed deps request_id peer_id now jwt name scope w w' h in
    let i = c.invite in
    let (found, asked) = find_polled-eq request_id peer_id w.invites i c.polled in
    let (is_approved, kept_jwt) = granted_of-eq i jwt c.ready in
    let row =
      All-find (λ j. opt_eq j.request_id (some request_id)) (IsSoundRow deps) w.invites i
        (Reached-IsSound r).rows found in
    let (_, s) = row.sound jwt kept_jwt in
    let same_peer : s.peer ≡ peer_id = ground (arith, s.asked, asked) in
    (
      i,
      s.username,
      s.user,
      s.at,
      found,
      is_approved,
      kept_jwt,
      c.same_scope,
      s.known,
      s.owner,
      s.signed
          ∙ ap (λ p. deps.jwt_sign (peer_claims s.user.username p i.scope s.at i.peer_name))
              same_peer,
    )
