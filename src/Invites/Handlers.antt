-- ===== src/Invites/Handlers.antt =====
-- Each handler changes the table as `Change` allows.
use fos_mono.Common.{
  nat_eq, ℕ, ◌+◌, String, Bool-cases, Option-cases, List, Option, some, ◌≡◌, refl, sym, inl, inr,
  arith,
}
use fos_mono.Node.{Json}
use fos_mono.Invites.{
  Deps, Claims, User, Reply, done, fail, Created, Polled, status_only, approved_with, expired,
  require_user, create_invite, list_requests, approve_request, deny_request, poll_request, scope_of,
  names_of, invite_ttl_ms,
}
use fos_mono.Invites.Table.{
  Invite, InviteStatus, World, Capability, find_by_id, find_owned, find_polled, waiting_peer,
  granted_of, update_invite, insert_invite, refuse, deliver, is_pending,
}
use fos_mono.Invites.Change.{
  Change, inserted, granted, refused, handed, Reply-cases, same_world, find_owned-eq,
  waiting_peer-eq, granted_of-eq, find_polled-eq,
}

require_user-eq :
    (deps : Deps) (claims : Claims) (user : User)
    → require_user deps claims ≡ done user
    → (name : String) × (deps.resolve_user name ≡ some user)
unfolding require_user
require_user-eq deps claims user h = elim (Option-cases claims.username) [
  | inl missing ↦ absurd (ground arith)
  | inr (name, named) ↦ elim (Option-cases (deps.resolve_user name)) [
    | inl unknown ↦ absurd (ground arith)
    | inr (u, known) ↦ (name, ground arith)
  ]
]

pub create_invite-Change :
    (deps : Deps) (claims : Claims) (scope : Option Json) (names : Option (List String))
    (token : String) (now : ℕ) (r : Reply Created) (w w' : World)
    → create_invite deps claims scope names token now w ≡ (r, w')
    → Change deps w w'
unfolding create_invite
create_invite-Change deps claims scope names token now r w w' h =
    elim (Reply-cases (require_user deps claims)) [
      | inr (s, (e, refusal)) ↦ same_world deps w w' (ground arith)
      | inl (user, known) ↦ elim (Option-cases (scope_of scope)) [
        | inl bad ↦ same_world deps w w' (ground arith)
        | inr (ids, good) ↦
            elim (Option-cases (
              insert_invite user.id (deps.hash_invite_token token) ids (names_of names ids)
                (now + invite_ttl_ms) w)) [
                  | inl clash ↦ same_world deps w w' (ground arith)
                  | inr ((i, mid), new) ↦
                      inserted user.id (deps.hash_invite_token token) ids (names_of names ids)
                        (now + invite_ttl_ms) i (ground arith)
                ]
      ]
    ]

pub list_requests-Change :
    (deps : Deps) (claims : Claims) (now : ℕ) (r : Reply (List Invite)) (w w' : World)
    → list_requests deps claims now w ≡ (r, w')
    → Change deps w w'
unfolding list_requests
list_requests-Change deps claims now r w w' h = elim (Reply-cases (require_user deps claims)) [
  | inr (s, (e, refusal)) ↦ same_world deps w w' (ground arith)
  | inl (user, known) ↦ same_world deps w w' (ground arith)
]

pub approve_request-Change :
    (deps : Deps) (claims : Claims) (capabilities : Option Json) (id : Option ℕ) (now : ℕ)
    (r : Reply (List Capability)) (w w' : World)
    → approve_request deps claims capabilities id now w ≡ (r, w')
    → Change deps w w'
unfolding approve_request
approve_request-Change deps claims capabilities id now r w w' h =
    elim (Reply-cases (require_user deps claims)) [
      | inr (s, (e, refusal)) ↦ same_world deps w w' (ground arith)
      | inl (user, accepted) ↦ elim (Option-cases (find_owned user.id id w.invites)) [
        | inl missing ↦ same_world deps w w' (ground arith)
        | inr (i, owned) ↦ elim (Option-cases (waiting_peer i)) [
          | inl idle ↦ same_world deps w w' (ground arith)
          | inr (p, waits) ↦ elim (Bool-cases (expired now i)) [
            | inl late ↦ same_world deps w w' (ground arith)
            | inr in_time ↦
                let (name, known) = require_user-eq deps claims user accepted in
                let (n, (found, owner)) = find_owned-eq user.id id w.invites i owned in
                let (is_waiting, asked) = waiting_peer-eq i p waits in
                granted n i _ found is_waiting
                  (record {
                    username = name;
                    user = user;
                    peer = p;
                    at = now;
                    known = known;
                    owner = sym owner;
                    asked = asked;
                    signed = refl;
                  })
                  (ground arith) (ground arith)
          ]
        ]
      ]
    ]

pub deny_request-Change :
    (deps : Deps) (claims : Claims) (id : Option ℕ) (r : Reply (Unit {0})) (w w' : World)
    → deny_request deps claims id w ≡ (r, w')
    → Change deps w w'
unfolding deny_request
deny_request-Change deps claims id r w w' h = elim (Reply-cases (require_user deps claims)) [
  | inr (s, (e, refusal)) ↦ same_world deps w w' (ground arith)
  | inl (user, accepted) ↦ elim (Option-cases (find_owned user.id id w.invites)) [
    | inl missing ↦ same_world deps w w' (ground arith)
    | inr (i, owned) ↦
        let (n, (found, owner)) = find_owned-eq user.id id w.invites i owned in
        refused n i found (ground arith) (ground arith)
  ]
]

pub deny_request-done :
    (deps : Deps) (claims : Claims) (i : Invite) (w w' : World)
    → find_by_id i.id w.invites ≡ some i
    → deny_request deps claims (some i.id) w ≡ (done tt, w')
    → w'.invites ≡ update_invite i.id refuse w.invites
unfolding deny_request
deny_request-done deps claims i w w' at h = elim (Reply-cases (require_user deps claims)) [
  | inr (s, (e, refusal)) ↦ absurd (ground arith)
  | inl (user, accepted) ↦ elim (Bool-cases (nat_eq i.user_id user.id)) [
    | inl owned ↦ ground arith
    | inr foreign ↦ absurd (ground arith)
  ]
]

-- A poll that is answered with a JWT has found it in an approved invite of the peer, and has
-- removed it.
pub record Handed (request_id peer_id jwt : String) (scope : List String) (w w' : World)
    : Type 0 where
  pub invite : Invite
  pub polled : find_polled request_id peer_id w.invites ≡ some invite
  pub ready : granted_of invite ≡ some jwt
  pub same_scope : invite.scope ≡ scope
  pub result : w'.invites ≡ update_invite invite.id deliver w.invites
  pub same_next : w'.next_id ≡ w.next_id

pub poll_request-Handed :
    (deps : Deps) (request_id peer_id : String) (now : ℕ) (jwt : String) (name : Option String)
    (scope : List String) (w w' : World)
    → poll_request deps request_id peer_id now w ≡ (done (approved_with jwt name scope), w')
    → Handed request_id peer_id jwt scope w w'
unfolding poll_request
poll_request-Handed deps request_id peer_id now jwt name scope w w' h =
    elim (Option-cases (find_polled request_id peer_id w.invites)) [
      | inl missing ↦ absurd (ground arith)
      | inr (i, polled) ↦ elim (Bool-cases (is_pending i.status)) [
        | inl waits ↦ elim (Option-cases (granted_of i)) [
          | inl nothing ↦ absurd (ground arith)
          | inr (j, ready) ↦ record {
            invite = i;
            polled = polled;
            ready = ground arith;
            same_scope = ground arith;
            result = ground arith;
            same_next = ground arith;
          }
        ]
        | inr other ↦ elim (Option-cases (granted_of i)) [
          | inl nothing ↦ absurd (ground arith)
          | inr (j, ready) ↦ record {
            invite = i;
            polled = polled;
            ready = ground arith;
            same_scope = ground arith;
            result = ground arith;
            same_next = ground arith;
          }
        ]
      ]
    ]

poll_request-fail :
    (deps : Deps) (request_id peer_id : String) (now s : ℕ) (e : String) (w w' : World)
    → poll_request deps request_id peer_id now w ≡ (fail s e, w')
    → w ≡ w'
unfolding poll_request
poll_request-fail deps request_id peer_id now s e w w' h =
    elim (Option-cases (find_polled request_id peer_id w.invites)) [
      | inl missing ↦ ground arith
      | inr (i, polled) ↦ elim (Option-cases (granted_of i)) [
        | inl nothing ↦ ground arith
        | inr (j, ready) ↦ ground arith
      ]
    ]

poll_request-status :
    (deps : Deps) (request_id peer_id : String) (now : ℕ) (s : InviteStatus) (w w' : World)
    → poll_request deps request_id peer_id now w ≡ (done (status_only s), w')
    → w ≡ w'
unfolding poll_request
poll_request-status deps request_id peer_id now s w w' h =
    elim (Option-cases (find_polled request_id peer_id w.invites)) [
      | inl missing ↦ absurd (ground arith)
      | inr (i, polled) ↦ elim (Option-cases (granted_of i)) [
        | inl nothing ↦ ground arith
        | inr (j, ready) ↦ ground arith
      ]
    ]

pub poll_request-Change :
    (deps : Deps) (request_id peer_id : String) (now : ℕ) (r : Reply Polled) (w w' : World)
    → poll_request deps request_id peer_id now w ≡ (r, w')
    → Change deps w w'
poll_request-Change deps request_id peer_id now (fail s e) w w' h =
    same_world deps w w' (poll_request-fail deps request_id peer_id now s e w w' h)
poll_request-Change deps request_id peer_id now (done (status_only s)) w w' h =
    same_world deps w w' (poll_request-status deps request_id peer_id now s w w' h)
poll_request-Change deps request_id peer_id now (done (approved_with jwt name scope)) w w' h =
    let c = poll_request-Handed deps request_id peer_id now jwt name scope w w' h in
    let (found, asked) = find_polled-eq request_id peer_id w.invites c.invite c.polled in
    handed request_id c.invite found (granted_of-eq c.invite jwt c.ready).0 c.result c.same_next
