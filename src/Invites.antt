-- ===== src/Invites.antt =====
-- Peer invites, backend/sync/peerInvites.ts: how a device attaches to a user's nodes without the
-- user's password. The table of invites is the list of its rows; the JWT library, the hash and the
-- users come in through `Deps`.
mod Table
mod Body
pub mod Change
pub mod Handlers
pub mod Sound
pub mod History
pub mod Once
pub mod Delivery
pub mod Access
pub mod Tests
unfoldable pub use Table.*
unfoldable pub use Body.*
use Prim.Native.Char.{code}
use Prim.Native.String
use text.Mathlib.Text.{starts_with}
use fos_mono.Common.{
  ℕ, zero, suc, ◌+◌, ◌*◌, ◌/◌, String, Bool, true, false, not, ◌&&◌, ◌||◌, List, [], ◌∷◌, ◌++◌,
  Option, none, some, length, select, every, find, ◌==◌, opt_eq, nat_eq, ltb, leb, if◌then◌else◌,
}
use fos_mono.Common.Text.{text_length, text_take}
use fos_mono.Node.{Json, str, arr, Items, nil, cons}

-- `INVITE_TTL_MS`
abbrev pub invite_ttl_ms : ℕ
invite_ttl_ms = 15 * 60 * 1000

-- `PEER_JWT_TTL_S`
abbrev pub peer_jwt_ttl_s : ℕ
peer_jwt_ttl_s = 30 * 24 * 60 * 60

-- `PeerClaims`; `kind` is always 'peer'.
pub record PeerClaims : Type 0 where
  pub username : String
  pub peer_id : String
  pub scope : List String
  pub name : Option String
  pub exp : ℕ

pub record User : Type 0 where
  pub id : ℕ
  pub username : String

-- `PeerInviteDeps`, with the JWT library and the hash.
pub record Deps : Type 0 where
  pub hash_invite_token : String → String
  pub jwt_sign : PeerClaims → String
  pub resolve_user : String → Option User
  pub resolve_user_by_id : ℕ → Option User

-- The claims of a request's JWT.
pub record Claims : Type 0 where
  pub username : Option String
  pub kind : Option String

-- An answer: a body, or a status code with its error.
pub data Reply {ℓ} (A : Type ℓ) : Type ℓ where
  done : A → Reply A
  fail : ℕ → String → Reply A

-- The claims that `signPeerJwt` signs; an empty name is left out.
unfoldable pub peer_claims : String → String → List String → ℕ → Option String → PeerClaims
peer_claims username peer_id scope now name = record {
  username = username;
  peer_id = peer_id;
  scope = scope;
  name = (if opt_eq name (some "") then none else name);
  exp = now / 1000 + peer_jwt_ttl_s;
}

-- `requireUser`
unfoldable pub require_user : Deps → Claims → Reply User
require_user deps claims = elim claims.username [
  | none ↦ fail 401 "Unauthorized"
  | some username ↦
      if username == ""
      then fail 401 "Unauthorized"
      else if opt_eq claims.kind (some "peer")
      then fail 403 "A peer credential cannot manage invites"
      else elim (deps.resolve_user username) [
        | none ↦ fail 401 "User not found"
        | some user ↦ done user
      ]
]

-- `expired`
abbrev pub expired : ℕ → Invite → Bool
expired now invite = ltb invite.expires_at now

pub record Created : Type 0 where
  pub token : String
  pub invite : Invite

-- `createInvite`; `scopeNames` is what `map(String)` makes of the array in the body, if there is one.
unfoldable pub create_invite :
    Deps → Claims → Option Json → Option (List String) → String → ℕ → World → Reply Created × World
create_invite deps claims body_scope body_names token now w = elim (require_user deps claims) [
  | fail status error ↦ (fail status error, w)
  | done user ↦ elim (scope_of body_scope) [
    | none ↦ (fail 400 "scope must be an array of ids", w)
    | some scope ↦
        let names = names_of body_names scope in
        elim (insert_invite user.id (deps.hash_invite_token token) scope names (now + invite_ttl_ms)
          w) [
            | none ↦ (fail 500 "Internal Server Error", w)
            | some (invite, w') ↦ (done (record { token = token; invite = invite }), w')
          ]
  ]
]

-- `listRequests`; the newest row comes first.
unfoldable pub list_requests : Deps → Claims → ℕ → World → Reply (List Invite) × World
list_requests deps claims now w = elim (require_user deps claims) [
  | fail status error ↦ (fail status error, w)
  | done user ↦ (done (select (λ i. not (expired now i)) (pending_for_user user.id w.invites)), w)
]

abbrev pub status_error : InviteStatus → String
status_error s = String.◌++◌ "Request is " (status_text s)

-- `approveRequest`
unfoldable pub approve_request :
    Deps → Claims → Option Json → Option ℕ → ℕ → World → Reply (List Capability) × World
approve_request deps claims body_capabilities id now w = elim (require_user deps claims) [
  | fail status error ↦ (fail status error, w)
  | done user ↦ elim (find_owned user.id id w.invites) [
    | none ↦ (fail 404 "Request not found", w)
    | some invite ↦ elim (waiting_peer invite) [
      | none ↦ (fail 409 (status_error invite.status), w)
      | some peer_id ↦ if expired now invite then (fail 409 "Request expired", w) else (
        done (capabilities_of body_capabilities),
        record w {
          invites =
              update_invite invite.id
                (grant (
                  deps.jwt_sign
                    (peer_claims user.username peer_id invite.scope now invite.peer_name)))
                w.invites;
          members =
              record {
                username = user.username;
                scope = invite.scope;
                peer_id = peer_id;
                name = invite.peer_name;
                capabilities = capabilities_of body_capabilities;
              }
              ∷ w.members;
        },
      )
    ]
  ]
]

-- `denyRequest`
unfoldable pub deny_request : Deps → Claims → Option ℕ → World → Reply (Unit {0}) × World
deny_request deps claims id w = elim (require_user deps claims) [
  | fail status error ↦ (fail status error, w)
  | done user ↦ elim (find_owned user.id id w.invites) [
    | none ↦ (fail 404 "Request not found", w)
    | some invite ↦ (done tt, record w { invites = update_invite invite.id refuse w.invites })
  ]
]

-- `claimInvite`; the random request id is an argument.
unfoldable pub claim_invite :
    Deps → Option Json → Option Json → Option Json → String → ℕ → World → Reply String × World
claim_invite deps body_token body_peer body_name request_id now w = elim (invite_token body_token) [
  | none ↦ (fail 400 "token required", w)
  | some token ↦ elim (peer_text body_peer) [
    | none ↦ (fail 400 "peerId required", w)
    | some peer_id ↦ elim (find_by_token_hash (deps.hash_invite_token token) w.invites) [
      | none ↦ (fail 404 "Invite not found or expired", w)
      | some invite ↦
          if expired now invite
          then (fail 404 "Invite not found or expired", w)
          else if not (is_open invite.status)
          then (fail 409 "Invite already used", w)
          else if is_used request_id w.invites
          then (fail 500 "Internal Server Error", w)
          else (
            done request_id,
            record w {
              invites =
                  update_invite invite.id (claim peer_id (short_name body_name) request_id)
                    w.invites;
              notices =
                  record {
                    user_id = invite.user_id;
                    invite_id = invite.id;
                    peer_id = peer_id;
                    peer_name = short_name body_name;
                    scope = invite.scope;
                    scope_names = invite.scope_names;
                  }
                  ∷ w.notices;
            },
          )
    ]
  ]
]

pub data Polled : Type 0 where
  status_only : InviteStatus → Polled
  approved_with : String → Option String → List String → Polled

abbrev pub username_of : Option User → Option String
username_of none = none
username_of (some user) = some user.username

-- `pollRequest`
unfoldable pub poll_request : Deps → String → String → ℕ → World → Reply Polled × World
poll_request deps request_id peer_id now w = elim (find_polled request_id peer_id w.invites) [
  | none ↦ (fail 404 "Request not found", w)
  | some invite ↦
      if is_pending invite.status && expired now invite
      then (done (status_only has_expired), w)
      else elim (granted_of invite) [
        | some jwt ↦ (
          done (
              approved_with jwt (username_of (deps.resolve_user_by_id invite.user_id))
                invite.scope),
          record w { invites = update_invite invite.id deliver w.invites },
        )
        | none ↦
            (done (status_only (if is_delivered invite.status then approved else invite.status)), w)
      ]
]
