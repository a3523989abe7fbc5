-- ===== src/Invites/Access.antt =====
-- Who may answer a request, and what an approval leads to.
use fos_mono.Common.{
  ℕ, String, Bool-cases, Option-cases, List, Option, some, ◌≡◌, ◌≢◌, refl, ap, ◌∙◌, inl, inr, arith,
  opt_eq, nat_eq,
}
use fos_mono.Node.{Json}
use fos_mono.Invites.{
  Deps, Claims, PeerClaims, User, done, fail, approved_with, expired, peer_claims, username_of,
  require_user, create_invite, list_requests, approve_request, deny_request, poll_request,
}
use fos_mono.Invites.Table.{
  invite_id, Invite, approved, World, Capability, find_by_id, find_by_request_id, waiting_peer,
  granted_of, update_invite, grant, deliver,
}
use fos_mono.Common.Rows.{after_self, find-find_id, find-update_row}
use fos_mono.Invites.Change.{Reply-cases, waiting_peer-eq}
use fos_mono.Invites.History.{Reach, no_invites, Reached-IsSound}

require_user-peer :
    (deps : Deps) (claims : Claims) (name : String)
    → claims.username ≡ some name
    → name ≢ ""
    → claims.kind ≡ some "peer"
    → require_user deps claims ≡ fail 403 "A peer credential cannot manage invites"
unfolding require_user
require_user-peer deps claims name named full peer = ground arith

-- A request with a peer's credential can neither make, list, approve nor deny invites: each handler
-- answers 403 and leaves everything as it is.
pub peer_refused :
    (deps : Deps) (claims : Claims) (name : String)
    → claims.username ≡ some name
    → name ≢ ""
    → claims.kind ≡ some "peer"
    → (w : World) (scope capabilities : Option Json) (names : Option (List String)) (token : String)
      (id : Option ℕ) (now : ℕ)
    → (create_invite deps claims scope names token now w
        ≡ (fail 403 "A peer credential cannot manage invites", w))
      × ((list_requests deps claims now w ≡ (fail 403 "A peer credential cannot manage invites", w))
          × ((approve_request deps claims capabilities id now w
                ≡ (fail 403 "A peer credential cannot manage invites", w))
              × (deny_request deps claims id w
                  ≡ (fail 403 "A peer credential cannot manage invites", w))))
unfolding create_invite list_requests approve_request deny_request
peer_refused deps claims name named full peer w scope capabilities names token id now =
    let refusal : require_user deps claims ≡ fail 403 "A peer credential cannot manage invites" =
      require_user-peer deps claims name named full peer in
    (ground arith, (ground arith, (ground arith, ground arith)))

record Approved (deps : Deps) (i : Invite) (w w' : World) : Type 0 where
  user : User
  peer : String
  at : ℕ
  waits : waiting_peer i ≡ some peer
  result :
      w'.invites
      ≡ update_invite i.id
          (grant (deps.jwt_sign (peer_claims user.username peer i.scope at i.peer_name)))
          w.invites

approve_request-done :
    (deps : Deps) (claims : Claims) (capabilities : Option Json) (now : ℕ) (i : Invite)
    (cs : List Capability) (w w' : World)
    → find_by_id i.id w.invites ≡ some i
    → approve_request deps claims capabilities (some i.id) now w ≡ (done cs, w')
    → Approved deps i w w'
unfolding approve_request
approve_request-done deps claims capabilities now i cs w w' at h =
    elim (Reply-cases (require_user deps claims)) [
      | inr (s, (e, refusal)) ↦ absurd (ground arith)
      | inl (user, accepted) ↦ elim (Bool-cases (nat_eq i.user_id user.id)) [
        | inr foreign ↦ absurd (ground arith)
        | inl owned ↦ elim (Option-cases (waiting_peer i)) [
          | inl idle ↦ absurd (ground arith)
          | inr (p, waits) ↦ elim (Bool-cases (expired now i)) [
            | inl late ↦ absurd (ground arith)
            | inr in_time ↦ record {
              user = user;
              peer = p;
              at = now;
              waits = waits;
              result = ground arith;
            }
          ]
        ]
      ]
    ]

poll_request-ready :
    (deps : Deps) (r p : String) (now : ℕ) (jwt : String) (i : Invite) (w : World)
    → find_by_request_id r w.invites ≡ some i
    → r ≢ ""
    → i.peer_id ≡ some p
    → i.status ≡ approved
    → i.granted_jwt ≡ some jwt
    → jwt ≢ ""
    → (name : Option String) × ((w' : World) × (poll_request deps r p now w
          ≡ (done (approved_with jwt name i.scope), w')))
unfolding poll_request
poll_request-ready deps r p now jwt i w found full asked is_approved kept_jwt signed =
    let ready : granted_of i ≡ some jwt = ground arith in
    (
      username_of (deps.resolve_user_by_id i.user_id),
      (record w { invites = update_invite i.id deliver w.invites }, ground arith),
    )

-- After any history, when the owner approves the invite of a request that a peer has made, the next
-- poll of that request by the peer hands out a JWT with the invite's scope, at any time, provided
-- that a signed JWT is not the empty text and the request id is not either.
pub approve_request-poll_request :
    {deps : Deps} {w w' : World} (claims : Claims) (capabilities : Option Json) (now : ℕ)
    (i : Invite) (r : String) (cs : List Capability)
    → ((c : PeerClaims) → deps.jwt_sign c ≢ "")
    → Reach deps no_invites w
    → r ≢ ""
    → find_by_request_id r w.invites ≡ some i
    → approve_request deps claims capabilities (some i.id) now w ≡ (done cs, w')
    → (later : ℕ)
    → (p jwt : String) × ((i.peer_id ≡ some p)
        × ((name : Option String) × ((w'' : World) × (poll_request deps r p later w'
                ≡ (done (approved_with jwt name i.scope), w'')))))
approve_request-poll_request {deps} {w} {w'} claims capabilities now i r cs signs before full found
      h later =
    let s = Reached-IsSound before in
    let at =
      find-find_id invite_id (λ k. opt_eq k.request_id (some r)) w.invites i s.distinct found in
    let a = approve_request-done deps claims capabilities now i cs w w' at h in
    let jwt = deps.jwt_sign (peer_claims a.user.username a.peer i.scope a.at i.peer_name) in
    let (waits, asked) = waiting_peer-eq i a.peer a.waits in
    let there : find_by_request_id r w'.invites ≡ some (grant jwt i) =
      ap (find_by_request_id r) a.result
      ∙ (find-update_row invite_id (λ k. opt_eq k.request_id (some r)) (grant jwt) w.invites i i
            s.distinct at refl found
          ∙ ap some (after_self invite_id (grant jwt) i)) in
    (
      a.peer,
      jwt,
      (
        asked,
        poll_request-ready deps r a.peer later jwt (grant jwt i) w' there full asked refl refl
            (signs _),
      ),
    )
