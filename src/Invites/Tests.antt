-- ===== src/Invites/Tests.antt =====
-- An invite made, claimed, approved and polled twice.
use fos_mono.Common.{
  ℕ, String, String_discrete, Bool-cases, inl, inr, false, [], ◌∷◌, Option, none, some, ◌≡◌, ◌≢◌,
  refl, arith, ◌==◌, if◌then◌else◌,
}
use fos_mono.Common.Rows.{update_row}
use fos_mono.Node.{Json, str, arr, nil, cons}
use fos_mono.Invites.{
  Deps, Claims, User, PeerClaims, done, approved_with, is_scope, peer_claims, require_user,
  create_invite, capabilities_of, requested_capabilities, approve_request, deny_request,
  claim_invite, poll_request,
}
use fos_mono.Invites.Table.{
  Invite, open_, pending, approved, delivered, denied, World, edit, read, insert_invite,
  find_by_request_id,
}
use fos_mono.Invites.History.{
  Reach, start, step, creating, claiming, approving, no_invites, poll_request-IsSigned,
}
use fos_mono.Invites.Once.{claim_invite_once}
use fos_mono.Invites.Delivery.{poll_request_once}
use fos_mono.Invites.Access.{approve_request-poll_request}

abbrev ann : User
ann = record { id = 1; username = "ann" }

abbrev deps : Deps
deps = record {
  hash_invite_token = λ t. t;
  jwt_sign = λ c. if c.peer_id == "phone" then "jwt.phone" else "jwt.other";
  resolve_user = λ name. if name == "ann" then some ann else none;
  resolve_user_by_id = λ id. some ann;
}

abbrev by_ann : Claims
by_ann = record { username = some "ann"; kind = none }

abbrev by_peer : Claims
by_peer = record { username = some "ann"; kind = some "peer" }

abbrev invite : Invite
invite = record {
  id = 1;
  user_id = 1;
  token_hash = "fosinv_a";
  request_id = none;
  scope = "root" ∷ [];
  scope_names = "root" ∷ [];
  status = open_;
  peer_id = none;
  peer_name = none;
  granted_jwt = none;
  expires_at = 900000;
}

abbrev asked : Invite
asked = record invite {
  request_id = some "r";
  status = pending;
  peer_id = some "phone";
  peer_name = some "Phone";
}

abbrev made : World
made = record { invites = invite ∷ []; next_id = 2; notices = []; members = [] }

abbrev taken : World
taken = record {
  invites = asked ∷ [];
  next_id = 2;
  notices =
      record {
        user_id = 1;
        invite_id = 1;
        peer_id = "phone";
        peer_name = "Phone";
        scope = "root" ∷ [];
        scope_names = "root" ∷ [];
      }
      ∷ [];
  members = [];
}

abbrev allowed : World
allowed = record taken {
  invites = record asked { status = approved; granted_jwt = some "jwt.phone" } ∷ [];
  members =
      record {
        username = "ann";
        scope = "root" ∷ [];
        peer_id = "phone";
        name = some "Phone";
        capabilities = edit ∷ [];
      }
      ∷ [];
}

abbrev over : World
over = record allowed { invites = record asked { status = delivered } ∷ [] }

abbrev turned_down : World
turned_down = record allowed { invites = record asked { status = denied } ∷ [] }

abbrev scope_json : Option Json
scope_json = some (arr (cons (str "root") nil))

create_test :
    create_invite deps by_ann scope_json none "fosinv_a" 0 no_invites
    ≡ (done (record { token = "fosinv_a"; invite = invite }), made)
unfolding create_invite require_user is_scope insert_invite String_discrete
create_test = refl

claim_test :
    claim_invite deps (some (str "fosinv_a")) (some (str "phone")) (some (str "Phone")) "r" 5 made
    ≡ (done "r", taken)
unfolding claim_invite update_row String_discrete
claim_test = refl

approve_test : approve_request deps by_ann none (some 1) 9 taken ≡ (done (edit ∷ []), allowed)
unfolding approve_request require_user capabilities_of peer_claims update_row String_discrete
approve_test = refl

poll_test :
    poll_request deps "r" "phone" 20 allowed
    ≡ (done (approved_with "jwt.phone" (some "ann") ("root" ∷ [])), over)
unfolding poll_request update_row String_discrete
poll_test = refl

deny_test : deny_request deps by_ann (some 1) allowed ≡ (done tt, turned_down)
unfolding deny_request require_user update_row String_discrete
deny_test = refl

capabilities_test :
    capabilities_of (
      some (arr (cons (str "read") (cons (str "own") (cons (str "edit") (cons (str "read") nil))))))
    ≡ read ∷ edit ∷ []
unfolding capabilities_of requested_capabilities String_discrete
capabilities_test = refl

until_made : Reach deps no_invites made
until_made = step start (creating by_ann scope_json none "fosinv_a" 0 _ create_test)

until_taken : Reach deps no_invites taken
until_taken =
    step until_made (
      claiming (some (str "fosinv_a")) (some (str "phone")) (some (str "Phone")) "r" 5 _ claim_test)

until_allowed : Reach deps no_invites allowed
until_allowed = step until_taken (approving by_ann none (some 1) 9 _ approve_test)

poll_request-IsSigned_example :
    (i : Invite) × (username : String) × (user : User) × (at : ℕ) × (find_by_request_id "r"
        allowed.invites
      ≡ some i)
    × (i.status ≡ approved)
    × (i.granted_jwt ≡ some "jwt.phone")
    × (i.scope ≡ "root" ∷ [])
    × (deps.resolve_user username ≡ some user)
    × (user.id ≡ i.user_id)
    × ("jwt.phone" ≡ deps.jwt_sign (peer_claims user.username "phone" i.scope at i.peer_name))
poll_request-IsSigned_example =
    poll_request-IsSigned until_allowed "r" "phone" 20 "jwt.phone" (some "ann") ("root" ∷ []) over
      poll_test

claim_invite_once_example :
    claim_invite deps (some (str "fosinv_a")) (some (str "laptop")) none "s" 6 allowed
    ≢ (done "s", over)
claim_invite_once_example =
    claim_invite_once (some (str "fosinv_a")) (some (str "phone")) (some (str "Phone")) "r" "r" 5
      until_made claim_test (step start (approving by_ann none (some 1) 9 _ approve_test))
      (some (str "laptop")) none "s" "s" 6 over

poll_request_once_example :
    poll_request deps "r" "phone" 21 over
    ≢ (done (approved_with "jwt.phone" none ("root" ∷ [])), over)
poll_request_once_example =
    poll_request_once "r" "phone" 20 "jwt.phone" (some "ann") ("root" ∷ []) until_allowed poll_test
      start "phone" 21 "jwt.phone" none ("root" ∷ []) over

asked_test :
    find_by_request_id "r" allowed.invites
    ≡ some (record asked { status = approved; granted_jwt = some "jwt.phone" })
unfolding String_discrete
asked_test = refl

waiting_test : find_by_request_id "r" taken.invites ≡ some asked
unfolding String_discrete
waiting_test = refl

differ : (s t : String) → (s == t) ≡ false → s ≢ t
differ s t h = ground arith

signs : (c : PeerClaims) → deps.jwt_sign c ≢ ""
unfolding String_discrete
signs c = elim (Bool-cases (c.peer_id == "phone")) [
  | inl phone ↦ rw phone (differ "jwt.phone" "" refl)
  | inr other ↦ rw other (differ "jwt.other" "" refl)
]

approve_request-poll_request_example :
    (p jwt : String) × ((asked.peer_id ≡ some p)
      × ((name : Option String) × ((w : World) × (poll_request deps "r" p 20 allowed
              ≡ (done (approved_with jwt name ("root" ∷ [])), w)))))
unfolding String_discrete
approve_request-poll_request_example =
    approve_request-poll_request by_ann none 9 asked "r" (edit ∷ []) signs until_taken
      (differ "r" "" refl) waiting_test approve_test 20
