-- ===== src/Invites/Change.antt =====
-- What the handlers may do to the table of invites, as a relation, and that they do no more.
use fos_mono.Common.{
  ℕ, String, true, Bool-cases, Option-cases, List, Option, none, some, ◌≡◌, refl, sym, ap, ◌⊎◌, inl,
  inr, arith,
}
use fos_mono.Node.{Json}
use fos_mono.Invites.{
  Deps, User, Reply, done, fail, peer_claims, claim_invite, invite_token, peer_text, short_name,
}
use fos_mono.Invites.Table.{
  Invite, InviteStatus, open_, pending, approved, denied, has_expired, delivered, World,
  find_by_token_hash, find_by_request_id, find_by_id, find_owned, find_polled, waiting_peer,
  granted_of, is_open, is_pending, update_invite, insert_invite, claim, grant, refuse, deliver,
}

-- A user of that id signed for the invite's peer and scope.
pub record IsSigned (deps : Deps) (i : Invite) (jwt : String) : Type 0 where
  pub username : String
  pub user : User
  pub peer : String
  pub at : ℕ
  pub known : deps.resolve_user username ≡ some user
  pub owner : user.id ≡ i.user_id
  pub asked : i.peer_id ≡ some peer
  pub signed : jwt ≡ deps.jwt_sign (peer_claims user.username peer i.scope at i.peer_name)

pub data Change (deps : Deps) (w w' : World) : Type 0 where
  kept : w'.invites ≡ w.invites → w'.next_id ≡ w.next_id → Change deps w w'
  inserted :
      (user_id : ℕ) (hash : String) (scope names : List String) (expires_at : ℕ) (i : Invite)
      → insert_invite user_id hash scope names expires_at w ≡ some (i, w')
      → Change deps w w'
  claimed :
      (hash peer_id name request_id : String) (i : Invite)
      → find_by_token_hash hash w.invites ≡ some i
      → i.status ≡ open_
      → find_by_request_id request_id w.invites ≡ none
      → w'.invites ≡ update_invite i.id (claim peer_id name request_id) w.invites
      → w'.next_id ≡ w.next_id
      → Change deps w w'
  granted :
      (id : ℕ) (i : Invite) (jwt : String)
      → find_by_id id w.invites ≡ some i
      → i.status ≡ pending
      → IsSigned deps i jwt
      → w'.invites ≡ update_invite i.id (grant jwt) w.invites
      → w'.next_id ≡ w.next_id
      → Change deps w w'
  refused :
      (id : ℕ) (i : Invite)
      → find_by_id id w.invites ≡ some i
      → w'.invites ≡ update_invite i.id refuse w.invites
      → w'.next_id ≡ w.next_id
      → Change deps w w'
  handed :
      (request_id : String) (i : Invite)
      → find_by_request_id request_id w.invites ≡ some i
      → i.status ≡ approved
      → w'.invites ≡ update_invite i.id deliver w.invites
      → w'.next_id ≡ w.next_id
      → Change deps w w'

pub Reply-cases {ℓ} :
    {A : Type ℓ} (r : Reply A)
    → ((a : A) × (r ≡ done a)) ⊎ ((s : ℕ) × ((e : String) × (r ≡ fail s e)))
Reply-cases (done a) = inl (a, refl)
Reply-cases (fail s e) = inr (s, (e, refl))

is_open-eq : (s : InviteStatus) → is_open s ≡ true → s ≡ open_
is_open-eq open_ h = refl
is_open-eq pending h = absurd (ground arith)
is_open-eq approved h = absurd (ground arith)
is_open-eq denied h = absurd (ground arith)
is_open-eq has_expired h = absurd (ground arith)
is_open-eq delivered h = absurd (ground arith)

is_pending-eq : (s : InviteStatus) → is_pending s ≡ true → s ≡ pending
is_pending-eq open_ h = absurd (ground arith)
is_pending-eq pending h = refl
is_pending-eq approved h = absurd (ground arith)
is_pending-eq denied h = absurd (ground arith)
is_pending-eq has_expired h = absurd (ground arith)
is_pending-eq delivered h = absurd (ground arith)

pub find_owned-eq :
    (user_id : ℕ) (id : Option ℕ) (is : List Invite) (i : Invite)
    → find_owned user_id id is ≡ some i
    → (n : ℕ) × ((find_by_id n is ≡ some i) × (i.user_id ≡ user_id))
find_owned-eq user_id none is i h = absurd (ground arith)
find_owned-eq user_id (some n) is i h = elim (Option-cases (find_by_id n is)) [
  | inl missing ↦ absurd (ground arith)
  | inr (j, found) ↦ (n, (ground arith, ground arith))
]

pub waiting_peer-eq :
    (i : Invite) (p : String)
    → waiting_peer i ≡ some p
    → (i.status ≡ pending) × (i.peer_id ≡ some p)
waiting_peer-eq i p h = elim (Bool-cases (is_pending i.status)) [
  | inl waits ↦ (is_pending-eq i.status waits, ground arith)
  | inr other ↦ absurd (ground arith)
]

granted_of-status :
    (s : InviteStatus) (i : Invite) (j : String)
    → i.status ≡ s
    → granted_of i ≡ some j
    → i.status ≡ approved
granted_of-status approved i j e h = e
granted_of-status open_ i j e h = absurd (ground arith)
granted_of-status pending i j e h = absurd (ground arith)
granted_of-status denied i j e h = absurd (ground arith)
granted_of-status has_expired i j e h = absurd (ground arith)
granted_of-status delivered i j e h = absurd (ground arith)

pub granted_of-eq :
    (i : Invite) (j : String)
    → granted_of i ≡ some j
    → (i.status ≡ approved) × (i.granted_jwt ≡ some j)
granted_of-eq i j h =
    let is_approved = granted_of-status i.status i j refl h in (is_approved, ground arith)

pub find_polled-eq :
    (request_id peer_id : String) (is : List Invite) (i : Invite)
    → find_polled request_id peer_id is ≡ some i
    → (find_by_request_id request_id is ≡ some i) × (i.peer_id ≡ some peer_id)
find_polled-eq request_id peer_id is i h = elim (Option-cases (find_by_request_id request_id is)) [
  | inl missing ↦ absurd (ground arith)
  | inr (j, found) ↦ elim (Option-cases j.peer_id) [
    | inl nobody ↦ absurd (ground arith)
    | inr (p, asked) ↦ (ground arith, ground arith)
  ]
]

-- A claim that succeeds has found an open invite of its token and made it pending.
pub record Claimed (deps : Deps) (token : Option Json) (request_id : String) (w w' : World)
    : Type 0 where
  pub text : String
  pub named : invite_token token ≡ some text
  pub peer_id : String
  pub name : String
  pub invite : Invite
  pub found : find_by_token_hash (deps.hash_invite_token text) w.invites ≡ some invite
  pub was_open : invite.status ≡ open_
  pub unused : find_by_request_id request_id w.invites ≡ none
  pub result : w'.invites ≡ update_invite invite.id (claim peer_id name request_id) w.invites
  pub same_next : w'.next_id ≡ w.next_id

pub claim_invite-done :
    (deps : Deps) (token peer name : Option Json) (request_id answer : String) (now : ℕ)
    (w w' : World)
    → claim_invite deps token peer name request_id now w ≡ (done answer, w')
    → Claimed deps token request_id w w'
unfolding claim_invite
claim_invite-done deps token peer name request_id answer now w w' h =
    elim (Option-cases (invite_token token)) [
      | inl missing ↦ absurd (ground arith)
      | inr (t, named) ↦ elim (Option-cases (peer_text peer)) [
        | inl missing ↦ absurd (ground arith)
        | inr (p, asked) ↦
            elim (Option-cases (find_by_token_hash (deps.hash_invite_token t) w.invites)) [
              | inl missing ↦ absurd (ground arith)
              | inr (i, found) ↦ elim (Option-cases (find_by_request_id request_id w.invites)) [
                | inr (j, used) ↦ absurd (ground arith)
                | inl unused ↦ record {
                  text = t;
                  named = named;
                  peer_id = p;
                  name = short_name name;
                  invite = i;
                  found = found;
                  was_open = is_open-eq i.status (ground arith);
                  unused = unused;
                  result = ground arith;
                  same_next = ground arith;
                }
              ]
            ]
      ]
    ]

claim_invite-fail :
    (deps : Deps) (token peer name : Option Json) (request_id : String) (now s : ℕ) (e : String)
    (w w' : World)
    → claim_invite deps token peer name request_id now w ≡ (fail s e, w')
    → w ≡ w'
unfolding claim_invite
claim_invite-fail deps token peer name request_id now s e w w' h =
    elim (Option-cases (invite_token token)) [
      | inl missing ↦ ground arith
      | inr (t, named) ↦ elim (Option-cases (peer_text peer)) [
        | inl missing ↦ ground arith
        | inr (p, asked) ↦
            elim (Option-cases (find_by_token_hash (deps.hash_invite_token t) w.invites)) [
              | inl missing ↦ ground arith
              | inr (i, found) ↦ ground arith
            ]
      ]
    ]

pub same_world : (deps : Deps) (w w' : World) → w ≡ w' → Change deps w w'
same_world deps w w' e = kept (ap (λ x. x.invites) (sym e)) (ap (λ x. x.next_id) (sym e))

pub claim_invite-Change :
    (deps : Deps) (token peer name : Option Json) (request_id : String) (now : ℕ) (r : Reply String)
    (w w' : World)
    → claim_invite deps token peer name request_id now w ≡ (r, w')
    → Change deps w w'
claim_invite-Change deps token peer name request_id now (done a) w w' h =
    let c = claim_invite-done deps token peer name request_id a now w w' h in
    claimed _ c.peer_id c.name request_id c.invite c.found c.was_open c.unused c.result c.same_next
claim_invite-Change deps token peer name request_id now (fail s e) w w' h =
    same_world deps w w' (claim_invite-fail deps token peer name request_id now s e w w' h)
