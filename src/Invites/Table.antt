-- ===== src/Invites/Table.antt =====
-- The table of invites (`InviteRecord`, `prismaInviteRepo`) and the writes that the handlers make.
use fos_mono.Common.Rows.{update_row}
use fos_mono.Common.{
  ℕ, suc, String, Bool, true, false, ◌&&◌, List, [], ◌∷◌, ◌++◌, Option, none, some, find, ◌==◌,
  opt_eq, nat_eq, if◌then◌else◌,
}

-- `has_expired` is 'expired'.
pub data InviteStatus : Type 0 where
  open_ pending approved denied has_expired delivered : InviteStatus

abbrev pub status_text : InviteStatus → String
status_text open_ = "open"
status_text pending = "pending"
status_text approved = "approved"
status_text denied = "denied"
status_text has_expired = "expired"
status_text delivered = "delivered"

abbrev pub is_open : InviteStatus → Bool
is_open open_ = true
is_open _ = false

abbrev pub is_pending : InviteStatus → Bool
is_pending pending = true
is_pending _ = false

abbrev pub is_delivered : InviteStatus → Bool
is_delivered delivered = true
is_delivered _ = false

-- `InviteRecord`; `createdAt` only orders lists, as the place in the table does.
pub record Invite : Type 0 where
  pub id : ℕ
  pub user_id : ℕ
  pub token_hash : String
  pub request_id : Option String
  pub scope : List String
  pub scope_names : List String
  pub status : InviteStatus
  pub peer_id : Option String
  pub peer_name : Option String
  pub granted_jwt : Option String
  pub expires_at : ℕ

pub data Capability : Type 0 where
  read edit execute : Capability

abbrev pub same_capability : Capability → Capability → Bool
same_capability read read = true
same_capability edit edit = true
same_capability execute execute = true
same_capability _ _ = false

-- What `notify` is called with.
pub record Notice : Type 0 where
  pub user_id : ℕ
  pub invite_id : ℕ
  pub peer_id : String
  pub peer_name : String
  pub scope : List String
  pub scope_names : List String

-- What `attachMember` is called with.
pub record Member : Type 0 where
  pub username : String
  pub scope : List String
  pub peer_id : String
  pub name : Option String
  pub capabilities : List Capability

-- The table, the next id of its sequence, and the calls made, the newest first.
pub record World : Type 0 where
  pub invites : List Invite
  pub next_id : ℕ
  pub notices : List Notice
  pub members : List Member

abbrev pub find_by_token_hash : String → List Invite → Option Invite
find_by_token_hash hash = find (λ i. i.token_hash == hash)

abbrev pub find_by_request_id : String → List Invite → Option Invite
find_by_request_id request_id = find (λ i. opt_eq i.request_id (some request_id))

abbrev pub find_by_id : ℕ → List Invite → Option Invite
find_by_id id = find (λ i. nat_eq i.id id)

-- `findPendingForUser`
unfoldable pub pending_for_user : ℕ → List Invite → List Invite
pending_for_user user_id [] = []
pending_for_user user_id (i ∷ is) =
    let rest = pending_for_user user_id is in
    if nat_eq i.user_id user_id && is_pending i.status then rest ++ (i ∷ []) else rest

-- The invite of that id, when it belongs to the user; no id is one that is not a number.
abbrev pub find_owned : ℕ → Option ℕ → List Invite → Option Invite
find_owned user_id none is = none
find_owned user_id (some id) is = elim (find_by_id id is) [
  | none ↦ none
  | some i ↦ if nat_eq i.user_id user_id then some i else none
]

-- The invite of that request, when the peer made it.
abbrev pub find_polled : String → String → List Invite → Option Invite
find_polled request_id peer_id is =
    if request_id == "" then none else elim (find_by_request_id request_id is) [
      | none ↦ none
      | some i ↦ if opt_eq i.peer_id (some peer_id) then some i else none
    ]

-- The peer that waits for an answer.
abbrev pub waiting_peer : Invite → Option String
waiting_peer i =
    if is_pending i.status then (if opt_eq i.peer_id (some "") then none else i.peer_id) else none

-- The JWT to deliver.
abbrev pub granted_of : Invite → Option String
granted_of i = elim i.status [
  | approved ↦ if opt_eq i.granted_jwt (some "") then none else i.granted_jwt
  | _ ↦ none
]

abbrev pub is_used : String → List Invite → Bool
is_used request_id is = elim (find_by_request_id request_id is) [ none ↦ false | some _ ↦ true ]

-- `create`; the hash of a token is unique in the table.
unfoldable pub insert_invite :
    ℕ → String → List String → List String → ℕ → World → Option (Invite × World)
insert_invite user_id token_hash scope names expires_at w =
    elim (find_by_token_hash token_hash w.invites) [
      | some _ ↦ none
      | none ↦
          let invite : Invite = record {
            id = w.next_id;
            user_id = user_id;
            token_hash = token_hash;
            request_id = none;
            scope = scope;
            scope_names = names;
            status = open_;
            peer_id = none;
            peer_name = none;
            granted_jwt = none;
            expires_at = expires_at;
          } in
          some (invite, record w { invites = w.invites ++ (invite ∷ []); next_id = suc w.next_id })
    ]

abbrev pub invite_id : Invite → ℕ
invite_id i = i.id

-- `update`
abbrev pub update_invite : ℕ → (Invite → Invite) → List Invite → List Invite
update_invite = update_row invite_id

abbrev pub claim : String → String → String → Invite → Invite
claim peer_id name request_id i = record i {
  status = pending;
  peer_id = some peer_id;
  peer_name = some name;
  request_id = some request_id;
}

abbrev pub grant : String → Invite → Invite
grant jwt i = record i { status = approved; granted_jwt = some jwt }

abbrev pub refuse : Invite → Invite
refuse i = record i { status = denied; granted_jwt = none }

abbrev pub deliver : Invite → Invite
deliver i = record i { status = delivered; granted_jwt = none }
