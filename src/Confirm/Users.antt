-- ===== src/Confirm/Users.antt =====
-- The accounts that confirmation reads and writes (`ConfirmationUser`).
use fos_mono.Common.Rows.{update_row}
use fos_mono.Common.{ℕ, String, Bool, true, List, Option, none, some, find, ◌==◌, opt_eq}

pub data Channel : Type 0 where
  email phone : Channel

-- `confirmation_channel` holds what `start` writes, or nothing.
pub record Account : Type 0 where
  pub id : ℕ
  pub user_name : String
  pub email_address : Option String
  pub phone_number : Option String
  pub approved : Bool
  pub channel : Option Channel
  pub code_hash : Option String
  pub expiration : Option ℕ
  pub link_token : Option String

-- What was sent: a code, and the link's token in a mail.
pub data Message : Type 0 where
  mailed : String → String → String → Message
  texted : String → String → Message

-- The accounts, the messages and the linked numbers, the newest first.
pub record World : Type 0 where
  pub accounts : List Account
  pub outbox : List Message
  pub phones : List (ℕ × String)

-- `byName` and `byToken`
abbrev pub by_name : String → List Account → Option Account
by_name name = find (λ a. a.user_name == name)

abbrev pub by_token : String → List Account → Option Account
by_token token = find (λ a. opt_eq a.link_token (some token))

abbrev pub account_id : Account → ℕ
account_id a = a.id

-- `update`
abbrev pub update_account : ℕ → (Account → Account) → List Account → List Account
update_account = update_row account_id

abbrev pub pending_code : Channel → String → ℕ → String → Account → Account
pending_code email hash until token a = record a {
  channel = some email;
  code_hash = some hash;
  expiration = some until;
  link_token = some token;
}
pending_code phone hash until token a = record a {
  channel = some phone;
  code_hash = some hash;
  expiration = some until;
}

abbrev pub approve_account : Account → Account
approve_account a = record a {
  approved = true;
  channel = none;
  code_hash = none;
  expiration = none;
  link_token = none;
}
