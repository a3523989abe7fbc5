-- ===== src/Confirm.antt =====
-- Account confirmation, backend/auth/confirmation.ts, `createConfirmation`: an account is unusable until
-- a code, or the link in a mail, comes back. Codes and tokens are arguments, as they are random.
mod Users
pub mod Approval
pub mod Link
pub mod Change
pub mod History
pub mod Tests
unfoldable pub use Users.*
use fos_mono.Common.{
  ℕ, ◌+◌, ◌*◌, String, Bool, true, false, not, ◌&&◌, ◌||◌, List, [], ◌∷◌, ◌++◌, Option, none, some,
  ◌==◌, opt_eq, nat_eq, ltb, if◌then◌else◌,
}
use fos_mono.Common.Text.{text_take, text_last, trim, before_at, after_at}
use fos_mono.Node.{Json, str}
use Prim.Native.String

-- `CODE_TTL_MS`
abbrev pub code_ttl_ms : ℕ
code_ttl_ms = 15 * 60000

-- `ConfirmationDeps`: the hash of a code for a name, whether texting is there and set up, and what a
-- failed delivery says.
pub record Deps : Type 0 where
  pub hash_code : String → String → String
  pub has_sms : Bool
  pub sms_configured : Option Bool
  pub delivery_error : Message → Option String

-- `maskDestination`
unfoldable pub mask_destination : Channel → String → String
mask_destination phone destination =
    String.◌++◌ (text_take 3 destination) (String.◌++◌ "…" (text_last 2 destination))
mask_destination email destination =
    String.◌++◌ (text_take 2 (before_at destination)) (String.◌++◌ "…@" (after_at destination))

-- `smsAvailable`
unfoldable pub sms_available : Deps → Bool
sms_available deps = elim deps.sms_configured [ none ↦ deps.has_sms | some configured ↦ configured ]

-- A text that is neither null nor empty.
abbrev pub present : Option String → Option String
present none = none
present (some s) = if s == "" then none else some s

abbrev pub destination_of : Channel → Account → Option String
destination_of email a = present a.email_address
destination_of phone a = present a.phone_number

abbrev pub missing_error : Channel → String
missing_error email = "The account has no email to confirm."
missing_error phone = "The account has no phone to confirm."

-- The message of `start`; with no SMS function the call fails.
abbrev pub message_of : Channel → String → String → String → Message
message_of email destination code token = mailed destination code token
message_of phone destination code token = texted destination code

abbrev pub send_error : Deps → Channel → Message → Option String
send_error deps email m = deps.delivery_error m
send_error deps phone m =
    if deps.has_sms then deps.delivery_error m else some "deps.sms is not a function"

abbrev pub needs_sms : Channel → Bool
needs_sms email = false
needs_sms phone = true

pub data Started : Type 0 where
  sent_to : Channel → String → Started
  throws : String → Started

-- `start`; what is stored stays stored when the delivery fails.
unfoldable pub start_confirmation :
    Deps → Account → Channel → String → String → ℕ → World → Started × World
start_confirmation deps user channel code token now w = elim (destination_of channel user) [
  | none ↦ (throws (missing_error channel), w)
  | some destination ↦
      if needs_sms channel && not (sms_available deps)
      then (
        throws "Texting is not configured on this server; register with an email address instead.",
        w,
      )
      else let stored =
          update_account user.id
            (pending_code channel (deps.hash_code code user.user_name) (now + code_ttl_ms) token)
            w.accounts in
        elim (send_error deps channel (message_of channel destination code token)) [
          | some error ↦ (throws error, record w { accounts = stored })
          | none ↦ (
            sent_to channel (mask_destination channel destination),
            record w {
              accounts = stored;
              outbox = message_of channel destination code token ∷ w.outbox;
            },
          )
        ]
]

abbrev pub linked : Account → List (ℕ × String) → List (ℕ × String)
linked a phones = elim a.channel [
  | some phone ↦ elim (present a.phone_number) [
    | none ↦ phones
    | some number ↦ (a.id, number) ∷ phones
  ]
  | _ ↦ phones
]

-- `approve`
unfoldable pub approve : Account → World → World
approve user w = record w {
  accounts = update_account user.id approve_account w.accounts;
  phones = linked user w.phones;
}

pub data Reply : Type 0 where
  confirmed : String → Reply
  already : Reply
  sent : Option (Channel × String) → Reply
  fail : ℕ → String → Reply

abbrev pub text_of : Option Json → String
text_of (some (str s)) = s
text_of _ = ""

-- The end of `confirm`, for the account found.
unfoldable pub confirm_account : Account → World → Reply × World
confirm_account user w =
    if user.approved then (already, w) else (confirmed user.user_name, approve user w)

unfoldable pub confirm_link : String → World → Reply × World
confirm_link token w = elim (by_token token w.accounts) [
  | none ↦ (fail 404 "This confirmation link is invalid or was already used.", w)
  | some user ↦ confirm_account user w
]

unfoldable pub confirm_code : Deps → String → String → ℕ → World → Reply × World
confirm_code deps username code now w =
    if username == "" || code == ""
    then (fail 400 "Enter the code we sent.", w)
    else elim (by_name username w.accounts) [
      | none ↦ (fail 404 "No account has that name.", w)
      | some user ↦ if user.approved then (already, w) else elim (present user.code_hash) [
        | none ↦ (fail 400 "No confirmation is pending; request a new code.", w)
        | some hash ↦ elim user.expiration [
          | none ↦ (fail 400 "No confirmation is pending; request a new code.", w)
          | some until ↦
              if ltb until now
              then (fail 410 "That code expired; request a new one.", w)
              else if deps.hash_code code user.user_name == hash
              then confirm_account user w
              else (fail 400 "Wrong code.", w)
        ]
      ]
    ]

-- `confirm`
unfoldable pub confirm : Deps → Option Json → Option Json → Option Json → ℕ → World → Reply × World
confirm deps body_token body_username body_code now w =
    let by_code =
      confirm_code deps (trim (text_of body_username)) (trim (text_of body_code)) now w in
    if text_of body_token == "" then by_code else confirm_link (text_of body_token) w

abbrev pub resend_channel : Account → Channel
resend_channel a = elim a.channel [ some phone ↦ phone | _ ↦ email ]

abbrev pub resent : Started × World → Reply × World
resent (sent_to channel destination, w) = (sent (some (channel, destination)), w)
resent (throws error, w) = (fail 502 error, w)

-- `resend`
unfoldable pub resend : Deps → Option Json → String → String → ℕ → World → Reply × World
resend deps body_username code token now w =
    let username = trim (text_of body_username) in
    if username == ""
    then (fail 400 "A username is required.", w)
    else elim (by_name username w.accounts) [
      | none ↦ (sent none, w)
      | some user ↦
          let fresh =
            resent (start_confirmation deps user (resend_channel user) code token now w) in
          if user.approved then (sent none, w) else fresh
    ]
