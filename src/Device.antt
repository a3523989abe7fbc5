-- ===== src/Device.antt =====
-- Browser sign-in for a device without a browser, backend/auth/deviceLogin.ts. The codes that wait
-- live in a `Map`; the JWT library is a parameter, and so is what `toUpperCase` makes of characters
-- that are not ASCII.
pub mod Code
pub mod Typing
pub mod Pruned
pub mod Delivery
pub mod Tests
use Prim.Native.Char.{Char}
use fos_mono.Common.{
  ℕ, ◌+◌, ◌*◌, ◌/◌, String, Bool, true, false, not, List, [], ◌∷◌, Option, none, some, select, ltb,
  if◌then◌else◌, lookup, has_key, set_key, delete_key,
}
use fos_mono.Common.Text.{text_take}
use fos_mono.Device.Code.{new_code, normalize_code}

-- `DEVICE_CODE_TTL_MS`
abbrev pub device_code_ttl_ms : ℕ
device_code_ttl_ms = 10 * 60 * 1000

-- `DEVICE_JWT_TTL_S`
abbrev pub device_jwt_ttl_s : ℕ
device_jwt_ttl_s = 30 * 24 * 60 * 60

pub data LoginStatus : Type 0 where
  pending approved denied : LoginStatus

-- `DeviceLogin`
pub record DeviceLogin : Type 0 where
  pub code : String
  pub name : String
  pub status : LoginStatus
  pub username : Option String
  pub jwt : Option String
  pub created_at : ℕ

abbrev pub Logins : Type 0
Logins = List (String × DeviceLogin)

pub record DeviceClaims : Type 0 where
  pub username : String
  pub exp : ℕ
  pub device : String

pub record Deps : Type 0 where
  pub jwt_sign : DeviceClaims → String
  pub upper_other : Char → String

pub data Reply : Type 0 where
  started : String → Reply
  expired : Reply
  status_of : LoginStatus → Reply
  approved_with : Option String → Option String → Reply
  described : String → String → LoginStatus → Reply
  was_approved : String → Reply
  was_denied : Reply
  fail : ℕ → String → Reply

abbrev pub is_fresh : ℕ → DeviceLogin → Bool
is_fresh now entry = not (ltb (entry.created_at + device_code_ttl_ms) now)

-- `prune`
unfoldable pub prune : ℕ → Logins → Logins
prune now logins = select (λ e. is_fresh now e.1) logins

-- The first code that is not in use; the random bytes of each call of `newCode` are an argument.
unfoldable pub unused_code : List (List ℕ) → Logins → Option String
unused_code [] logins = none
unused_code (bytes ∷ more) logins =
    let rest = unused_code more logins in
    if has_key (new_code bytes) logins then rest else some (new_code bytes)

abbrev pub name_of : Option String → String
name_of none = "a device"
name_of (some name) = text_take 80 name

-- `start`; nothing is answered while no code is free.
unfoldable pub start_login : Option String → List (List ℕ) → ℕ → Logins → Option (Reply × Logins)
start_login body_name bytes now logins = elim (unused_code bytes (prune now logins)) [
  | none ↦ none
  | some code ↦
      let entry : DeviceLogin = record {
        code = code;
        name = name_of body_name;
        status = pending;
        username = none;
        jwt = none;
        created_at = now;
      } in
      some (started code, set_key code entry (prune now logins))
]

abbrev pub entry_at : Deps → String → Logins → Option DeviceLogin
entry_at deps raw logins = lookup (normalize_code deps.upper_other raw) logins

-- `poll`
unfoldable pub poll_login : Deps → String → ℕ → Logins → Reply × Logins
poll_login deps raw now logins = elim (entry_at deps raw (prune now logins)) [
  | none ↦ (expired, prune now logins)
  | some entry ↦ elim entry.status [
    | approved ↦ (approved_with entry.jwt entry.username, delete_key entry.code (prune now logins))
    | pending ↦ (status_of pending, prune now logins)
    | denied ↦ (status_of denied, prune now logins)
  ]
]

-- `describe`
unfoldable pub describe_login : Deps → String → ℕ → Logins → Reply × Logins
describe_login deps raw now logins = elim (entry_at deps raw (prune now logins)) [
  | none ↦ (fail 404 "That code is unknown or expired", prune now logins)
  | some entry ↦ (described entry.code entry.name entry.status, prune now logins)
]

abbrev pub claims_for : String → String → ℕ → DeviceClaims
claims_for username device now = record {
  username = username;
  exp = now / 1000 + device_jwt_ttl_s;
  device = device;
}

-- The entry is an object of the map: what is set on it stands in the map.
abbrev pub grant_login : Deps → String → ℕ → DeviceLogin → DeviceLogin
grant_login deps username now entry = record entry {
  jwt = some (deps.jwt_sign (claims_for username entry.name now));
  username = some username;
  status = approved;
}

-- `approve`, for the user of the request's JWT.
unfoldable pub approve_login : Deps → String → String → ℕ → Logins → Reply × Logins
approve_login deps username raw now logins = elim (entry_at deps raw (prune now logins)) [
  | none ↦ (fail 404 "That code is unknown, expired or already used", prune now logins)
  | some entry ↦ elim entry.status [
    | pending ↦ (
      was_approved entry.name,
      set_key (normalize_code deps.upper_other raw) (grant_login deps username now entry)
          (prune now logins),
    )
    | approved ↦ (fail 404 "That code is unknown, expired or already used", prune now logins)
    | denied ↦ (fail 404 "That code is unknown, expired or already used", prune now logins)
  ]
]

abbrev pub deny_entry : DeviceLogin → DeviceLogin
deny_entry entry = record entry { status = denied }

-- `deny`; it neither prunes nor looks at the status.
unfoldable pub deny_login : Deps → String → Logins → Reply × Logins
deny_login deps raw logins = elim (entry_at deps raw logins) [
  | none ↦ (fail 404 "That code is unknown or expired", logins)
  | some entry ↦
      (was_denied, set_key (normalize_code deps.upper_other raw) (deny_entry entry) logins)
]
