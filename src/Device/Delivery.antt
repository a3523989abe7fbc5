-- ===== src/Device/Delivery.antt =====
-- What a device gets: the JWT of the user who approved, once, in time, and never after a denial.
use fos_mono.Common.{
  ℕ, ◌+◌, ◌≤◌, ◌<◌, String, Bool, true, false, Option-cases, Option, none, some, if◌then◌else◌,
  lookup, set_key, delete_key, lookup-set_key, lookup-delete_key, ◌≡◌, ◌≢◌, refl, sym, ap, subst,
  ◌∙◌, inl, inr, arith,
}
use fos_mono.Device.Code.{normalize_code}
use fos_mono.Device.{
  pending, approved, denied, DeviceLogin, Logins, Deps, expired, approved_with, was_approved,
  was_denied, fail, is_fresh, prune, entry_at, claims_for, grant_login, deny_entry, poll_login,
  approve_login, deny_login, describe_login, device_code_ttl_ms,
}
use fos_mono.Device.Pruned.{
  IsKeyed, lookup-IsKeyed, lookup-prune-none, lookup-prune, prune-IsKeyed, set_key-IsKeyed,
}

poll_login-handed :
    (deps : Deps) (raw : String) (now : ℕ) (jwt name : Option String) (logins logins' : Logins)
    → poll_login deps raw now logins ≡ (approved_with jwt name, logins')
    → (e : DeviceLogin) × ((entry_at deps raw (prune now logins) ≡ some e)
        × (logins' ≡ delete_key e.code (prune now logins)))
unfolding poll_login
poll_login-handed deps raw now jwt name logins logins' h =
    elim (Option-cases (entry_at deps raw (prune now logins))) [
      | inl missing ↦ absurd (ground arith)
      | inr (e, found) ↦ (e, (found, ground arith))
    ]

poll_login-missing :
    (deps : Deps) (raw : String) (now : ℕ) (logins : Logins)
    → entry_at deps raw (prune now logins) ≡ none
    → poll_login deps raw now logins ≡ (expired, prune now logins)
unfolding poll_login
poll_login-missing deps raw now logins missing = ground arith

-- When the map is keyed by the codes of its entries, a code whose JWT a poll has handed out is
-- expired for the next poll, at any time.
pub poll_login_once :
    (deps : Deps) (raw : String) (now : ℕ) (jwt name : Option String) (logins logins' : Logins)
    → IsKeyed logins
    → poll_login deps raw now logins ≡ (approved_with jwt name, logins')
    → (later : ℕ) → poll_login deps raw later logins' ≡ (expired, prune later logins')
poll_login_once deps raw now jwt name logins logins' w h later =
    let k = normalize_code deps.upper_other raw in
    let (e, (found, result)) = poll_login-handed deps raw now jwt name logins logins' h in
    let same_key = lookup-IsKeyed k (prune now logins) e (prune-IsKeyed now logins w) found in
    let gone : lookup k logins' ≡ none =
      ap (lookup k) result
      ∙ (lookup-delete_key e.code k (prune now logins) ∙ ground (arith, same_key)) in
    poll_login-missing deps raw later logins' (lookup-prune-none k later logins' gone)

unfoldable pub IsInTime : ℕ → DeviceLogin → Type 0
IsInTime now e = now ≤ e.created_at + device_code_ttl_ms

entry_at-fresh :
    (deps : Deps) (raw : String) (now : ℕ) (logins : Logins) (e : DeviceLogin)
    → IsKeyed logins
    → entry_at deps raw logins ≡ some e
    → IsInTime now e
    → entry_at deps raw (prune now logins) ≡ some e
unfolding IsInTime
entry_at-fresh deps raw now logins e w found soon =
    let pruned = lookup-prune (normalize_code deps.upper_other raw) now logins e w found in
    ground (arith, pruned)

approve_login-pending :
    (deps : Deps) (username raw : String) (now : ℕ) (logins : Logins) (e : DeviceLogin)
    → entry_at deps raw (prune now logins) ≡ some e
    → e.status ≡ pending
    → approve_login deps username raw now logins ≡ (
      was_approved e.name,
      set_key
          (normalize_code deps.upper_other raw)
          (grant_login deps username now e)
          (prune now logins),
    )
unfolding approve_login
approve_login-pending deps username raw now logins e found waits = ground arith

poll_login-approved :
    (deps : Deps) (raw : String) (now : ℕ) (logins : Logins) (e : DeviceLogin)
    → entry_at deps raw (prune now logins) ≡ some e
    → e.status ≡ approved
    → poll_login deps raw now logins
      ≡ (approved_with e.jwt e.username, delete_key e.code (prune now logins))
unfolding poll_login
poll_login-approved deps raw now logins e found done = ground arith

-- When the map is keyed by the codes of its entries and a code waits, an approval within ten minutes
-- of its start, and a poll within them, give the device a JWT signed for the user who approved and
-- for the device's name.
pub approve_login-poll_login :
    (deps : Deps) (username raw : String) (now later : ℕ) (logins : Logins) (e : DeviceLogin)
    → IsKeyed logins
    → entry_at deps raw logins ≡ some e
    → e.status ≡ pending
    → IsInTime now e
    → IsInTime later e
    → (mid last : Logins) × (approve_login deps username raw now logins
        ≡ (was_approved e.name, mid))
      × (poll_login deps raw later mid ≡ (
        approved_with (some (deps.jwt_sign (claims_for username e.name now))) (some username),
        last,
      ))
unfolding IsInTime
approve_login-poll_login deps username raw now later logins e w found waits soon in_time =
    let k = normalize_code deps.upper_other raw in
    let pruned = entry_at-fresh deps raw now logins e w found soon in
    let granted = grant_login deps username now e in
    let mid = set_key k granted (prune now logins) in
    let keyed =
      set_key-IsKeyed k granted (prune now logins) (lookup-IsKeyed k logins e w found)
        (prune-IsKeyed now logins w) in
    let put = lookup-set_key k k granted (prune now logins) in
    let there : entry_at deps raw mid ≡ some granted = ground (arith, put) in
    let there_later = entry_at-fresh deps raw later mid granted keyed there in_time in
    (
      mid,
      delete_key granted.code (prune later mid),
      approve_login-pending deps username raw now logins e pruned waits,
      poll_login-approved deps raw later mid granted there_later refl,
    )

deny_login-denied :
    (deps : Deps) (raw : String) (logins logins' : Logins)
    → deny_login deps raw logins ≡ (was_denied, logins')
    → (e : DeviceLogin) × ((entry_at deps raw logins ≡ some e)
        × (logins' ≡ set_key (normalize_code deps.upper_other raw) (deny_entry e) logins))
unfolding deny_login
deny_login-denied deps raw logins logins' h = elim (Option-cases (entry_at deps raw logins)) [
  | inl missing ↦ absurd (ground arith)
  | inr (e, found) ↦ (e, (found, ground arith))
]

IsDeniedOrGone : Option DeviceLogin → Type 0
IsDeniedOrGone none = Unit {0}
IsDeniedOrGone (some e) = e.status ≡ denied

approve_login-denied :
    (deps : Deps) (username raw : String) (now : ℕ) (logins : Logins)
    → IsDeniedOrGone (entry_at deps raw (prune now logins))
    → approve_login deps username raw now logins
      ≡ (fail 404 "That code is unknown, expired or already used", prune now logins)
unfolding approve_login IsDeniedOrGone
approve_login-denied deps username raw now logins d =
    elim (Option-cases (entry_at deps raw (prune now logins))) [
      | inl missing ↦ ground arith
      | inr (e, found) ↦
          let is_denied : e.status ≡ denied = subst IsDeniedOrGone found d in ground arith
    ]

poll_login-denied :
    (deps : Deps) (raw : String) (now : ℕ) (jwt name : Option String) (logins logins' : Logins)
    → IsDeniedOrGone (entry_at deps raw (prune now logins))
    → poll_login deps raw now logins ≢ (approved_with jwt name, logins')
unfolding poll_login IsDeniedOrGone
poll_login-denied deps raw now jwt name logins logins' d h =
    elim (Option-cases (entry_at deps raw (prune now logins))) [
      | inl missing ↦ ground arith
      | inr (e, found) ↦
          let is_denied : e.status ≡ denied = subst IsDeniedOrGone found d in ground arith
    ]

-- When the map is keyed by the codes of its entries, a denied code can, at any time, neither be
-- approved any more nor give its device a JWT, even if it had been approved before.
pub deny_login_final :
    (deps : Deps) (raw : String) (logins logins' : Logins)
    → IsKeyed logins
    → deny_login deps raw logins ≡ (was_denied, logins')
    → (now : ℕ)
    → ((username : String)
        → approve_login deps username raw now logins'
          ≡ (fail 404 "That code is unknown, expired or already used", prune now logins'))
      × ((jwt name : Option String) (last : Logins)
          → poll_login deps raw now logins' ≢ (approved_with jwt name, last))
unfolding IsDeniedOrGone
deny_login_final deps raw logins logins' w h now =
    let k = normalize_code deps.upper_other raw in
    let (e, (found, result)) = deny_login-denied deps raw logins logins' h in
    let put = lookup-set_key k k (deny_entry e) logins in
    let there : lookup k logins' ≡ some (deny_entry e) =
      ap (lookup k) result ∙ ground (arith, put) in
    let keyed : IsKeyed logins' =
      subst IsKeyed (sym result)
        (set_key-IsKeyed k (deny_entry e) logins (lookup-IsKeyed k logins e w found) w) in
    let pruned = lookup-prune k now logins' (deny_entry e) keyed there in
    let over : IsDeniedOrGone (entry_at deps raw (prune now logins')) =
      subst IsDeniedOrGone (sym pruned) (over_if (is_fresh now (deny_entry e)) e) in
    (
      λ username. approve_login-denied deps username raw now logins' over,
      λ jwt name last. poll_login-denied deps raw now jwt name logins' last over,
    )
  where
    over_if :
        (b : Bool) (e : DeviceLogin) → IsDeniedOrGone (if b then some (deny_entry e) else none)
    over_if true e = refl
    over_if false e = tt

describe_login-missing :
    (deps : Deps) (raw : String) (now : ℕ) (logins : Logins)
    → entry_at deps raw (prune now logins) ≡ none
    → describe_login deps raw now logins
      ≡ (fail 404 "That code is unknown or expired", prune now logins)
unfolding describe_login
describe_login-missing deps raw now logins missing = ground arith

deny_login-found :
    (deps : Deps) (raw : String) (logins : Logins) (e : DeviceLogin)
    → entry_at deps raw logins ≡ some e
    → deny_login deps raw logins
      ≡ (was_denied, set_key (normalize_code deps.upper_other raw) (deny_entry e) logins)
unfolding deny_login
deny_login-found deps raw logins e found = ground arith

-- When the map is keyed by the codes of its entries, a code of more than ten minutes is expired for
-- `poll` and unknown to `describe` and `approve`, while `deny` still answers that it was denied.
pub expired_login :
    (deps : Deps) (username raw : String) (now : ℕ) (logins : Logins) (e : DeviceLogin)
    → IsKeyed logins
    → entry_at deps raw logins ≡ some e
    → e.created_at + device_code_ttl_ms < now
    → (poll_login deps raw now logins ≡ (expired, prune now logins))
      × (describe_login deps raw now logins
          ≡ (fail 404 "That code is unknown or expired", prune now logins))
      × (approve_login deps username raw now logins
          ≡ (fail 404 "That code is unknown, expired or already used", prune now logins))
      × (deny_login deps raw logins
          ≡ (was_denied, set_key (normalize_code deps.upper_other raw) (deny_entry e) logins))
unfolding IsDeniedOrGone
expired_login deps username raw now logins e w found late =
    let pruned = lookup-prune (normalize_code deps.upper_other raw) now logins e w found in
    let gone : entry_at deps raw (prune now logins) ≡ none = ground (arith, pruned) in
    (
      poll_login-missing deps raw now logins gone,
      describe_login-missing deps raw now logins gone,
      approve_login-denied deps username raw now logins (subst IsDeniedOrGone (sym gone) tt),
      deny_login-found deps raw logins e found,
    )
