-- ===== src/Device/Tests.antt =====
-- A device that signs in, one that is denied, and one that is late.
use Prim.Native.Char.{Char}
use fos_mono.Common.{
  ℕ, String, String_discrete, List, [], ◌∷◌, none, some, ◌≡◌, refl, arith, set_key,
}
use fos_mono.Device.Code.{new_code, normalize_code}
use fos_mono.Device.{
  pending, approved, denied, DeviceLogin, Logins, Deps, started, expired, approved_with,
  was_approved, was_denied, fail, prune, unused_code, entry_at, claims_for, deny_entry, start_login,
  poll_login, approve_login, deny_login, describe_login,
}
use fos_mono.Device.Typing.{normalize_code-new_code}
use fos_mono.Device.Pruned.{IsKeyed}
use fos_mono.Device.Delivery.{IsInTime, poll_login_once, approve_login-poll_login, expired_login}

abbrev other : Char → String
other c = ""

abbrev deps : Deps
deps = record { jwt_sign = λ c. c.username; upper_other = other }

abbrev bytes : List ℕ
bytes = 0 ∷ 1 ∷ 2 ∷ 33 ∷ 31 ∷ 5 ∷ 6 ∷ 7 ∷ []

abbrev waiting : DeviceLogin
waiting = record {
  code = "ABCB-9FGH";
  name = "laptop";
  status = pending;
  username = none;
  jwt = none;
  created_at = 5;
}

abbrev logins : Logins
logins = ("ABCB-9FGH", waiting) ∷ []

abbrev granted : Logins
granted =
    ("ABCB-9FGH", record waiting { status = approved; username = some "ann"; jwt = some "ann" })
    ∷ []

start_test : start_login (some "laptop") (bytes ∷ []) 5 [] ≡ some (started "ABCB-9FGH", logins)
unfolding start_login unused_code prune new_code String_discrete
start_test = refl

approve_test : approve_login deps "ann" "abcb9fgh" 10 logins ≡ (was_approved "laptop", granted)
unfolding approve_login prune normalize_code String_discrete
approve_test = refl

poll_test : poll_login deps "abcb-9fgh" 11 granted ≡ (approved_with (some "ann") (some "ann"), [])
unfolding poll_login prune normalize_code String_discrete
poll_test = refl

deny_test : deny_login deps "ABCB-9FGH" granted ≡ (
  was_denied,
  ("ABCB-9FGH", record waiting { status = denied; username = some "ann"; jwt = some "ann" }) ∷ [],
)
unfolding deny_login normalize_code String_discrete
deny_test = refl

found_test : entry_at deps "ABCB-9FGH" logins ≡ some waiting
unfolding normalize_code String_discrete
found_test = refl

logins-IsKeyed : IsKeyed logins
unfolding IsKeyed
logins-IsKeyed = (refl, (refl, tt))

granted-IsKeyed : IsKeyed granted
unfolding IsKeyed
granted-IsKeyed = (refl, (refl, tt))

empty-IsKeyed : IsKeyed []
unfolding IsKeyed
empty-IsKeyed = tt

normalize_code-new_code_example : normalize_code other (new_code bytes) ≡ new_code bytes
normalize_code-new_code_example = normalize_code-new_code other 0 1 2 33 31 5 6 7

poll_login_once_example : poll_login deps "abcb-9fgh" 12 [] ≡ (expired, prune 12 [])
poll_login_once_example =
    poll_login_once deps "abcb-9fgh" 11 (some "ann") (some "ann") granted [] granted-IsKeyed
      poll_test 12

waiting-IsInTime : IsInTime 10 waiting
unfolding IsInTime
waiting-IsInTime = omega arith

approve_login-poll_login_example :
    (mid last : Logins) × (approve_login deps "ann" "ABCB-9FGH" 10 logins
      ≡ (was_approved "laptop", mid))
    × (poll_login deps "ABCB-9FGH" 10 mid
        ≡ (approved_with (some (deps.jwt_sign (claims_for "ann" "laptop" 10))) (some "ann"), last))
approve_login-poll_login_example =
    approve_login-poll_login deps "ann" "ABCB-9FGH" 10 10 logins waiting logins-IsKeyed found_test
      refl waiting-IsInTime waiting-IsInTime

abbrev refused : Logins
refused =
    ("ABCB-9FGH", record waiting { status = denied; username = some "ann"; jwt = some "ann" }) ∷ []

expired_login_example :
    (poll_login deps "ABCB-9FGH" 700000 logins ≡ (expired, prune 700000 logins))
    × (describe_login deps "ABCB-9FGH" 700000 logins
        ≡ (fail 404 "That code is unknown or expired", prune 700000 logins))
    × (approve_login deps "ann" "ABCB-9FGH" 700000 logins
        ≡ (fail 404 "That code is unknown, expired or already used", prune 700000 logins))
    × (deny_login deps "ABCB-9FGH" logins ≡ (
      was_denied,
      set_key (normalize_code deps.upper_other "ABCB-9FGH") (deny_entry waiting) logins,
    ))
expired_login_example =
    expired_login deps "ann" "ABCB-9FGH" 700000 logins waiting logins-IsKeyed found_test
      (omega arith)
