-- ===== src/Confirm/Change.antt =====
-- What `confirm` and `resend` may do to the accounts.
use fos_mono.Common.{
  ℕ, ◌+◌, String, Bool, true, not, ◌&&◌, ◌||◌, ltb, ◌⊎◌, Bool-cases, Option-cases, Option, some,
  find, ◌≡◌, refl, ap, inl, inr, arith, ◌==◌, opt_eq,
}
use fos_mono.Common.Text.{trim}
use fos_mono.Node.{Json}
use fos_mono.Confirm.{
  Deps, Reply, present, text_of, confirm, confirm_code, confirm_link, confirm_account, approve,
  Started, sent_to, throws, start_confirmation, resend, resend_channel, resent, destination_of,
  needs_sms, sms_available, send_error, message_of, code_ttl_ms,
}
use fos_mono.Confirm.Users.{
  Account, Channel, email, phone, World, by_name, by_token, update_account, pending_code,
  approve_account,
}

-- A change of one account that keeps its id, its name and an approval.
pub record IsMild (patch : Account → Account) : Type 0 where
  pub same_id : (a : Account) → (patch a).id ≡ a.id
  pub same_name : (a : Account) → (patch a).user_name ≡ a.user_name
  pub same_approval : (a : Account) → a.approved ≡ true → (patch a).approved ≡ true

pub data Change (w w' : World) : Type 0 where
  kept : w'.accounts ≡ w.accounts → Change w w'
  patched :
      (p : Account → Bool) (user : Account) (patch : Account → Account)
      → find p w.accounts ≡ some user
      → IsMild patch
      → w'.accounts ≡ update_account user.id patch w.accounts
      → Change w w'

approve_account-IsMild : IsMild approve_account
approve_account-IsMild = record {
  same_id = λ a. refl;
  same_name = λ a. refl;
  same_approval = λ a h. refl;
}

pending_code-IsMild :
    (c : Channel) (hash : String) (until : ℕ) (token : String)
    → IsMild (pending_code c hash until token)
pending_code-IsMild email hash until token = record {
  same_id = λ a. refl;
  same_name = λ a. refl;
  same_approval = λ a h. h;
}
pending_code-IsMild phone hash until token = record {
  same_id = λ a. refl;
  same_name = λ a. refl;
  same_approval = λ a h. h;
}

confirm_account-Change :
    (p : Account → Bool) (user : Account) (r : Reply) (w w' : World)
    → find p w.accounts ≡ some user
    → confirm_account user w ≡ (r, w')
    → Change w w'
unfolding confirm_account approve
confirm_account-Change p user r w w' found h = elim (Bool-cases user.approved) [
  | inl before ↦ kept (ground arith)
  | inr waiting ↦ patched p user approve_account found approve_account-IsMild (ground arith)
]

confirm_link-Change :
    (token : String) (r : Reply) (w w' : World) → confirm_link token w ≡ (r, w') → Change w w'
unfolding confirm_link
confirm_link-Change token r w w' h = elim (Option-cases (by_token token w.accounts)) [
  | inl missing ↦ kept (ground arith)
  | inr (user, found) ↦
      confirm_account-Change (λ a. opt_eq a.link_token (some token)) user r w w' found
        (ground arith)
]

confirm_code-found :
    (deps : Deps) (username code : String) (now : ℕ) (r : Reply) (w w' : World) (user : Account)
    → by_name username w.accounts ≡ some user
    → confirm_code deps username code now w ≡ (r, w')
    → (w ≡ w') ⊎ (confirm_account user w ≡ (r, w'))
unfolding confirm_code
confirm_code-found deps username code now r w w' user found h =
    elim (Bool-cases (username == "" || code == "")) [
      | inl empty ↦ inl (ground arith)
      | inr given ↦ elim (Bool-cases user.approved) [
        | inl before ↦ inl (ground arith)
        | inr waiting ↦ elim (Option-cases (present user.code_hash)) [
          | inl nothing ↦ inl (ground arith)
          | inr (hash, stored) ↦ elim (Option-cases user.expiration) [
            | inl never ↦ inl (ground arith)
            | inr (until, expires) ↦ elim (Bool-cases (ltb until now)) [
              | inl late ↦ inl (ground arith)
              | inr in_time ↦ elim (Bool-cases (deps.hash_code code user.user_name == hash)) [
                | inl right ↦ inr (ground arith)
                | inr wrong ↦ inl (ground arith)
              ]
            ]
          ]
        ]
      ]
    ]

confirm_code-Change :
    (deps : Deps) (username code : String) (now : ℕ) (r : Reply) (w w' : World)
    → confirm_code deps username code now w ≡ (r, w')
    → Change w w'
unfolding confirm_code
confirm_code-Change deps username code now r w w' h =
    elim (Option-cases (by_name username w.accounts)) [
      | inl missing ↦ kept (ground arith)
      | inr (user, found) ↦ elim (confirm_code-found deps username code now r w w' user found h) [
        | inl same ↦ kept (ground arith)
        | inr final ↦ confirm_account-Change (λ a. a.user_name == username) user r w w' found final
      ]
    ]

pub confirm-Change :
    (deps : Deps) (token username code : Option Json) (now : ℕ) (r : Reply) (w w' : World)
    → confirm deps token username code now w ≡ (r, w')
    → Change w w'
unfolding confirm
confirm-Change deps token username code now r w w' h = elim (Bool-cases (text_of token == "")) [
  | inl none_given ↦
      confirm_code-Change deps (trim (text_of username)) (trim (text_of code)) now r w w'
        (ground arith)
  | inr given ↦ confirm_link-Change (text_of token) r w w' (ground arith)
]

start_confirmation-Change :
    (deps : Deps) (user : Account) (c : Channel) (code token : String) (now : ℕ) (s : Started)
    (w w' : World) (p : Account → Bool)
    → find p w.accounts ≡ some user
    → start_confirmation deps user c code token now w ≡ (s, w')
    → Change w w'
unfolding start_confirmation
start_confirmation-Change deps user c code token now s w w' p found h =
    elim (Option-cases (destination_of c user)) [
      | inl nowhere ↦ kept (ground arith)
      | inr (d, there) ↦ elim (Bool-cases (needs_sms c && not (sms_available deps))) [
        | inl unavailable ↦ kept (ground arith)
        | inr available ↦
            patched p user
              (pending_code c (deps.hash_code code user.user_name) (now + code_ttl_ms) token) found
              (pending_code-IsMild c (deps.hash_code code user.user_name) (now + code_ttl_ms) token)
              (elim (Option-cases (send_error deps c (message_of c d code token))) [
                | inl delivered ↦ ground arith
                | inr (e, failed) ↦ ground arith
              ])
      ]
    ]

resent-world : (s : Started) (r : Reply) (w w' : World) → resent (s, w) ≡ (r, w') → w ≡ w'
resent-world (sent_to c d) r w w' h = ground arith
resent-world (throws e) r w w' h = ground arith

pub resend-Change :
    (deps : Deps) (username : Option Json) (code token : String) (now : ℕ) (r : Reply)
    (w w' : World)
    → resend deps username code token now w ≡ (r, w')
    → Change w w'
unfolding resend
resend-Change deps username code token now r w w' h =
    elim (Bool-cases (trim (text_of username) == "")) [
      | inl empty ↦ kept (ground arith)
      | inr given ↦ elim (Option-cases (by_name (trim (text_of username)) w.accounts)) [
        | inl missing ↦ kept (ground arith)
        | inr (user, found) ↦ elim (Bool-cases user.approved) [
          | inl before ↦ kept (ground arith)
          | inr waiting ↦
              let begun = start_confirmation deps user (resend_channel user) code token now w in
              let same : begun.1 ≡ w' = resent-world begun.0 r begun.1 w' (ground arith) in
              start_confirmation-Change deps user (resend_channel user) code token now begun.0 w w'
                (λ a. a.user_name == trim (text_of username)) found (ap (λ x. (begun.0, x)) same)
        ]
      ]
    ]
