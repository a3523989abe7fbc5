-- ===== src/Confirm/Approval.antt =====
-- What approves an account, and that nothing undoes it.
use fos_mono.Common.{
  ℕ, ◌+◌, ◌≤◌, String, false, Bool-cases, Option-cases, some, ◌≡◌, ◌≢◌, ◌↔◌, refl, ap, ◌∙◌, inl,
  inr, arith, ◌==◌, ltb,
}
use fos_mono.Common.Rows.{HasDistinctIds, find-find_id, find-update_row, after_self}
use fos_mono.Confirm.{
  Deps, confirmed, present, confirm_code, confirm_account, approve, sent_to, start_confirmation,
  destination_of, send_error, message_of, code_ttl_ms,
}
use fos_mono.Confirm.Users.{
  Account, Channel, email, phone, World, by_name, account_id, update_account, pending_code,
}

-- The right code for an account that waits for one, in time.
pub record IsRightCode (deps : Deps) (username code : String) (now : ℕ) (user : Account)
    : Type 0 where
  pub waiting : user.approved ≡ false
  pub hash : String
  pub until : ℕ
  pub stored : present user.code_hash ≡ some hash
  pub expires : user.expiration ≡ some until
  pub in_time : ltb until now ≡ false
  pub right : deps.hash_code code user.user_name ≡ hash

confirm_code-confirmed :
    (deps : Deps) (username code : String) (now : ℕ) (w w' : World) (name : String)
    → confirm_code deps username code now w ≡ (confirmed name, w')
    → (user : Account) × ((by_name username w.accounts ≡ some user)
        × (IsRightCode deps username code now user
            × ((name ≡ user.user_name) × (w' ≡ approve user w))))
unfolding confirm_code confirm_account
confirm_code-confirmed deps username code now w w' name h =
    elim (Option-cases (by_name username w.accounts)) [
      | inl missing ↦ absurd (ground arith)
      | inr (user, found) ↦ elim (Bool-cases user.approved) [
        | inl before ↦ absurd (ground arith)
        | inr waiting ↦ elim (Option-cases (present user.code_hash)) [
          | inl nothing ↦ absurd (ground arith)
          | inr (hash, stored) ↦ elim (Option-cases user.expiration) [
            | inl never ↦ absurd (ground arith)
            | inr (until, expires) ↦ (
              user,
              (
                found,
                (
                  record {
                    waiting = waiting;
                    hash = hash;
                    until = until;
                    stored = stored;
                    expires = expires;
                    in_time = ground arith;
                    right = ground arith;
                  },
                  (ground arith, ground arith),
                ),
              ),
            )
          ]
        ]
      ]
    ]

confirm_code-of_IsRightCode :
    (deps : Deps) (username code : String) (now : ℕ) (w : World) (user : Account)
    → username ≢ ""
    → code ≢ ""
    → by_name username w.accounts ≡ some user
    → IsRightCode deps username code now user
    → confirm_code deps username code now w ≡ (confirmed user.user_name, approve user w)
unfolding confirm_code confirm_account
confirm_code-of_IsRightCode deps username code now w user named typed found r =
    ground (arith, r.waiting, r.stored, r.expires, r.in_time, r.right)

-- When a name and a code are given, `confirm` by code approves an account exactly when there is an
-- account of that name, not approved yet, that waits for a code which has not expired and whose hash
-- is that of the code given; the approval is then the only change.
pub confirm_code_iff :
    (deps : Deps) (username code : String) (now : ℕ) (w w' : World) (name : String)
    → username ≢ ""
    → code ≢ ""
    → (confirm_code deps username code now w ≡ (confirmed name, w')) ↔ (
        (user : Account) × ((by_name username w.accounts ≡ some user)
          × (IsRightCode deps username code now user
              × ((name ≡ user.user_name) × (w' ≡ approve user w)))))
confirm_code_iff deps username code now w w' name named typed = (
  confirm_code-confirmed deps username code now w w' name,
  λ (user, (found, (r, (same, result)))).
      let approves =
        confirm_code-of_IsRightCode deps username code now w user named typed found r in
      cc (approves, same, result),
)

record Begun (deps : Deps) (user : Account) (channel : Channel) (code token : String) (now : ℕ)
    (w w' : World) : Type 0 where
  stored :
      w'.accounts
      ≡ update_account user.id
          (pending_code channel (deps.hash_code code user.user_name) (now + code_ttl_ms) token)
          w.accounts

start_confirmation-sent :
    (deps : Deps) (user : Account) (channel c : Channel) (code token d : String) (now : ℕ)
    (w w' : World)
    → start_confirmation deps user channel code token now w ≡ (sent_to c d, w')
    → Begun deps user channel code token now w w'
unfolding start_confirmation
start_confirmation-sent deps user channel c code token d now w w' h =
    elim (Option-cases (destination_of channel user)) [
      | inl nowhere ↦ absurd (ground arith)
      | inr (destination, there) ↦
          elim (Option-cases
            (send_error deps channel (message_of channel destination code token))) [
              | inr (e, failed) ↦ absurd (ground arith)
              | inl delivered ↦ record { stored = ground arith }
            ]
    ]

pending_code-user_name :
    (channel : Channel) (hash : String) (until : ℕ) (token : String) (a : Account)
    → (pending_code channel hash until token a).user_name ≡ a.user_name
pending_code-user_name email hash until token a = refl
pending_code-user_name phone hash until token a = refl

pending_code-IsRightCode :
    (deps : Deps) (channel : Channel) (code token : String) (now later : ℕ) (user : Account)
    → user.approved ≡ false
    → deps.hash_code code user.user_name ≢ ""
    → later ≤ now + code_ttl_ms
    → IsRightCode deps user.user_name code later
        (pending_code channel (deps.hash_code code user.user_name) (now + code_ttl_ms) token user)
pending_code-IsRightCode deps email code token now later user waiting hashed soon = record {
  waiting = waiting;
  hash = deps.hash_code code user.user_name;
  until = now + code_ttl_ms;
  stored = ground arith;
  expires = refl;
  in_time = ground arith;
  right = refl;
}
pending_code-IsRightCode deps phone code token now later user waiting hashed soon = record {
  waiting = waiting;
  hash = deps.hash_code code user.user_name;
  until = now + code_ttl_ms;
  stored = ground arith;
  expires = refl;
  in_time = ground arith;
  right = refl;
}

-- When ids name one account each and a code has been sent to an account that is not approved, that
-- code confirms the account until fifteen minutes later, provided that the name, the code and the
-- code's hash are not empty texts.
pub start_confirmation-confirm_code :
    (deps : Deps) (user : Account) (channel c : Channel) (code token d : String) (now : ℕ)
    (w w' : World)
    → HasDistinctIds account_id w.accounts
    → by_name user.user_name w.accounts ≡ some user
    → user.approved ≡ false
    → user.user_name ≢ ""
    → code ≢ ""
    → deps.hash_code code user.user_name ≢ ""
    → start_confirmation deps user channel code token now w ≡ (sent_to c d, w')
    → (later : ℕ) → later ≤ now + code_ttl_ms
    → (w'' : World) × (confirm_code deps user.user_name code later w'
        ≡ (confirmed user.user_name, w''))
start_confirmation-confirm_code deps user channel c code token d now w w' distinct found waiting
      named typed hashed h later soon =
    let s = start_confirmation-sent deps user channel c code token d now w w' h in
    let patch =
      pending_code channel (deps.hash_code code user.user_name) (now + code_ttl_ms) token in
    let at =
      find-find_id account_id (λ a. a.user_name == user.user_name) w.accounts user distinct found in
    let same_name =
      pending_code-user_name channel (deps.hash_code code user.user_name) (now + code_ttl_ms) token
        user in
    let there : by_name user.user_name w'.accounts ≡ some (patch user) =
      ap (by_name user.user_name) s.stored
      ∙ (find-update_row account_id (λ a. a.user_name == user.user_name) patch w.accounts user user
            distinct at (ap (λ n. n == user.user_name) same_name) found
          ∙ ap some (after_self account_id patch user)) in
    let approves =
      confirm_code-of_IsRightCode deps user.user_name code later w' (patch user) named typed there
        (pending_code-IsRightCode deps channel code token now later user waiting hashed soon) in
    (approve (patch user) w', approves ∙ ap (λ n. (confirmed n, approve (patch user) w')) same_name)
