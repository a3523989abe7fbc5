-- ===== src/Confirm/Link.antt =====
-- A confirmation link works once, and an approved account stays approved.
use fos_mono.Common.{
  String, Bool-cases, Option-cases, List, [], ◌∷◌, none, some, ◌≡◌, ◌≢◌, refl, ap, ◌∙◌, inl, inr,
  arith, ◌==◌, opt_eq,
}
use fos_mono.Common.Rows.{update_row, HasDistinctIds, find-id_ne}
use fos_mono.Confirm.{confirmed, fail, confirm_link, confirm_account, approve}
use fos_mono.Confirm.Users.{Account, World, by_token, account_id, update_account, approve_account}

unfoldable pub HasNoToken : String → List Account → Type 0
HasNoToken token [] = Unit {0}
HasNoToken token (a ∷ rows) = (a.link_token ≢ some token) × HasNoToken token rows

-- No two accounts have the same link.
unfoldable pub HasDistinctTokens : List Account → Type 0
HasDistinctTokens [] = Unit {0}
HasDistinctTokens (a ∷ rows) =
    ((token : String) → a.link_token ≡ some token → HasNoToken token rows) × HasDistinctTokens rows

by_token-HasNoToken :
    (token : String) (rows : List Account) → HasNoToken token rows → by_token token rows ≡ none
unfolding HasNoToken
by_token-HasNoToken token [] h = refl
by_token-HasNoToken token (a ∷ rows) h = elim (Option-cases a.link_token) [
  | inl nothing ↦ ground (arith, by_token-HasNoToken token rows h.1)
  | inr (t, kept) ↦
      let other : t ≢ token = λ e. h.0 (kept ∙ ap some e) in
      ground (arith, by_token-HasNoToken token rows h.1)
]

by_token-update_account :
    (token : String) (rows : List Account) (user : Account)
    → HasDistinctIds account_id rows
    → HasDistinctTokens rows
    → by_token token rows ≡ some user
    → by_token token (update_account user.id approve_account rows) ≡ none
unfolding HasDistinctIds HasDistinctTokens update_row
by_token-update_account token [] user d t h = absurd (ground arith)
by_token-update_account token (a ∷ rows) user d t h = elim (Option-cases a.link_token) [
  | inl nothing ↦
      let found : by_token token rows ≡ some user = ground arith in
      let other =
        find-id_ne account_id (λ b. opt_eq b.link_token (some token)) a.id rows user d.0 found in
      ground (arith, by_token-update_account token rows user d.1 t.1 found)
  | inr (k, kept) ↦ elim (Bool-cases (k == token)) [
    | inl here ↦
        let same : a ≡ user = ground arith in
        let sole = by_token-HasNoToken token rows (t.0 token (ground arith)) in ground arith
    | inr there ↦
        let found : by_token token rows ≡ some user = ground arith in
        let other =
          find-id_ne account_id (λ b. opt_eq b.link_token (some token)) a.id rows user d.0 found in
        ground (arith, by_token-update_account token rows user d.1 t.1 found)
  ]
]

confirm_link-confirmed :
    (token name : String) (w w' : World)
    → confirm_link token w ≡ (confirmed name, w')
    → (user : Account) × ((by_token token w.accounts ≡ some user) × (w' ≡ approve user w))
unfolding confirm_link confirm_account
confirm_link-confirmed token name w w' h = elim (Option-cases (by_token token w.accounts)) [
  | inl missing ↦ absurd (ground arith)
  | inr (user, found) ↦ elim (Bool-cases user.approved) [
    | inl before ↦ absurd (ground arith)
    | inr waiting ↦ (user, (found, ground arith))
  ]
]

confirm_link-missing :
    (token : String) (w : World)
    → by_token token w.accounts ≡ none
    → confirm_link token w ≡ (fail 404 "This confirmation link is invalid or was already used.", w)
unfolding confirm_link
confirm_link-missing token w missing = ground arith

-- When ids and links name one account each, a link that has confirmed an account is refused with 404
-- the next time, and changes nothing then.
pub confirm_link_once :
    (token name : String) (w w' : World)
    → HasDistinctIds account_id w.accounts
    → HasDistinctTokens w.accounts
    → confirm_link token w ≡ (confirmed name, w')
    → confirm_link token w'
      ≡ (fail 404 "This confirmation link is invalid or was already used.", w')
unfolding approve
confirm_link_once token name w w' ids tokens h =
    let (user, (found, result)) = confirm_link-confirmed token name w w' h in
    confirm_link-missing token w' (
      ap (λ x. by_token token x.accounts) result
      ∙ by_token-update_account token w.accounts user ids tokens found)
