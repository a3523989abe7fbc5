-- ===== src/Confirm/History.antt =====
-- Histories of `confirm` and `resend`.
use fos_mono.Common.{
  ℕ, String, true, Bool-cases, Option, some, ◌≡◌, sym, ap, subst, ◌∙◌, inl, inr, ◌==◌, nat_eq,
}
use fos_mono.Common.Rows.{
  HasDistinctIds, find-find_id, find-update_row, after, HasDistinctIds-update_row,
}
use fos_mono.Node.{Json}
use fos_mono.Confirm.{Deps, Reply, confirm, resend}
use fos_mono.Confirm.Users.{Account, World, by_name, account_id}
use fos_mono.Confirm.Change.{IsMild, Change, kept, patched, confirm-Change, resend-Change}

-- One request, answered in any way.
pub data Step (deps : Deps) (w w' : World) : Type 0 where
  confirming :
      (token username code : Option Json) (now : ℕ) (r : Reply)
      → confirm deps token username code now w ≡ (r, w')
      → Step deps w w'
  resending :
      (username : Option Json) (code token : String) (now : ℕ) (r : Reply)
      → resend deps username code token now w ≡ (r, w')
      → Step deps w w'

pub data Reach (deps : Deps) (w : World) : World → Type 0 where
  start : Reach deps w w
  step : {mid last : World} → Reach deps w mid → Step deps mid last → Reach deps w last

Step-Change : {deps : Deps} {w w' : World} → Step deps w w' → Change w w'
Step-Change {deps} {w} {w'} (confirming token username code now r h) =
    confirm-Change deps token username code now r w w' h
Step-Change {deps} {w} {w'} (resending username code token now r h) =
    resend-Change deps username code token now r w w' h

-- The account of that name is there and approved.
unfoldable pub IsApproved : String → World → Type 0
IsApproved name w = (a : Account) × ((by_name name w.accounts ≡ some a) × (a.approved ≡ true))

after-approved :
    (n : ℕ) (patch : Account → Account) (a : Account)
    → IsMild patch
    → a.approved ≡ true
    → (after account_id n patch a).approved ≡ true
after-approved n patch a mild h = elim (Bool-cases (nat_eq a.id n)) [
  | inl same ↦ rw same (mild.same_approval a h)
  | inr other ↦ rw other h
]

Change-IsApproved :
    (name : String) (w w' : World)
    → HasDistinctIds account_id w.accounts
    → Change w w'
    → IsApproved name w
    → IsApproved name w' × HasDistinctIds account_id w'.accounts
unfolding IsApproved
Change-IsApproved name w w' distinct (kept same) (a, (found, approved)) = (
  (a, (ap (by_name name) same ∙ found, approved)),
  subst (HasDistinctIds account_id) (sym same) distinct,
)
Change-IsApproved name w w' distinct (patched p user patch at mild rows) (a, (found, approved)) = (
  (
    after account_id user.id patch a,
    (
      ap (by_name name) rows
          ∙ find-update_row account_id (λ b. b.user_name == name) patch w.accounts a user distinct
              (find-find_id account_id p w.accounts user distinct at)
              (ap (λ n. n == name) (mild.same_name user)) found,
      after-approved user.id patch a mild approved,
    ),
  ),
  subst (HasDistinctIds account_id) (sym rows)
      (HasDistinctIds-update_row account_id user.id patch w.accounts mild.same_id distinct),
)

Reach-both :
    {deps : Deps} {w w' : World} (name : String)
    → HasDistinctIds account_id w.accounts
    → IsApproved name w
    → Reach deps w w'
    → IsApproved name w' × HasDistinctIds account_id w'.accounts
Reach-both name d a start = (a, d)
Reach-both name d a (step {mid} {last} r st) =
    let (a', d') = Reach-both name d a r in Change-IsApproved name mid last d' (Step-Change st) a'

-- When ids name one account each, an approved account is there and approved after any history of
-- confirmations and resends, whatever they answer.
pub Reach-IsApproved :
    {deps : Deps} {w w' : World} (name : String)
    → HasDistinctIds account_id w.accounts
    → IsApproved name w
    → Reach deps w w'
    → IsApproved name w'
Reach-IsApproved name d a r = (Reach-both name d a r).0
