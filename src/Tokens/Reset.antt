-- ===== src/Tokens/Reset.antt =====
-- `resetSubscriptionTokens` after spending.
use fos_mono.Common.{ℕ, String, Bool-cases, Option, some, ◌≡◌, refl, ap, ◌∙◌, inl, inr, arith}
use fos_mono.Common.Int.{ℤ, ◌+ℤ◌, ◌-ℤ◌, ltb_ℤ}
use fos_mono.Tokens.{debit_tokens, reset_subscription_tokens}
use fos_mono.Tokens.Totals.{find_balance-user_id, find_balance-replace_balance_self}
use fos_mono.Tokens.Tables.{
  Balance, Transaction, Db, ok, find_balance, replace_balance, create_transaction,
}

abbrev pub debited_row : Balance → ℤ → Balance
debited_row b amount = record b {
  available_tokens = b.available_tokens -ℤ amount;
  total_used = b.total_used +ℤ amount;
}

abbrev pub reset_row : Balance → ℤ → Balance
reset_row b fresh = record b {
  available_tokens = b.purchased_tokens +ℤ fresh;
  subscription_tokens = fresh;
}

pub debit_tokens-balances :
    (tid : String) (u : ℕ) (amount : ℤ) (description : String) (tool : Option String) (db db' : Db)
    (t : Transaction) (b : Balance)
    → find_balance u db.balances ≡ some b
    → debit_tokens tid u amount description tool db ≡ ok (t, db')
    → db'.balances ≡ replace_balance (debited_row b amount) db.balances
unfolding debit_tokens create_transaction
debit_tokens-balances tid u amount description tool db db' t b found h =
    elim (Bool-cases (ltb_ℤ b.available_tokens amount)) [
      | inl short ↦ absurd (ground arith)
      | inr enough ↦ ground arith
    ]

reset_subscription_tokens-balances :
    (tid : String) (u : ℕ) (fresh : ℤ) (db db' : Db) (b : Balance)
    → find_balance u db.balances ≡ some b
    → reset_subscription_tokens tid u fresh db ≡ ok (tt, db')
    → db'.balances ≡ replace_balance (reset_row b fresh) db.balances
unfolding reset_subscription_tokens create_transaction
reset_subscription_tokens-balances tid u fresh db db' b found h = ground arith

-- A debit followed by a monthly reset leaves all purchased tokens and the fresh ones available,
-- whatever amount was debited: purchased tokens that were spent are available again.
pub reset_subscription_tokens-debit_tokens :
    (tid tid' : String) (u : ℕ) (amount fresh : ℤ) (description : String) (tool : Option String)
    (db db' db'' : Db) (t : Transaction) (b : Balance)
    → find_balance u db.balances ≡ some b
    → debit_tokens tid u amount description tool db ≡ ok (t, db')
    → reset_subscription_tokens tid' u fresh db' ≡ ok (tt, db'')
    → (b' : Balance) × (find_balance u db''.balances ≡ some b')
      × (b'.available_tokens ≡ b.purchased_tokens +ℤ fresh)
      × (b'.purchased_tokens ≡ b.purchased_tokens)
      × (b'.total_used ≡ b.total_used +ℤ amount)
reset_subscription_tokens-debit_tokens tid tid' u amount fresh description tool db db' db'' t b
      found spent renewed =
    let who = find_balance-user_id u db.balances b found in
    let first : find_balance u db'.balances ≡ some (debited_row b amount) =
      ap (find_balance u)
        (debit_tokens-balances tid u amount description tool db db' t b found spent)
      ∙ find_balance-replace_balance_self u (debited_row b amount) b db.balances who found in
    let second : find_balance u db''.balances ≡ some (reset_row (debited_row b amount) fresh) =
      ap (find_balance u) (
        reset_subscription_tokens-balances tid' u fresh db' db'' (debited_row b amount) first
          renewed)
      ∙ find_balance-replace_balance_self u (reset_row (debited_row b amount) fresh)
          (debited_row b amount) db'.balances who first in
    (reset_row (debited_row b amount) fresh, second, refl, refl, refl)
