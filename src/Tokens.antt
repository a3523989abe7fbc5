-- ===== src/Tokens.antt =====
-- Token balances and their ledger, backend/tokenManager.ts. A method takes the three tables and
-- returns them with its result, or throws; a `$transaction` that throws changes nothing.
-- `processTokenPurchase` is none, and returns the tables also when it throws.
mod Tables
pub mod Totals
pub mod Outcome
pub mod Transfer
pub mod Safety
pub mod Reset
pub mod Purchase
pub mod Ledger
pub mod History
pub mod Once
pub mod Enough
pub mod Tests
unfoldable pub use Tables.*
use Prim.Native.String
use fos_mono.Common.{
  ℕ, String, Bool, true, false, ◌&&◌, List, [], ◌∷◌, ◌++◌, Option, none, some, ◌==◌, nat_eq, leb,
  if◌then◌else◌,
}
use fos_mono.Common.Int.{ℤ, pos, ◌+ℤ◌, ◌-ℤ◌, ltb_ℤ}

-- `getUserTokenBalance`
unfoldable pub get_user_token_balance : ℕ → Db → Result (Balance × Db)
get_user_token_balance user_id db = elim (find_balance user_id db.balances) [
  | some b ↦ ok (b, db)
  | none ↦
      ok (
        fresh_balance user_id,
        record db { balances = db.balances ++ (fresh_balance user_id ∷ []) },
      )
]

-- `hasEnoughTokens`
unfoldable pub has_enough_tokens : ℕ → ℤ → Db → Result (Bool × Db)
has_enough_tokens user_id required db = do
  (balance, db') ← get_user_token_balance user_id db
  ok ((if ltb_ℤ balance.available_tokens required then false else true), db')

-- `debitTokens`; the random part of the transaction's id is an argument.
unfoldable pub debit_tokens :
    String → ℕ → ℤ → String → Option String → Db → Result (Transaction × Db)
debit_tokens transaction_id user_id amount description tool_use_id db = do
  balance ← balance_of user_id db
  guard (if ltb_ℤ balance.available_tokens amount then false else true) insufficient_tokens
  let before = balance.available_tokens
  let after = before -ℤ amount
  let db' =
      update_balance
        (record balance { available_tokens = after; total_used = balance.total_used +ℤ amount }) db
  create_transaction
      (record {
        transaction_id = transaction_id;
        user_id = user_id;
        tool_use_id = tool_use_id;
        token_purchase_id = none;
        kind = debit;
        amount = pos 0 -ℤ amount;
        description = description;
        balance_before = before;
        balance_after = after;
        stripe_payment_intent_id = none;
      })
      db'

pub data TransferOutcome : Type 0 where
  transferred : TransferOutcome
  already_transferred : TransferOutcome

abbrev pub debit_key : String → String
debit_key key = String.◌++◌ key ":debit"

abbrev pub credit_key : String → String
credit_key key = String.◌++◌ key ":credit"

-- The receiver's balance, made when there is none.
abbrev pub balance_or_new : ℕ → Db → Balance × Db
balance_or_new user_id db = elim (find_balance user_id db.balances) [
  | some b ↦ (b, db)
  | none ↦
      (fresh_balance user_id, record db { balances = db.balances ++ (fresh_balance user_id ∷ []) })
]

abbrev pub ledger_row : String → ℕ → TransactionKind → ℤ → String → ℤ → ℤ → Transaction
ledger_row transaction_id user_id kind amount description before after = record {
  transaction_id = transaction_id;
  user_id = user_id;
  tool_use_id = none;
  token_purchase_id = none;
  kind = kind;
  amount = amount;
  description = description;
  balance_before = before;
  balance_after = after;
  stripe_payment_intent_id = none;
}

-- The writes of `transferTokens`, once both balances are read.
unfoldable pub move_tokens :
    Balance → Balance → ℤ → String × String → String → Db → Result (TransferOutcome × Db)
move_tokens from to amount description key db = do
  let db₁ =
      update_balance
        (record from {
          available_tokens = from.available_tokens -ℤ amount;
          total_used = from.total_used +ℤ amount;
        })
        db
  let db₂ =
      update_balance
        (record to {
          available_tokens = to.available_tokens +ℤ amount;
          purchased_tokens = to.purchased_tokens +ℤ amount;
          total_purchased = to.total_purchased +ℤ amount;
        })
        db₁
  (_, db₃) ←
      create_transaction
        (ledger_row (debit_key key) from.user_id debit (pos 0 -ℤ amount) description.0
          from.available_tokens (from.available_tokens -ℤ amount))
        db₂
  (_, db₄) ←
      create_transaction
        (ledger_row (credit_key key) to.user_id credit amount description.1 to.available_tokens
          (to.available_tokens +ℤ amount))
        db₃
  ok (transferred, db₄)

-- `transferTokens`; the amount is whole by its type.
unfoldable pub transfer_tokens :
    ℕ → ℕ → ℤ → String × String → String → Db → Result (TransferOutcome × Db)
transfer_tokens from_user to_user amount description key db = do
  guard (ltb_ℤ (pos 0) amount) not_a_positive_number
  guard (if nat_eq from_user to_user then false else true) same_account
  elim (find_transaction (debit_key key) db.transactions) [
    | some _ ↦ ok (already_transferred, db)
    | none ↦ do
      from ← balance_of from_user db
      guard (if ltb_ℤ from.available_tokens amount then false else true) insufficient_tokens
      let (to, db₀) = balance_or_new to_user db
      move_tokens from to amount description key db₀
  ]

pub data CreditKind : Type 0 where
  plain subscription_grant purchase : CreditKind

abbrev pub transaction_kind : CreditKind → TransactionKind
transaction_kind plain = credit
transaction_kind subscription_grant = grant
transaction_kind purchase = bought

-- `updateData` of `creditTokens`
unfoldable pub credited : CreditKind → ℤ → Balance → Balance
credited plain amount b = record b {
  available_tokens = b.available_tokens +ℤ amount;
  total_purchased = b.total_purchased +ℤ amount;
}
credited subscription_grant amount b = record b {
  available_tokens = b.available_tokens +ℤ amount;
  total_purchased = b.total_purchased +ℤ amount;
  subscription_tokens = b.subscription_tokens +ℤ amount;
}
credited purchase amount b = record b {
  available_tokens = b.available_tokens +ℤ amount;
  total_purchased = b.total_purchased +ℤ amount;
  purchased_tokens = b.purchased_tokens +ℤ amount;
}

-- `creditTokens`
unfoldable pub credit_tokens :
    String → ℕ → ℤ → String → CreditKind → Option ℕ → Option String → Db → Result (Transaction × Db)
credit_tokens transaction_id user_id amount description kind purchase_id intent db =
    let (balance, db₀) = balance_or_new user_id db in
    create_transaction
      (record {
        transaction_id = transaction_id;
        user_id = user_id;
        tool_use_id = none;
        token_purchase_id = purchase_id;
        kind = transaction_kind kind;
        amount = amount;
        description = description;
        balance_before = balance.available_tokens;
        balance_after = balance.available_tokens +ℤ amount;
        stripe_payment_intent_id = intent;
      })
      (update_balance (credited kind amount balance) db₀)

-- `resetSubscriptionTokens`; `lastResetAt` is left out.
unfoldable pub reset_subscription_tokens : String → ℕ → ℤ → Db → Result (Unit {0} × Db)
reset_subscription_tokens transaction_id user_id fresh db = do
  balance ← balance_of user_id db
  let available = balance.purchased_tokens +ℤ fresh
  let db' =
      update_balance (record balance { available_tokens = available; subscription_tokens = fresh })
        db
  (_, db'') ←
      create_transaction
        (ledger_row transaction_id user_id grant fresh "Monthly subscription token grant"
          balance.available_tokens available)
        db'
  ok (tt, db'')

-- `processTokenPurchase`, which makes three calls of the database and is no transaction: it reads the
-- purchase, credits the tokens and then updates the purchase. `updates` says whether the database does
-- the last call; when it does not, the tokens stay credited and the purchase stays as it was. The text
-- that names the number of tokens is an argument.
unfoldable pub process_token_purchase :
    String → String → String → Bool → Db → Result (Unit {0}) × Db
process_token_purchase transaction_id description intent updates db =
    elim (find_purchase intent db.purchases) [
      | none ↦ (throw purchase_not_found, db)
      | some p ↦ elim p.status [
        | completed ↦ (ok tt, db)
        | _ ↦
            elim (credit_tokens transaction_id p.user_id p.token_amount description purchase
              (some p.id) (some intent) db) [
                | throw e ↦ (throw e, db)
                | ok (_, credited_db) ↦
                    if updates
                    then (
                      ok tt,
                      record credited_db {
                        purchases = complete_purchase p.id credited_db.purchases;
                      },
                    )
                    else (throw update_failed, credited_db)
              ]
      ]
    ]
