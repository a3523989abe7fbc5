-- ===== src/Tokens/Enough.antt =====
-- `hasEnoughTokens` before `debitTokens`.
use fos_mono.Common.{
  ℕ, String, Bool-cases, Option-cases, Option, none, some, true, false, ◌≡◌, inl, inr, arith,
}
use fos_mono.Common.Int.{ℤ, ltb_ℤ, pos}
use fos_mono.Tokens.{debit_tokens, has_enough_tokens, get_user_token_balance}
use fos_mono.Tokens.Tables.{
  Balance, Transaction, Db, ok, find_balance, find_transaction, create_transaction, fresh_balance,
}
use fos_mono.Tokens.Purchase.{Result-cases}
use fos_mono.Tokens.Totals.{find_balance-append_fresh_self}

has_enough_tokens-ok :
    (u : ℕ) (amount : ℤ) (db db' : Db)
    → has_enough_tokens u amount db ≡ ok (true, db')
    → (b : Balance) × ((find_balance u db'.balances ≡ some b)
        × (ltb_ℤ b.available_tokens amount ≡ false))
unfolding has_enough_tokens get_user_token_balance
has_enough_tokens-ok u amount db db' h = elim (Option-cases (find_balance u db.balances)) [
  | inl missing ↦ elim (Bool-cases (ltb_ℤ (pos 0) amount)) [
    | inl short ↦ absurd (ground arith)
    | inr enough ↦ (
      fresh_balance u,
      (ground (arith, find_balance-append_fresh_self u db.balances missing), enough),
    )
  ]
  | inr (b, found) ↦ elim (Bool-cases (ltb_ℤ b.available_tokens amount)) [
    | inl short ↦ absurd (ground arith)
    | inr enough ↦ (b, (ground arith, enough))
  ]
]

debit_tokens-ok :
    (tid : String) (u : ℕ) (amount : ℤ) (description : String) (tool : Option String) (db : Db)
    (b : Balance)
    → find_balance u db.balances ≡ some b
    → ltb_ℤ b.available_tokens amount ≡ false
    → find_transaction tid db.transactions ≡ none
    → (t : Transaction) × ((db' : Db) × (debit_tokens tid u amount description tool db
          ≡ ok (t, db')))
unfolding debit_tokens create_transaction
debit_tokens-ok tid u amount description tool db b found enough unused =
    elim (Result-cases (debit_tokens tid u amount description tool db)) [
      | inl ((t, db'), done) ↦ (t, (db', done))
      | inr (e, refused) ↦ absurd (ground arith)
    ]

-- When the check for enough tokens says yes, a debit of that amount on the tables that it leaves
-- succeeds, if the transaction's id is not in the ledger yet.
pub has_enough_tokens-debit_tokens :
    (tid : String) (u : ℕ) (amount : ℤ) (description : String) (tool : Option String) (db db' : Db)
    → has_enough_tokens u amount db ≡ ok (true, db')
    → find_transaction tid db'.transactions ≡ none
    → (t : Transaction) × ((db'' : Db) × (debit_tokens tid u amount description tool db'
          ≡ ok (t, db'')))
has_enough_tokens-debit_tokens tid u amount description tool db db' h unused =
    let (b, (found, enough)) = has_enough_tokens-ok u amount db db' h in
    debit_tokens-ok tid u amount description tool db' b found enough unused
