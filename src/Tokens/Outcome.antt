-- ===== src/Tokens/Outcome.antt =====
-- What a transfer that moves tokens has read, and the tables after it.
use fos_mono.Common.{
  ℕ, String, Option-cases, true, false, [], ◌∷◌, ◌++◌, none, some, ◌≡◌, ◌≢◌, inl, inr, sym, ◌∙◌,
  arith,
}
use fos_mono.Common.Int.{ℤ, pos, ◌+ℤ◌, ◌-ℤ◌, ltb_ℤ}
use fos_mono.Tokens.{
  TransferOutcome, transferred, already_transferred, debit_key, credit_key, balance_or_new,
  ledger_row, move_tokens, transfer_tokens,
}
use fos_mono.Tokens.Tables.{
  Balance, Transaction, debit, credit, Db, ok, find_balance, replace_balance, find_transaction,
  create_transaction,
}
use fos_mono.Tokens.Totals.{
  total_available, find_balance-user_id, total_available-append_fresh,
  find_balance-append_fresh_self, find_balance-append_fresh_ne,
}

abbrev pub sender_after : Balance → ℤ → Balance
sender_after from amount = record from {
  available_tokens = from.available_tokens -ℤ amount;
  total_used = from.total_used +ℤ amount;
}

abbrev pub receiver_after : Balance → ℤ → Balance
receiver_after to amount = record to {
  available_tokens = to.available_tokens +ℤ amount;
  purchased_tokens = to.purchased_tokens +ℤ amount;
  total_purchased = to.total_purchased +ℤ amount;
}

abbrev pub debit_row : Balance → ℤ → String × String → String → Transaction
debit_row from amount description key =
    ledger_row (debit_key key) from.user_id debit (pos 0 -ℤ amount) description.0
      from.available_tokens (from.available_tokens -ℤ amount)

abbrev pub credit_row : Balance → ℤ → String × String → String → Transaction
credit_row to amount description key =
    ledger_row (credit_key key) to.user_id credit amount description.1 to.available_tokens
      (to.available_tokens +ℤ amount)

-- The tables after a transfer.
abbrev pub moved : Balance → Balance → ℤ → String × String → String → Db → Db
moved from to amount description key db = record db {
  balances =
      replace_balance (receiver_after to amount)
        (replace_balance (sender_after from amount) db.balances);
  transactions =
      (db.transactions ++ (debit_row from amount description key ∷ []))
      ++ (credit_row to amount description key ∷ []);
}

move_tokens-eq-ok :
    (from to : Balance) (amount : ℤ) (description : String × String) (key : String) (db db' : Db)
    (o : TransferOutcome)
    → move_tokens from to amount description key db ≡ ok (o, db')
    → db' ≡ moved from to amount description key db
unfolding move_tokens create_transaction
move_tokens-eq-ok from to amount description key db db' o h = ground arith

-- What a transfer that moved tokens has read.
pub record Transferred (from_user to_user : ℕ) (amount : ℤ) (description : String × String)
    (key : String) (db db' : Db) : Type 0 where
  pub from : Balance
  pub positive : ltb_ℤ (pos 0) amount ≡ true
  pub different : from_user ≢ to_user
  pub unused : find_transaction (debit_key key) db.transactions ≡ none
  pub sender : find_balance from_user db.balances ≡ some from
  pub enough : ltb_ℤ from.available_tokens amount ≡ false
  pub result :
      db'
      ≡ moved from
          (balance_or_new to_user db).0
          amount
          description
          key
          (balance_or_new to_user db).1

pub transfer_tokens-eq-transferred :
    (from_user to_user : ℕ) (amount : ℤ) (description : String × String) (key : String)
    (db db' : Db)
    → transfer_tokens from_user to_user amount description key db ≡ ok (transferred, db')
    → Transferred from_user to_user amount description key db db'
unfolding transfer_tokens
transfer_tokens-eq-transferred from_user to_user amount description key db db' h =
    elim (Option-cases (find_transaction (debit_key key) db.transactions)) [
      | inr (t, used) ↦ absurd (ground arith)
      | inl unused ↦ elim (Option-cases (find_balance from_user db.balances)) [
        | inl missing ↦ absurd (ground arith)
        | inr (from, sender) ↦ record {
          from = from;
          positive = ground arith;
          different = ground arith;
          unused = unused;
          sender = sender;
          enough = ground arith;
          result =
              move_tokens-eq-ok from (balance_or_new to_user db).0 amount description key
                (balance_or_new to_user db).1 db' transferred (ground arith);
        }
      ]
    ]

pub transfer_tokens-eq-already :
    (from_user to_user : ℕ) (amount : ℤ) (description : String × String) (key : String)
    (db db' : Db)
    → transfer_tokens from_user to_user amount description key db ≡ ok (already_transferred, db')
    → db ≡ db'
unfolding transfer_tokens move_tokens create_transaction
transfer_tokens-eq-already from_user to_user amount description key db db' h =
    elim (Option-cases (find_transaction (debit_key key) db.transactions)) [
      | inr (t, used) ↦ ground arith
      | inl unused ↦ elim (Option-cases (find_balance from_user db.balances)) [
        | inl missing ↦ absurd (ground arith)
        | inr (from, sender) ↦ absurd (ground arith)
      ]
    ]

-- The receiver's row, made when it was missing: it is there, and nothing else has changed.
pub record Received (from_user to_user : ℕ) (from : Balance) (db : Db) : Type 0 where
  pub there :
      find_balance to_user (balance_or_new to_user db).1.balances
      ≡ some (balance_or_new to_user db).0
  pub kept : find_balance from_user (balance_or_new to_user db).1.balances ≡ some from
  pub total : total_available (balance_or_new to_user db).1.balances ≡ total_available db.balances
  pub ledger : (balance_or_new to_user db).1.transactions ≡ db.transactions
  pub named : (balance_or_new to_user db).0.user_id ≡ to_user

pub balance_or_new-Received :
    (from_user to_user : ℕ) (from : Balance) (db : Db)
    → from_user ≢ to_user
    → find_balance from_user db.balances ≡ some from
    → Received from_user to_user from db
balance_or_new-Received from_user to_user from db other h =
    elim (Option-cases (find_balance to_user db.balances)) [
      | inl missing ↦ record {
        there =
            rw (missing, balance_or_new)
              (find_balance-append_fresh_self to_user db.balances missing);
        kept =
            rw (missing, balance_or_new)
              (find_balance-append_fresh_ne to_user from_user db.balances (λ e. other (sym e)) ∙ h);
        total = rw (missing, balance_or_new) (total_available-append_fresh to_user db.balances);
        ledger = rw (missing, balance_or_new);
        named = rw (missing, balance_or_new);
      }
      | inr (to, found) ↦ record {
        there = rw (found, balance_or_new) found;
        kept = rw (found, balance_or_new) h;
        total = rw (found, balance_or_new);
        ledger = rw (found, balance_or_new);
        named = rw (found, balance_or_new) (find_balance-user_id to_user db.balances to found);
      }
    ]
