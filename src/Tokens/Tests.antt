-- ===== src/Tokens/Tests.antt =====
-- A small history of calls of the token manager.
pub mod Purchases
use fos_mono.Common.{ℕ, String_discrete, [], ◌∷◌, none, some, true, false, ◌≡◌, ◌≢◌, refl, arith}
use fos_mono.Common.Int.{pos, negsuc, ◌+ℤ◌, ◌-ℤ◌, ltb_ℤ}
use fos_mono.Tokens.{
  transferred, already_transferred, balance_or_new, get_user_token_balance, has_enough_tokens,
  debit_tokens, credited, credit_tokens, move_tokens, transfer_tokens, reset_subscription_tokens,
  process_token_purchase,
}
use fos_mono.Tokens.Tables.{
  Balance, Transaction, debit, credit, grant, bought, Purchase, pending, completed, Db, ok, throw,
  insufficient_tokens, update_failed, find_balance, replace_balance, find_transaction,
  create_transaction, find_purchase, complete_purchase,
}
use fos_mono.Tokens.Safety.{IsSolvent, AreSolvent}
use fos_mono.Tokens.Ledger.{IsBalanced, total_amount}
use fos_mono.Tokens.Purchase.{HasDistinctIds, HasNoId}
use fos_mono.Tokens.Reset.{reset_subscription_tokens-debit_tokens}
use fos_mono.Tokens.History.{
  Reach, start, step, reset, none_yet, further, transferring, debiting, Reach-IsSolvent,
  Steps-IsBalanced,
}
use fos_mono.Tokens.Totals.{total_available}
use fos_mono.Tokens.Outcome.{sender_after, receiver_after}
use fos_mono.Tokens.Transfer.{transfer_tokens-balances, transfer_tokens_again}

abbrev pub ann : Balance
ann = record {
  user_id = 1;
  available_tokens = pos 10;
  total_purchased = pos 10;
  total_used = pos 0;
  subscription_tokens = pos 0;
  purchased_tokens = pos 10;
}

abbrev pub opening : Transaction
opening = record {
  transaction_id = "t0";
  user_id = 1;
  tool_use_id = none;
  token_purchase_id = none;
  kind = credit;
  amount = pos 10;
  description = "opening";
  balance_before = pos 0;
  balance_after = pos 10;
  stripe_payment_intent_id = none;
}

abbrev pub order : Purchase
order = record {
  id = 7;
  user_id = 1;
  token_amount = pos 5;
  stripe_payment_intent_id = some "pi";
  status = pending;
}

abbrev pub tables : Db
tables = record { balances = ann ∷ []; transactions = opening ∷ []; purchases = order ∷ [] }

abbrev paid_out : Db
paid_out = record tables {
  balances =
      record ann { available_tokens = pos 6; total_used = pos 4 }
      ∷ record {
        user_id = 2;
        available_tokens = pos 4;
        total_purchased = pos 4;
        total_used = pos 0;
        subscription_tokens = pos 0;
        purchased_tokens = pos 4;
      }
      ∷ [];
  transactions =
      opening
      ∷ record opening {
        transaction_id = "k:debit";
        kind = debit;
        amount = negsuc 3;
        description = "out";
        balance_before = pos 10;
        balance_after = pos 6;
      }
      ∷ record opening {
        transaction_id = "k:credit";
        user_id = 2;
        amount = pos 4;
        description = "in";
        balance_before = pos 0;
        balance_after = pos 4;
      }
      ∷ [];
}

transfer_test : transfer_tokens 1 2 (pos 4) ("out", "in") "k" tables ≡ ok (transferred, paid_out)
unfolding transfer_tokens move_tokens find_balance replace_balance find_transaction
    create_transaction ◌+ℤ◌ ◌-ℤ◌ String_discrete
transfer_test = refl

short_test : transfer_tokens 1 2 (pos 11) ("out", "in") "k" tables ≡ throw insufficient_tokens
unfolding transfer_tokens move_tokens find_balance replace_balance find_transaction
    create_transaction ◌+ℤ◌ ◌-ℤ◌ String_discrete
short_test = refl

transfer_tokens-balances_example :
    (from : Balance) × (find_balance 1 tables.balances ≡ some from)
    × (ltb_ℤ from.available_tokens (pos 4) ≡ false)
    × (find_balance 1 paid_out.balances ≡ some (sender_after from (pos 4)))
    × (find_balance 2 paid_out.balances ≡ some (receiver_after (balance_or_new 2 tables).0 (pos 4)))
    × ((u : ℕ) → u ≢ 1 → u ≢ 2 → find_balance u paid_out.balances ≡ find_balance u tables.balances)
transfer_tokens-balances_example =
    transfer_tokens-balances 1 2 (pos 4) ("out", "in") "k" tables paid_out transfer_test

transfer_tokens_again_example :
    transfer_tokens 2 1 (pos 9) ("back", "back") "k" paid_out ≡ ok (already_transferred, paid_out)
transfer_tokens_again_example =
    transfer_tokens_again 1 2 (pos 4) ("out", "in") "k" tables paid_out transfer_test 2 1 (pos 9)
      ("back", "back") refl (omega arith)

abbrev debit_entry : Transaction
debit_entry = record opening {
  transaction_id = "d";
  kind = debit;
  amount = negsuc 3;
  description = "tool";
  balance_before = pos 10;
  balance_after = pos 6;
}

abbrev spent : Db
spent = record tables {
  balances = record ann { available_tokens = pos 6; total_used = pos 4 } ∷ [];
  transactions = opening ∷ debit_entry ∷ [];
}

abbrev grant_entry : Transaction
grant_entry = record opening {
  transaction_id = "g";
  kind = grant;
  amount = pos 2;
  description = "Monthly subscription token grant";
  balance_before = pos 6;
  balance_after = pos 12;
}

abbrev renewed : Db
renewed = record tables {
  balances =
      record ann { available_tokens = pos 12; total_used = pos 4; subscription_tokens = pos 2 }
      ∷ [];
  transactions = opening ∷ debit_entry ∷ grant_entry ∷ [];
}

debit_test : debit_tokens "d" 1 (pos 4) "tool" none tables ≡ ok (debit_entry, spent)
unfolding debit_tokens find_balance replace_balance find_transaction create_transaction ◌+ℤ◌ ◌-ℤ◌
    String_discrete
debit_test = refl

reset_test : reset_subscription_tokens "g" 1 (pos 2) spent ≡ ok (tt, renewed)
unfolding reset_subscription_tokens find_balance replace_balance find_transaction create_transaction
    ◌+ℤ◌ ◌-ℤ◌ String_discrete
reset_test = refl

ann_test : find_balance 1 tables.balances ≡ some ann
unfolding find_balance
ann_test = refl

reset_subscription_tokens-debit_tokens_example :
    (b' : Balance) × (find_balance 1 renewed.balances ≡ some b')
    × (b'.available_tokens ≡ pos 10 +ℤ pos 2)
    × (b'.purchased_tokens ≡ pos 10)
    × (b'.total_used ≡ pos 0 +ℤ pos 4)
reset_subscription_tokens-debit_tokens_example =
    reset_subscription_tokens-debit_tokens "d" "g" 1 (pos 4) (pos 2) "tool" none tables spent
      renewed debit_entry ann ann_test debit_test reset_test

enough_test : has_enough_tokens 1 (pos 4) tables ≡ ok (true, tables)
unfolding has_enough_tokens get_user_token_balance find_balance
enough_test = refl

unused_test : find_transaction "d" tables.transactions ≡ none
unfolding find_transaction String_discrete
unused_test = refl

tables-IsSolvent : IsSolvent tables
unfolding IsSolvent AreSolvent
tables-IsSolvent = (record { available = omega arith; purchased = omega arith }, tt)

history : Reach tables renewed
history =
    reset (step start (debiting "d" 1 (pos 4) "tool" none debit_entry debit_test)) "g" 1 (pos 2)
      (omega arith) reset_test

Reach-IsSolvent_example : IsSolvent renewed
Reach-IsSolvent_example = Reach-IsSolvent tables-IsSolvent history

tables-IsBalanced : IsBalanced tables
unfolding IsBalanced total_available total_amount ◌+ℤ◌
tables-IsBalanced = refl

Steps-IsBalanced_example : IsBalanced paid_out
Steps-IsBalanced_example =
    Steps-IsBalanced tables-IsBalanced
      (further none_yet (transferring 1 2 (pos 4) ("out", "in") "k" transferred transfer_test))
