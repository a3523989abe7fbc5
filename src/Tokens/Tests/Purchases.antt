-- ===== src/Tokens/Tests/Purchases.antt =====
-- A purchase that is paid, paid again after an update that failed, and not paid again when completed.
use fos_mono.Common.{String_discrete, [], ◌∷◌, some, true, false, ◌≡◌, refl}
use fos_mono.Common.Int.{pos, negsuc, ◌+ℤ◌}
use fos_mono.Tokens.{credited, credit_tokens, process_token_purchase}
use fos_mono.Tokens.Tables.{
  Transaction, debit, bought, completed, Db, ok, throw, update_failed, find_balance,
  replace_balance, find_transaction, create_transaction, find_purchase, complete_purchase,
}
use fos_mono.Tokens.Tests.{ann, opening, order, tables}

abbrev bought_row : Transaction
bought_row = record opening {
  transaction_id = "b";
  token_purchase_id = some 7;
  kind = bought;
  amount = pos 5;
  description = "bought";
  balance_before = pos 10;
  balance_after = pos 15;
  stripe_payment_intent_id = some "pi";
}

abbrev delivered : Db
delivered = record {
  balances =
      record ann { available_tokens = pos 15; total_purchased = pos 15; purchased_tokens = pos 15 }
      ∷ [];
  transactions = opening ∷ bought_row ∷ [];
  purchases = record order { status = completed } ∷ [];
}

abbrev draw_entry : Transaction
draw_entry = record opening {
  transaction_id = "d";
  kind = debit;
  amount = negsuc 3;
  description = "tool";
  balance_before = pos 15;
  balance_after = pos 11;
}

-- Some of the tokens are spent.
abbrev drawn : Db
drawn = record delivered {
  balances =
      record ann {
        available_tokens = pos 11;
        total_purchased = pos 15;
        total_used = pos 4;
        purchased_tokens = pos 15;
      }
      ∷ [];
  transactions = opening ∷ bought_row ∷ draw_entry ∷ [];
}

-- The last update fails, and the purchase is processed again.
abbrev interrupted : Db
interrupted = record delivered { purchases = order ∷ [] }

abbrev second_row : Transaction
second_row = record bought_row {
  transaction_id = "c";
  balance_before = pos 15;
  balance_after = pos 20;
}

abbrev paid_twice : Db
paid_twice = record delivered {
  balances =
      record ann { available_tokens = pos 20; total_purchased = pos 20; purchased_tokens = pos 20 }
      ∷ [];
  transactions = opening ∷ bought_row ∷ second_row ∷ [];
}

interrupted_tests :
    (process_token_purchase "b" "bought" "pi" false tables ≡ (throw update_failed, interrupted))
    × (process_token_purchase "c" "bought" "pi" true interrupted ≡ (ok tt, paid_twice))
unfolding process_token_purchase credit_tokens credited find_purchase complete_purchase find_balance
    replace_balance find_transaction create_transaction ◌+ℤ◌ String_discrete
interrupted_tests = (refl, refl)
