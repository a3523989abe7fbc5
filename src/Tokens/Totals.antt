-- ===== src/Tokens/Totals.antt =====
-- What the writes of tables do to the sum of all available tokens and to the rows.
use fos_mono.Common.{
  ℕ, List, [], ◌∷◌, ◌++◌, none, some, ◌≡◌, ◌≢◌, refl, ap, Bool-cases, inl, inr, arith, nat_eq,
}
use fos_mono.Common.Int.{ℤ, pos, pos_part, neg_part, ◌+ℤ◌, int_laws}
use fos_mono.Tokens.Tables.{
  Balance, Db, Transaction, ok, create_transaction, find_balance, replace_balance, fresh_balance,
}

unfoldable pub total_available : List Balance → ℤ
total_available [] = pos 0
total_available (b ∷ bs) = b.available_tokens +ℤ total_available bs

pub find_balance-user_id :
    (u : ℕ) (bs : List Balance) (b : Balance) → find_balance u bs ≡ some b → b.user_id ≡ u
unfolding find_balance
find_balance-user_id u [] b h = absurd (ground arith)
find_balance-user_id u (c ∷ bs) b h = ground (arith, find_balance-user_id u bs b)

pub find_balance-replace_balance_ne :
    (u : ℕ) (b : Balance) (bs : List Balance)
    → b.user_id ≢ u
    → find_balance u (replace_balance b bs) ≡ find_balance u bs
unfolding find_balance replace_balance
find_balance-replace_balance_ne u b [] h = refl
find_balance-replace_balance_ne u b (c ∷ bs) h =
    ground (arith, find_balance-replace_balance_ne u b bs h)

pub find_balance-replace_balance_self :
    (u : ℕ) (b c : Balance) (bs : List Balance)
    → b.user_id ≡ u
    → find_balance u bs ≡ some c
    → find_balance u (replace_balance b bs) ≡ some b
unfolding find_balance replace_balance
find_balance-replace_balance_self u b c [] e h = absurd (ground arith)
find_balance-replace_balance_self u b c (d ∷ bs) e h =
    ground (arith, find_balance-replace_balance_self u b c bs e)

pub total_available-replace_balance :
    (u : ℕ) (b c : Balance) (bs : List Balance)
    → b.user_id ≡ u
    → find_balance u bs ≡ some c
    → total_available (replace_balance b bs) +ℤ c.available_tokens
      ≡ total_available bs +ℤ b.available_tokens
unfolding total_available find_balance replace_balance
total_available-replace_balance u b c [] e h = absurd (ground arith)
total_available-replace_balance u b c (d ∷ bs) e h = elim (Bool-cases (nat_eq d.user_id u)) [
  | inl here ↦
      let same : d.available_tokens ≡ c.available_tokens = ground arith in
      rw (e, here, same) (omega int_laws)
  | inr there ↦
      let ih = total_available-replace_balance u b c bs e (ground arith) in
      rw (e, there) (omega (int_laws, ap pos_part ih, ap neg_part ih))
]

pub total_available-append_fresh :
    (u : ℕ) (bs : List Balance)
    → total_available (bs ++ (fresh_balance u ∷ [])) ≡ total_available bs
unfolding total_available
total_available-append_fresh u [] = omega int_laws
total_available-append_fresh u (b ∷ bs) =
    ap (λ t. b.available_tokens +ℤ t) (total_available-append_fresh u bs)

pub find_balance-append_fresh_self :
    (u : ℕ) (bs : List Balance)
    → find_balance u bs ≡ none
    → find_balance u (bs ++ (fresh_balance u ∷ [])) ≡ some (fresh_balance u)
unfolding find_balance
find_balance-append_fresh_self u [] h = ground arith
find_balance-append_fresh_self u (b ∷ bs) h = ground (arith, find_balance-append_fresh_self u bs)

pub find_balance-append_fresh_ne :
    (u v : ℕ) (bs : List Balance)
    → u ≢ v
    → find_balance v (bs ++ (fresh_balance u ∷ [])) ≡ find_balance v bs
unfolding find_balance
find_balance-append_fresh_ne u v [] h = ground arith
find_balance-append_fresh_ne u v (b ∷ bs) h = ground (arith, find_balance-append_fresh_ne u v bs h)

pub create_transaction-balances :
    (t : Transaction) (db : Db) {r : Transaction × Db}
    → create_transaction t db ≡ ok r
    → r.1.balances ≡ db.balances
unfolding create_transaction
create_transaction-balances t db h = ground arith

pub create_transaction-purchases :
    (t : Transaction) (db : Db) {r : Transaction × Db}
    → create_transaction t db ≡ ok r
    → r.1.purchases ≡ db.purchases
unfolding create_transaction
create_transaction-purchases t db h = ground arith

pub create_transaction-transactions :
    (t : Transaction) (db : Db) {r : Transaction × Db}
    → create_transaction t db ≡ ok r
    → r.1.transactions ≡ db.transactions ++ (t ∷ [])
unfolding create_transaction
create_transaction-transactions t db h = ground arith
