-- ===== src/Tokens/Ledger.antt =====
-- The ledger of token transactions agrees with the balances.
use fos_mono.Common.{
  Bool, ℕ, String, Option-cases, Bool-cases, List, [], ◌∷◌, ◌++◌, Option, some, ◌≡◌, refl, sym, ap,
  subst, ◌∙◌, inl, inr, arith,
}
use fos_mono.Common.Int.{ℤ, pos, pos_part, neg_part, ◌+ℤ◌, ◌-ℤ◌, int_laws, ltb_ℤ}
use fos_mono.Tokens.{
  CreditKind, plain, subscription_grant, purchase, TransferOutcome, transferred,
  already_transferred, balance_or_new, credited, credit_tokens, debit_tokens, transfer_tokens,
  process_token_purchase,
}
use fos_mono.Tokens.Tables.{
  Result, Balance, Transaction, Db, ok, find_balance, replace_balance, create_transaction,
}
use fos_mono.Tokens.Totals.{
  total_available, find_balance-user_id, total_available-replace_balance,
  total_available-append_fresh, find_balance-append_fresh_self, create_transaction-balances,
  create_transaction-transactions,
}
use fos_mono.Tokens.Outcome.{
  debit_row, credit_row, transfer_tokens-eq-transferred, transfer_tokens-eq-already,
}
use fos_mono.Tokens.Transfer.{transfer_tokens-total_available}
use fos_mono.Tokens.Purchase.{Paid, process_token_purchase-cases}
use fos_mono.Tokens.Reset.{debited_row, debit_tokens-balances}

unfoldable pub total_amount : List Transaction → ℤ
total_amount [] = pos 0
total_amount (t ∷ ts) = t.amount +ℤ total_amount ts

-- The balances add up to the amounts in the ledger.
unfoldable pub IsBalanced : Db → Type 0
IsBalanced db = total_available db.balances ≡ total_amount db.transactions

total_amount-append :
    (ts : List Transaction) (t : Transaction)
    → total_amount (ts ++ (t ∷ [])) ≡ total_amount ts +ℤ t.amount
unfolding total_amount
total_amount-append [] t = omega int_laws
total_amount-append (s ∷ ts) t =
    let ih = total_amount-append ts t in omega (int_laws, ap pos_part ih, ap neg_part ih)

balance_or_new-found :
    (u : ℕ) (db : Db)
    → find_balance u (balance_or_new u db).1.balances ≡ some (balance_or_new u db).0
balance_or_new-found u db = elim (Option-cases (find_balance u db.balances)) [
  | inl missing ↦
      rw (missing, balance_or_new) (find_balance-append_fresh_self u db.balances missing)
  | inr (b, found) ↦ rw (found, balance_or_new) found
]

balance_or_new-total_available :
    (u : ℕ) (db : Db)
    → total_available (balance_or_new u db).1.balances ≡ total_available db.balances
balance_or_new-total_available u db = elim (Option-cases (find_balance u db.balances)) [
  | inl missing ↦ rw (missing, balance_or_new) (total_available-append_fresh u db.balances)
  | inr (b, found) ↦ rw (found, balance_or_new)
]

balance_or_new-transactions :
    (u : ℕ) (db : Db) → (balance_or_new u db).1.transactions ≡ db.transactions
balance_or_new-transactions u db = elim (Option-cases (find_balance u db.balances)) [
  | inl missing ↦ rw (missing, balance_or_new)
  | inr (b, found) ↦ rw (found, balance_or_new)
]

-- A write of one row together with a ledger row of the same amount keeps the books.
write-IsBalanced :
    (u : ℕ) (b c : Balance) (t : Transaction) (db db' : Db)
    → IsBalanced db
    → b.user_id ≡ u
    → find_balance u db.balances ≡ some c
    → b.available_tokens ≡ c.available_tokens +ℤ t.amount
    → db'.balances ≡ replace_balance b db.balances
    → db'.transactions ≡ db.transactions ++ (t ∷ [])
    → IsBalanced db'
unfolding IsBalanced
write-IsBalanced u b c t db db' books who found change bs ts =
    let moved = total_available-replace_balance u b c db.balances who found in
    let recorded = total_amount-append db.transactions t in
    rw (bs, ts)
      (omega (
        int_laws,
        ap pos_part books,
        ap neg_part books,
        ap pos_part moved,
        ap neg_part moved,
        ap pos_part recorded,
        ap neg_part recorded,
        ap pos_part change,
        ap neg_part change,
      ))

credited-available_tokens :
    (k : CreditKind) (amount : ℤ) (b : Balance)
    → (credited k amount b).available_tokens ≡ b.available_tokens +ℤ amount
unfolding credited
credited-available_tokens plain amount b = refl
credited-available_tokens subscription_grant amount b = refl
credited-available_tokens purchase amount b = refl

credited-user_id :
    (k : CreditKind) (amount : ℤ) (b : Balance) → (credited k amount b).user_id ≡ b.user_id
unfolding credited
credited-user_id plain amount b = refl
credited-user_id subscription_grant amount b = refl
credited-user_id purchase amount b = refl

pub credit_tokens-IsBalanced :
    (tid : String) (u : ℕ) (amount : ℤ) (description : String) (k : CreditKind)
    (purchase_id : Option ℕ) (intent : Option String) (db db' : Db) (t : Transaction)
    → IsBalanced db
    → credit_tokens tid u amount description k purchase_id intent db ≡ ok (t, db')
    → IsBalanced db'
unfolding credit_tokens IsBalanced
credit_tokens-IsBalanced tid u amount description k purchase_id intent db db' t books h =
    let b = (balance_or_new u db).0 in
    let mid = (balance_or_new u db).1 in
    let found = balance_or_new-found u db in
    write-IsBalanced u (credited k amount b) b _ mid db'
      (balance_or_new-total_available u db
        ∙ (books ∙ ap total_amount (sym (balance_or_new-transactions u db))))
      (credited-user_id k amount b ∙ find_balance-user_id u mid.balances b found) found
      (credited-available_tokens k amount b) (create_transaction-balances _ _ h)
      (create_transaction-transactions _ _ h)

debit_tokens-transactions :
    (tid : String) (u : ℕ) (amount : ℤ) (description : String) (tool : Option String) (db db' : Db)
    (t : Transaction) (b : Balance)
    → find_balance u db.balances ≡ some b
    → debit_tokens tid u amount description tool db ≡ ok (t, db')
    → (db'.transactions ≡ db.transactions ++ (t ∷ [])) × (t.amount ≡ pos 0 -ℤ amount)
unfolding debit_tokens create_transaction
debit_tokens-transactions tid u amount description tool db db' t b found h =
    elim (Bool-cases (ltb_ℤ b.available_tokens amount)) [
      | inl short ↦ absurd (ground arith)
      | inr enough ↦ (ground arith, ground arith)
    ]

debit_tokens-found :
    (tid : String) (u : ℕ) (amount : ℤ) (description : String) (tool : Option String) (db db' : Db)
    (t : Transaction)
    → debit_tokens tid u amount description tool db ≡ ok (t, db')
    → (b : Balance) × (find_balance u db.balances ≡ some b)
unfolding debit_tokens
debit_tokens-found tid u amount description tool db db' t h =
    elim (Option-cases (find_balance u db.balances)) [
      | inl missing ↦ absurd (ground arith)
      | inr (b, found) ↦ (b, found)
    ]

sub_eq_add : (a b c : ℤ) → c ≡ pos 0 -ℤ b → a -ℤ b ≡ a +ℤ c
sub_eq_add a b c h = rw h (omega int_laws)

pub debit_tokens-IsBalanced :
    (tid : String) (u : ℕ) (amount : ℤ) (description : String) (tool : Option String) (db db' : Db)
    (t : Transaction)
    → IsBalanced db
    → debit_tokens tid u amount description tool db ≡ ok (t, db')
    → IsBalanced db'
debit_tokens-IsBalanced tid u amount description tool db db' t books h =
    let (b, found) = debit_tokens-found tid u amount description tool db db' t h in
    let (rows, signed) =
      debit_tokens-transactions tid u amount description tool db db' t b found h in
    write-IsBalanced u (debited_row b amount) b t db db' books
      (find_balance-user_id u db.balances b found) found
      (sub_eq_add b.available_tokens amount t.amount signed)
      (debit_tokens-balances tid u amount description tool db db' t b found h) rows

total_amount-transfer :
    (amount : ℤ) (ts : List Transaction) (d c : Transaction)
    → d.amount ≡ pos 0 -ℤ amount
    → c.amount ≡ amount
    → total_amount ((ts ++ (d ∷ [])) ++ (c ∷ [])) ≡ total_amount ts
total_amount-transfer amount ts d c hd hc =
    let first = total_amount-append ts d in
    let second = total_amount-append (ts ++ (d ∷ [])) c in
    rw second (
      omega (
        int_laws,
        ap pos_part first,
        ap neg_part first,
        ap pos_part hd,
        ap neg_part hd,
        ap pos_part hc,
        ap neg_part hc,
      ))

pub transfer_tokens-IsBalanced :
    (from_user to_user : ℕ) (amount : ℤ) (description : String × String) (key : String)
    (db db' : Db) (o : TransferOutcome)
    → IsBalanced db
    → transfer_tokens from_user to_user amount description key db ≡ ok (o, db')
    → IsBalanced db'
unfolding IsBalanced
transfer_tokens-IsBalanced from_user to_user amount description key db db' already_transferred books
      h =
    subst IsBalanced (transfer_tokens-eq-already from_user to_user amount description key db db' h)
      books
transfer_tokens-IsBalanced from_user to_user amount description key db db' transferred books h =
    let read = transfer_tokens-eq-transferred from_user to_user amount description key db db' h in
    transfer_tokens-total_available from_user to_user amount description key db db' h
    ∙ (books
        ∙ (ap total_amount (sym (balance_or_new-transactions to_user db))
            ∙ (sym (
                  total_amount-transfer amount (balance_or_new to_user db).1.transactions
                    (debit_row read.from amount description key)
                    (credit_row (balance_or_new to_user db).0 amount description key) refl refl)
                ∙ ap (λ d. total_amount d.transactions) (sym read.result))))

pub process_token_purchase-IsBalanced :
    (tid description intent : String) (updates : Bool) (db db' : Db) (r : Result (Unit {0}))
    → IsBalanced db
    → process_token_purchase tid description intent updates db ≡ (r, db')
    → IsBalanced db'
unfolding IsBalanced
process_token_purchase-IsBalanced tid description intent updates db db' r books h =
    let after : (p : Paid tid description intent db) → IsBalanced p.after = λ p.
      credit_tokens-IsBalanced tid p.bought.user_id p.bought.token_amount description purchase
        (some p.bought.id) (some intent) db p.after p.row books p.credited in
    elim (process_token_purchase-cases tid description intent updates db db' r h) [
      | inl (same, _) ↦ subst IsBalanced same books
      | inr (p, inl (result, _)) ↦ subst IsBalanced (sym result) (after p)
      | inr (p, inr result) ↦ subst IsBalanced (sym result) (after p)
    ]
