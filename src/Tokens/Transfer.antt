-- ===== src/Tokens/Transfer.antt =====
-- `transferTokens`: nothing is created or lost, and a key moves tokens once.
use fos_mono.Common.{
  ℕ, String, Bool-cases, Option-cases, true, false, List, [], ◌∷◌, ◌++◌, some, ◌≡◌, ◌≢◌, refl, inl,
  inr, append_assoc, ap, sym, subst, ◌∙◌, arith, ◌==◌,
}
use fos_mono.Common.Int.{ℤ, pos, pos_part, neg_part, ltb_ℤ, int_laws}
use fos_mono.Tokens.{transferred, already_transferred, debit_key, balance_or_new, transfer_tokens}
use fos_mono.Tokens.Tables.{
  Balance, Transaction, Db, ok, find_balance, replace_balance, find_transaction,
}
use fos_mono.Tokens.Totals.{
  total_available, find_balance-user_id, find_balance-replace_balance_ne,
  find_balance-replace_balance_self, total_available-replace_balance, find_balance-append_fresh_ne,
}
use fos_mono.Tokens.Outcome.{
  sender_after, receiver_after, debit_row, credit_row, Transferred, transfer_tokens-eq-transferred,
  Received, balance_or_new-Received,
}

module _ (from_user to_user : ℕ) (amount : ℤ) (description : String × String) (key : String)
    (db db' : Db)
    (done : transfer_tokens from_user to_user amount description key db
      ≡ ok (transferred, db')) where
  abbrev read : Transferred from_user to_user amount description key db db'
  read = transfer_tokens-eq-transferred from_user to_user amount description key db db' done

  abbrev got : Received from_user to_user read.from db
  got = balance_or_new-Received from_user to_user read.from db read.different read.sender

  -- A transfer that moves tokens keeps the sum of all users' available tokens.
  pub transfer_tokens-total_available : total_available db'.balances ≡ total_available db.balances
  transfer_tokens-total_available =
      let from = read.from in
      let to = (balance_or_new to_user db).0 in
      let mid = (balance_or_new to_user db).1.balances in
      let sent = replace_balance (sender_after from amount) mid in
      let who = find_balance-user_id from_user db.balances from read.sender in
      let still =
        find_balance-replace_balance_ne to_user (sender_after from amount) mid
          (λ e. read.different (sym who ∙ e)) in
      let first =
        total_available-replace_balance from_user (sender_after from amount) from mid who
          got.kept in
      let second =
        total_available-replace_balance to_user (receiver_after to amount) to sent got.named
          (still ∙ got.there) in
      subst (λ d. total_available d.balances ≡ total_available db.balances) (sym read.result)
        (omega (
          int_laws,
          ap pos_part first,
          ap neg_part first,
          ap pos_part second,
          ap neg_part second,
          ap pos_part got.total,
          ap neg_part got.total,
        ))

  balance_or_new-other :
      (u : ℕ)
      → u ≢ to_user
      → find_balance u (balance_or_new to_user db).1.balances ≡ find_balance u db.balances
  balance_or_new-other u q = elim (Option-cases (find_balance to_user db.balances)) [
    | inl missing ↦
        rw (missing, balance_or_new)
          (find_balance-append_fresh_ne to_user u db.balances (λ e. q (sym e)))
    | inr (to, found) ↦ rw (found, balance_or_new)
  ]

  -- A transfer that moves tokens finds the sender with at least the amount available; afterwards the
  -- sender has the amount less and the receiver, whose row is made when missing, the amount more, and
  -- every other user's balance is what it was.
  pub transfer_tokens-balances :
      (from : Balance) × (find_balance from_user db.balances ≡ some from)
      × (ltb_ℤ from.available_tokens amount ≡ false)
      × (find_balance from_user db'.balances ≡ some (sender_after from amount))
      × (find_balance to_user db'.balances
          ≡ some (receiver_after (balance_or_new to_user db).0 amount))
      × ((u : ℕ)
          → u ≢ from_user
          → u ≢ to_user
          → find_balance u db'.balances ≡ find_balance u db.balances)
  transfer_tokens-balances =
      let from = read.from in
      let to = (balance_or_new to_user db).0 in
      let mid = (balance_or_new to_user db).1.balances in
      let who = find_balance-user_id from_user db.balances from read.sender in
      (
        from,
        read.sender,
        read.enough,
        subst (λ d. find_balance from_user d.balances ≡ some (sender_after from amount))
            (sym read.result)
            (find_balance-replace_balance_ne from_user (receiver_after to amount) _
                (λ e. read.different (sym e ∙ got.named))
              ∙ find_balance-replace_balance_self from_user (sender_after from amount) from mid who
                  got.kept),
        subst (λ d. find_balance to_user d.balances ≡ some (receiver_after to amount))
            (sym read.result)
            (find_balance-replace_balance_self to_user (receiver_after to amount) to _ got.named (
              find_balance-replace_balance_ne to_user (sender_after from amount) mid
                (λ e. read.different (sym who ∙ e))
              ∙ got.there)),
        λ u p q.
            subst (λ d. find_balance u d.balances ≡ find_balance u db.balances) (sym read.result)
              (find_balance-replace_balance_ne u (receiver_after to amount) _
                  (λ e. q (sym e ∙ got.named))
                ∙ (find_balance-replace_balance_ne u (sender_after from amount) mid
                      (λ e. p (sym e ∙ who))
                    ∙ balance_or_new-other u q)),
      )

find_transaction-append_self :
    (k : String) (ts us : List Transaction) (t : Transaction)
    → t.transaction_id ≡ k
    → (u : Transaction) × (find_transaction k (ts ++ (t ∷ us)) ≡ some u)
unfolding find_transaction
find_transaction-append_self k [] us t e = (t, ground arith)
find_transaction-append_self k (s ∷ ts) us t e = elim (Bool-cases (s.transaction_id == k)) [
  | inl here ↦ (s, ground arith)
  | inr there ↦ let (u, found) = find_transaction-append_self k ts us t e in (u, ground arith)
]

already_moved :
    (key : String) (from_user to_user : ℕ) (amount : ℤ) (description : String × String) (db : Db)
    (t : Transaction)
    → find_transaction (debit_key key) db.transactions ≡ some t
    → ltb_ℤ (pos 0) amount ≡ true
    → from_user ≢ to_user
    → transfer_tokens from_user to_user amount description key db ≡ ok (already_transferred, db)
unfolding transfer_tokens
already_moved key from_user to_user amount description db t found positive different = ground arith

-- Once a transfer has moved tokens under a key, every further transfer under that key between two
-- different users, of any positive amount, reports that and changes nothing.
pub transfer_tokens_again :
    (from_user to_user : ℕ) (amount : ℤ) (description : String × String) (key : String)
    (db db' : Db)
    → transfer_tokens from_user to_user amount description key db ≡ ok (transferred, db')
    → (payer payee : ℕ) (again : ℤ) (text : String × String) → ltb_ℤ (pos 0) again ≡ true
    → payer ≢ payee
    → transfer_tokens payer payee again text key db' ≡ ok (already_transferred, db')
transfer_tokens_again from_user to_user amount description key db db' done payer payee again text
      positive different =
    let read =
      transfer_tokens-eq-transferred from_user to_user amount description key db db' done in
    let to = (balance_or_new to_user db).0 in
    let before = (balance_or_new to_user db).1.transactions in
    let row = debit_row read.from amount description key in
    let (t, found) =
      find_transaction-append_self (debit_key key) before
        (credit_row to amount description key ∷ []) row refl in
    already_moved key payer payee again text db' t
      (subst (λ d. find_transaction (debit_key key) d.transactions ≡ some t) (sym read.result)
        (rw (append_assoc before (row ∷ []) (credit_row to amount description key ∷ [])) found))
      positive different
