-- ===== src/Tokens/History.antt =====
-- Histories of calls of the token manager.
use fos_mono.Common.{ℕ, String, Bool, Option, some, ◌≡◌, subst}
use fos_mono.Common.Int.{ℤ, pos, ◌≤ℤ◌}
use fos_mono.Tokens.{
  CreditKind, TransferOutcome, credit_tokens, debit_tokens, transfer_tokens,
  reset_subscription_tokens, process_token_purchase,
}
use fos_mono.Tokens.Purchase.{finished}
use fos_mono.Tokens.Tables.{Result, Transaction, Purchase, Db, ok, find_purchase}
use fos_mono.Tokens.Safety.{
  IsSolvent, debit_tokens-IsSolvent, transfer_tokens-IsSolvent, credit_tokens-IsSolvent,
  reset_subscription_tokens-IsSolvent, process_token_purchase-IsSolvent,
}
use fos_mono.Tokens.Ledger.{
  IsBalanced, debit_tokens-IsBalanced, transfer_tokens-IsBalanced, credit_tokens-IsBalanced,
  process_token_purchase-IsBalanced,
}

-- A call that returns, other than the monthly reset, or a run of `processTokenPurchase` that returns or
-- throws; only what is credited has a sign to check. The update at the end of a run is a step of its own,
-- too: with a credit in front of it, and other steps in between, it is a run that others interrupt.
pub data Step (db db' : Db) : Type 0 where
  debiting :
      (tid : String) (u : ℕ) (amount : ℤ) (description : String) (tool : Option String)
      (t : Transaction)
      → debit_tokens tid u amount description tool db ≡ ok (t, db')
      → Step db db'
  transferring :
      (from_user to_user : ℕ) (amount : ℤ) (description : String × String) (key : String)
      (o : TransferOutcome)
      → transfer_tokens from_user to_user amount description key db ≡ ok (o, db')
      → Step db db'
  crediting :
      (tid : String) (u : ℕ) (amount : ℤ) (description : String) (k : CreditKind)
      (purchase_id : Option ℕ) (intent : Option String) (t : Transaction)
      → pos 0 ≤ℤ amount
      → credit_tokens tid u amount description k purchase_id intent db ≡ ok (t, db')
      → Step db db'
  purchasing :
      (tid description intent : String) (updates : Bool) (r : Result (Unit {0}))
      → ((p : Purchase) → find_purchase intent db.purchases ≡ some p → pos 0 ≤ℤ p.token_amount)
      → process_token_purchase tid description intent updates db ≡ (r, db')
      → Step db db'
  finishing : (id : ℕ) → finished id db ≡ db' → Step db db'

-- Steps and monthly resets, in any order.
pub data Reach (db : Db) : Db → Type 0 where
  start : Reach db db
  step : {mid last : Db} → Reach db mid → Step mid last → Reach db last
  reset :
      {mid last : Db}
      → Reach db mid
      → (tid : String) (u : ℕ) (fresh : ℤ) → pos 0 ≤ℤ fresh
      → reset_subscription_tokens tid u fresh mid ≡ ok (tt, last)
      → Reach db last

-- Steps without a reset.
pub data Steps (db : Db) : Db → Type 0 where
  none_yet : Steps db db
  further : {mid last : Db} → Steps db mid → Step mid last → Steps db last

finished-IsSolvent : (id : ℕ) (db : Db) → IsSolvent db → IsSolvent (finished id db)
unfolding IsSolvent
finished-IsSolvent id db s = s

finished-IsBalanced : (id : ℕ) (db : Db) → IsBalanced db → IsBalanced (finished id db)
unfolding IsBalanced
finished-IsBalanced id db s = s

Step-IsSolvent : {db db' : Db} → Step db db' → IsSolvent db → IsSolvent db'
Step-IsSolvent {db} {db'} (debiting tid u amount description tool t h) s =
    debit_tokens-IsSolvent tid u amount description tool db db' t s h
Step-IsSolvent {db} {db'} (transferring from_user to_user amount description key o h) s =
    transfer_tokens-IsSolvent from_user to_user amount description key db db' o s h
Step-IsSolvent {db} {db'} (crediting tid u amount description k purchase_id intent t positive h) s =
    credit_tokens-IsSolvent tid u amount description k purchase_id intent db db' t s positive h
Step-IsSolvent {db} {db'} (purchasing tid description intent updates r positive h) s =
    process_token_purchase-IsSolvent tid description intent updates db db' r s positive h
Step-IsSolvent {db} {db'} (finishing id h) s = subst IsSolvent h (finished-IsSolvent id db s)

-- Whatever calls return, in whatever order, runs of `processTokenPurchase` whose last update fails or
-- comes later among them, from tables where no user's available or purchased tokens are below 0, none
-- are below 0 afterwards; debits and transfers may be of any amount, and credited, purchased and reset
-- amounts are not negative.
pub Reach-IsSolvent : {db db' : Db} → IsSolvent db → Reach db db' → IsSolvent db'
Reach-IsSolvent s start = s
Reach-IsSolvent s (step r st) = Step-IsSolvent st (Reach-IsSolvent s r)
Reach-IsSolvent s (reset {mid} {last} r tid u fresh positive h) =
    reset_subscription_tokens-IsSolvent tid u fresh mid last (Reach-IsSolvent s r) positive h

Step-IsBalanced : {db db' : Db} → Step db db' → IsBalanced db → IsBalanced db'
Step-IsBalanced {db} {db'} (debiting tid u amount description tool t h) s =
    debit_tokens-IsBalanced tid u amount description tool db db' t s h
Step-IsBalanced {db} {db'} (transferring from_user to_user amount description key o h) s =
    transfer_tokens-IsBalanced from_user to_user amount description key db db' o s h
Step-IsBalanced {db} {db'} (crediting tid u amount description k purchase_id intent t positive h)
      s =
    credit_tokens-IsBalanced tid u amount description k purchase_id intent db db' t s h
Step-IsBalanced {db} {db'} (purchasing tid description intent updates r positive h) s =
    process_token_purchase-IsBalanced tid description intent updates db db' r s h
Step-IsBalanced {db} {db'} (finishing id h) s = subst IsBalanced h (finished-IsBalanced id db s)

-- From tables where the available tokens of all users add up to the amounts of all rows of the ledger,
-- they do so after any debits, transfers and credits that return and any runs of `processTokenPurchase`,
-- those whose last update fails or comes later among them, in any order, as long as there is no monthly
-- reset and no credited or purchased amount is negative.
pub Steps-IsBalanced : {db db' : Db} → IsBalanced db → Steps db db' → IsBalanced db'
Steps-IsBalanced s none_yet = s
Steps-IsBalanced s (further r st) = Step-IsBalanced st (Steps-IsBalanced s r)
