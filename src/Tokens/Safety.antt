-- ===== src/Tokens/Safety.antt =====
-- No method of the token manager leaves a user with a negative balance.
use fos_mono.Common.{
  Bool, ℕ, String, Bool-cases, Option-cases, List, [], ◌∷◌, ◌++◌, Option, some, ◌≡◌, inl, inr,
  arith, nat_eq, subst, sym,
}
use fos_mono.Common.Int.{
  ℤ, pos, ◌+ℤ◌, ◌-ℤ◌, ◌≤ℤ◌, ltb_ℤ, ltb_ℤ_false, ltb_ℤ_true, -ℤ_nonneg, +ℤ_nonneg,
}
use fos_mono.Tokens.{
  CreditKind, plain, subscription_grant, purchase, TransferOutcome, transferred,
  already_transferred, balance_or_new, credited, credit_tokens, debit_tokens, transfer_tokens,
  reset_subscription_tokens, process_token_purchase,
}
use fos_mono.Tokens.Tables.{
  Result, Balance, Transaction, Db, Purchase, find_purchase, ok, find_balance, replace_balance,
  fresh_balance, create_transaction,
}
use fos_mono.Tokens.Outcome.{transfer_tokens-eq-transferred, transfer_tokens-eq-already}
use fos_mono.Tokens.Purchase.{Paid, process_token_purchase-cases}
use fos_mono.Tokens.Totals.{create_transaction-balances}

-- Neither the available nor the purchased tokens are below 0.
pub record IsSolventBalance (b : Balance) : Type 0 where
  pub available : pos 0 ≤ℤ b.available_tokens
  pub purchased : pos 0 ≤ℤ b.purchased_tokens

unfoldable pub AreSolvent : List Balance → Type 0
AreSolvent [] = Unit {0}
AreSolvent (b ∷ bs) = IsSolventBalance b × AreSolvent bs

unfoldable pub IsSolvent : Db → Type 0
IsSolvent db = AreSolvent db.balances

fresh_balance-IsSolventBalance : (u : ℕ) → IsSolventBalance (fresh_balance u)
fresh_balance-IsSolventBalance u = record { available = omega arith; purchased = omega arith }

AreSolvent-append :
    (b : Balance) (bs : List Balance)
    → AreSolvent bs
    → IsSolventBalance b
    → AreSolvent (bs ++ (b ∷ []))
unfolding AreSolvent
AreSolvent-append b [] s h = (h, tt)
AreSolvent-append b (c ∷ bs) s h = (s.0, AreSolvent-append b bs s.1 h)

AreSolvent-replace_balance :
    (b : Balance) (bs : List Balance)
    → AreSolvent bs
    → IsSolventBalance b
    → AreSolvent (replace_balance b bs)
unfolding AreSolvent replace_balance
AreSolvent-replace_balance b [] s h = tt
AreSolvent-replace_balance b (c ∷ bs) s h = elim (Bool-cases (nat_eq c.user_id b.user_id)) [
  | inl here ↦ rw here (h, s.1)
  | inr there ↦ rw there (s.0, AreSolvent-replace_balance b bs s.1 h)
]

AreSolvent-find_balance :
    (u : ℕ) (bs : List Balance) (b : Balance)
    → AreSolvent bs
    → find_balance u bs ≡ some b
    → IsSolventBalance b
unfolding AreSolvent find_balance
AreSolvent-find_balance u [] b s h = absurd (ground arith)
AreSolvent-find_balance u (c ∷ bs) b s h = elim (Bool-cases (nat_eq c.user_id u)) [
  | inl here ↦ let same : c ≡ b = ground arith in subst IsSolventBalance same s.0
  | inr there ↦ AreSolvent-find_balance u bs b s.1 (ground arith)
]

IsSolvent-balance_or_new :
    (u : ℕ) (db : Db)
    → IsSolvent db
    → IsSolventBalance (balance_or_new u db).0 × IsSolvent (balance_or_new u db).1
unfolding IsSolvent
IsSolvent-balance_or_new u db s = elim (Option-cases (find_balance u db.balances)) [
  | inl missing ↦
      rw (missing, balance_or_new)
        (
          fresh_balance-IsSolventBalance u,
          AreSolvent-append (fresh_balance u) db.balances s (fresh_balance-IsSolventBalance u),
        )
  | inr (b, found) ↦ rw (found, balance_or_new) (AreSolvent-find_balance u db.balances b s found, s)
]

pub debit_tokens-IsSolvent :
    (tid : String) (u : ℕ) (amount : ℤ) (description : String) (tool : Option String) (db db' : Db)
    (t : Transaction)
    → IsSolvent db
    → debit_tokens tid u amount description tool db ≡ ok (t, db')
    → IsSolvent db'
unfolding debit_tokens IsSolvent create_transaction
debit_tokens-IsSolvent tid u amount description tool db db' t s h =
    elim (Option-cases (find_balance u db.balances)) [
      | inl missing ↦ absurd (ground arith)
      | inr (b, found) ↦ elim (Bool-cases (ltb_ℤ b.available_tokens amount)) [
        | inl short ↦ absurd (ground arith)
        | inr enough ↦
            let sb = AreSolvent-find_balance u db.balances b s found in
            let after : IsSolventBalance (record b {
              available_tokens = b.available_tokens -ℤ amount;
              total_used = b.total_used +ℤ amount;
            }) =
              record {
                available =
                    -ℤ_nonneg b.available_tokens amount
                      (ltb_ℤ_false b.available_tokens amount enough);
                purchased = sb.purchased;
              } in
            subst AreSolvent (sym (ground arith)) (AreSolvent-replace_balance _ db.balances s after)
      ]
    ]

pub transfer_tokens-IsSolvent :
    (from_user to_user : ℕ) (amount : ℤ) (description : String × String) (key : String)
    (db db' : Db) (o : TransferOutcome)
    → IsSolvent db
    → transfer_tokens from_user to_user amount description key db ≡ ok (o, db')
    → IsSolvent db'
unfolding AreSolvent IsSolvent
transfer_tokens-IsSolvent from_user to_user amount description key db db' already_transferred s h =
    subst IsSolvent (transfer_tokens-eq-already from_user to_user amount description key db db' h) s
transfer_tokens-IsSolvent from_user to_user amount description key db db' transferred s h =
    let read = transfer_tokens-eq-transferred from_user to_user amount description key db db' h in
    let (to_solvent, mid) = IsSolvent-balance_or_new to_user db s in
    let sb = AreSolvent-find_balance from_user db.balances read.from s read.sender in
    let amount_nonneg = ltb_ℤ_true (pos 0) amount read.positive in
    subst IsSolvent (sym read.result) (
      AreSolvent-replace_balance _ _
        (AreSolvent-replace_balance _ _ mid (record {
          available =
              -ℤ_nonneg read.from.available_tokens amount
                (ltb_ℤ_false read.from.available_tokens amount read.enough);
          purchased = sb.purchased;
        }))
        (record {
          available = +ℤ_nonneg _ amount to_solvent.available amount_nonneg;
          purchased = +ℤ_nonneg _ amount to_solvent.purchased amount_nonneg;
        }))

credited-IsSolventBalance :
    (k : CreditKind) (amount : ℤ) (b : Balance)
    → pos 0 ≤ℤ amount
    → IsSolventBalance b
    → IsSolventBalance (credited k amount b)
unfolding credited
credited-IsSolventBalance plain amount b h s = record {
  available = +ℤ_nonneg b.available_tokens amount s.available h;
  purchased = s.purchased;
}
credited-IsSolventBalance subscription_grant amount b h s = record {
  available = +ℤ_nonneg b.available_tokens amount s.available h;
  purchased = s.purchased;
}
credited-IsSolventBalance purchase amount b h s = record {
  available = +ℤ_nonneg b.available_tokens amount s.available h;
  purchased = +ℤ_nonneg b.purchased_tokens amount s.purchased h;
}

pub credit_tokens-IsSolvent :
    (tid : String) (u : ℕ) (amount : ℤ) (description : String) (k : CreditKind)
    (purchase_id : Option ℕ) (intent : Option String) (db db' : Db) (t : Transaction)
    → IsSolvent db
    → pos 0 ≤ℤ amount
    → credit_tokens tid u amount description k purchase_id intent db ≡ ok (t, db')
    → IsSolvent db'
unfolding credit_tokens IsSolvent
credit_tokens-IsSolvent tid u amount description k purchase_id intent db db' t s positive h =
    let (sb, mid) = IsSolvent-balance_or_new u db s in
    subst AreSolvent (sym (create_transaction-balances _ _ h))
      (AreSolvent-replace_balance _ _ mid (credited-IsSolventBalance k amount _ positive sb))

pub reset_subscription_tokens-IsSolvent :
    (tid : String) (u : ℕ) (fresh : ℤ) (db db' : Db)
    → IsSolvent db
    → pos 0 ≤ℤ fresh
    → reset_subscription_tokens tid u fresh db ≡ ok (tt, db')
    → IsSolvent db'
unfolding reset_subscription_tokens IsSolvent create_transaction
reset_subscription_tokens-IsSolvent tid u fresh db db' s positive h =
    elim (Option-cases (find_balance u db.balances)) [
      | inl missing ↦ absurd (ground arith)
      | inr (b, found) ↦
          let sb = AreSolvent-find_balance u db.balances b s found in
          let after : IsSolventBalance (record b {
            available_tokens = b.purchased_tokens +ℤ fresh;
            subscription_tokens = fresh;
          }) =
            record {
              available = +ℤ_nonneg b.purchased_tokens fresh sb.purchased positive;
              purchased = sb.purchased;
            } in
          subst AreSolvent (sym (ground arith)) (AreSolvent-replace_balance _ db.balances s after)
    ]

pub process_token_purchase-IsSolvent :
    (tid description intent : String) (updates : Bool) (db db' : Db) (r : Result (Unit {0}))
    → IsSolvent db
    → ((p : Purchase) → find_purchase intent db.purchases ≡ some p → pos 0 ≤ℤ p.token_amount)
    → process_token_purchase tid description intent updates db ≡ (r, db')
    → IsSolvent db'
unfolding IsSolvent
process_token_purchase-IsSolvent tid description intent updates db db' r s positive h =
    let credited-IsSolvent : (p : Paid tid description intent db) → IsSolvent p.after = λ p.
      credit_tokens-IsSolvent tid p.bought.user_id p.bought.token_amount description purchase
        (some p.bought.id) (some intent) db p.after p.row s (positive p.bought p.found)
        p.credited in
    elim (process_token_purchase-cases tid description intent updates db db' r h) [
      | inl (same, _) ↦ subst IsSolvent same s
      | inr (p, inl (result, _)) ↦ subst IsSolvent (sym result) (credited-IsSolvent p)
      | inr (p, inr result) ↦ subst IsSolvent (sym result) (credited-IsSolvent p)
    ]
