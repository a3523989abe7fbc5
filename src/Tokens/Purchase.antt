-- ===== src/Tokens/Purchase.antt =====
-- `processTokenPurchase`: what a run does.
use fos_mono.Common.{
  ℕ, String, Bool, Option-cases, List, [], ◌∷◌, Option, some, ◌≡◌, ◌≢◌, refl, sym, subst, ◌∙◌,
  Bool-cases, opt_eq, ◌⊎◌, inl, inr, arith,
}
use fos_mono.Tokens.Totals.{create_transaction-purchases}
use fos_mono.Tokens.{CreditKind, balance_or_new, credit_tokens, process_token_purchase, purchase}
use fos_mono.Common.Int.{ℤ}
use fos_mono.Tokens.Tables.{
  Purchase, PurchaseStatus, pending, completed, failed, refunded, Transaction, Db, Result,
  TokenError, ok, throw, find_balance, find_purchase, complete_purchase,
}

pub Result-cases {ℓ} :
    {A : Type ℓ} (r : Result A) → ((a : A) × (r ≡ ok a)) ⊎ ((e : TokenError) × (r ≡ throw e))
Result-cases (ok a) = inl (a, refl)
Result-cases (throw e) = inr (e, refl)

is_completed : (s : PurchaseStatus) → (s ≡ completed) ⊎ (s ≢ completed)
is_completed pending = inr (ground arith)
is_completed completed = inl refl
is_completed failed = inr (ground arith)
is_completed refunded = inr (ground arith)

-- What a run that pays has read, and the tables after the credit.
pub record Paid (tid description intent : String) (db : Db) : Type 0 where
  pub bought : Purchase
  pub found : find_purchase intent db.purchases ≡ some bought
  pub row : Transaction
  pub after : Db
  pub credited :
      credit_tokens tid bought.user_id bought.token_amount description purchase
        (some bought.id)
        (some intent)
        db
      ≡ ok (row, after)

-- The purchase is updated.
abbrev pub finished : ℕ → Db → Db
finished id db = record db { purchases = complete_purchase id db.purchases }

-- A purchase of the intent that is completed.
abbrev pub IsCompleted : String → Db → Type 0
IsCompleted intent db =
    (p : Purchase) × (find_purchase intent db.purchases ≡ some p) × (p.status ≡ completed)

-- What a run has done: nothing; a credit alone, and then it throws; or a credit and the update. When it
-- has done nothing and succeeds, the purchase is completed already.
pub process_token_purchase-cases :
    (tid description intent : String) (updates : Bool) (db db' : Db) (r : Result (Unit {0}))
    → process_token_purchase tid description intent updates db ≡ (r, db')
    → ((db ≡ db') × (r ≡ ok tt → IsCompleted intent db))
      ⊎ ((p : Paid tid description intent db) × (((db' ≡ p.after) × (r ≢ ok tt))
            ⊎ (db' ≡ finished p.bought.id p.after)))
unfolding process_token_purchase
process_token_purchase-cases tid description intent updates db db' r h =
    elim (Option-cases (find_purchase intent db.purchases)) [
      | inl missing ↦ inl (ground arith, λ e. absurd (ground arith))
      | inr (p, found) ↦ elim (is_completed p.status) [
        | inl done ↦ inl (ground arith, λ e. (p, found, done))
        | inr unpaid ↦
            elim (Result-cases (
              credit_tokens tid p.user_id p.token_amount description purchase (some p.id)
                (some intent) db)) [
                  | inr (e, refused) ↦ inl (ground arith, λ q. absurd (ground arith))
                  | inl ((t, mid), credited) ↦
                      let paid : Paid tid description intent db = record {
                        bought = p;
                        found = found;
                        row = t;
                        after = mid;
                        credited = credited;
                      } in
                      elim (Bool-cases updates) [
                        | inl all ↦ inr (paid, inr (ground arith))
                        | inr some_fail ↦ inr (paid, inl (ground arith, λ q. absurd (ground arith)))
                      ]
                ]
      ]
    ]

unfoldable pub HasNoId : ℕ → List Purchase → Type 0
HasNoId id [] = Unit {0}
HasNoId id (p ∷ ps) = (p.id ≢ id) × HasNoId id ps

-- An id names one purchase.
unfoldable pub HasDistinctIds : List Purchase → Type 0
HasDistinctIds [] = Unit {0}
HasDistinctIds (p ∷ ps) = HasNoId p.id ps × HasDistinctIds ps

find_purchase-HasNoId :
    (intent : String) (id : ℕ) (ps : List Purchase) (p : Purchase)
    → HasNoId id ps
    → find_purchase intent ps ≡ some p
    → p.id ≢ id
unfolding HasNoId find_purchase
find_purchase-HasNoId intent id [] p n h = absurd (ground arith)
find_purchase-HasNoId intent id (q ∷ ps) p n h =
    elim (Bool-cases (opt_eq q.stripe_payment_intent_id (some intent))) [
      | inl here ↦ let same : q ≡ p = ground arith in subst (λ r. r.id ≢ id) same n.0
      | inr there ↦ find_purchase-HasNoId intent id ps p n.1 (ground arith)
    ]

find_purchase-complete_purchase :
    (intent : String) (ps : List Purchase) (p : Purchase)
    → HasDistinctIds ps
    → find_purchase intent ps ≡ some p
    → find_purchase intent (complete_purchase p.id ps) ≡ some (record p { status = completed })
unfolding HasDistinctIds find_purchase complete_purchase
find_purchase-complete_purchase intent [] p d h = absurd (ground arith)
find_purchase-complete_purchase intent (q ∷ ps) p d h =
    elim (Bool-cases (opt_eq q.stripe_payment_intent_id (some intent))) [
      | inl here ↦ ground arith
      | inr there ↦
          let found : find_purchase intent ps ≡ some p = ground arith in
          let other = find_purchase-HasNoId intent q.id ps p d.0 found in
          ground (arith, find_purchase-complete_purchase intent ps p d.1 found)
    ]

-- A purchase that is completed is not paid again.
pub process_token_purchase-completed :
    (tid description intent : String) (updates : Bool) (db : Db)
    → IsCompleted intent db
    → process_token_purchase tid description intent updates db ≡ (ok tt, db)
unfolding process_token_purchase
process_token_purchase-completed tid description intent updates db (p, found, done) = ground arith

pub balance_or_new-purchases : (u : ℕ) (db : Db) → (balance_or_new u db).1.purchases ≡ db.purchases
balance_or_new-purchases u db = elim (Option-cases (find_balance u db.balances)) [
  | inl missing ↦ rw (missing, balance_or_new)
  | inr (b, found) ↦ rw (found, balance_or_new)
]

pub credit_tokens-purchases :
    (tid : String) (u : ℕ) (amount : ℤ) (description : String) (k : CreditKind)
    (purchase_id : Option ℕ) (intent : Option String) (db db' : Db) (t : Transaction)
    → credit_tokens tid u amount description k purchase_id intent db ≡ ok (t, db')
    → db'.purchases ≡ db.purchases
unfolding credit_tokens
credit_tokens-purchases tid u amount description k purchase_id intent db db' t h =
    create_transaction-purchases _ _ h ∙ balance_or_new-purchases u db

-- A run that succeeds leaves the purchase of its intent completed.
pub process_token_purchase-IsCompleted :
    (tid description intent : String) (updates : Bool) (db db' : Db)
    → HasDistinctIds db.purchases
    → process_token_purchase tid description intent updates db ≡ (ok tt, db')
    → IsCompleted intent db'
process_token_purchase-IsCompleted tid description intent updates db db' distinct h =
    elim (process_token_purchase-cases tid description intent updates db db' (ok tt) h) [
      | inl (same, done) ↦ subst (IsCompleted intent) same (done refl)
      | inr (p, inl (_, refused)) ↦ absurd (refused refl)
      | inr (p, inr result) ↦
          let kept =
            credit_tokens-purchases tid p.bought.user_id p.bought.token_amount description purchase
              (some p.bought.id) (some intent) db p.after p.row p.credited in
          (
            record p.bought { status = completed },
            subst
                (λ d.
                  find_purchase intent d.purchases ≡ some (record p.bought { status = completed }))
                (sym result)
                (subst
                  (λ ps.
                    find_purchase intent (complete_purchase p.bought.id ps)
                    ≡ some (record p.bought { status = completed }))
                  (sym kept)
                  (find_purchase-complete_purchase intent db.purchases p.bought distinct p.found)),
            refl,
          )
    ]
