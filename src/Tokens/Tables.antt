-- ===== src/Tokens/Tables.antt =====
-- The three tables that the token manager reads and writes (infra/prisma/schema.prisma), and the
-- database calls that it makes. Metadata, which no operation reads, is left out.
use fos_mono.Common.{
  ℕ, String, Bool, true, false, List, [], ◌∷◌, ◌++◌, Option, none, some, ◌==◌, nat_eq,
  if◌then◌else◌, opt_eq,
}
use fos_mono.Common.Int.{ℤ, pos}

-- `TokenBalance`
pub record Balance : Type 0 where
  pub user_id : ℕ
  pub available_tokens : ℤ
  pub total_purchased : ℤ
  pub total_used : ℤ
  pub subscription_tokens : ℤ
  pub purchased_tokens : ℤ

-- `grant` is 'subscription_grant', `bought` is 'purchase'.
pub data TransactionKind : Type 0 where
  debit credit grant bought : TransactionKind

-- `TokenTransaction`
pub record Transaction : Type 0 where
  pub transaction_id : String
  pub user_id : ℕ
  pub tool_use_id : Option String
  pub token_purchase_id : Option ℕ
  pub kind : TransactionKind
  pub amount : ℤ
  pub description : String
  pub balance_before : ℤ
  pub balance_after : ℤ
  pub stripe_payment_intent_id : Option String

pub data PurchaseStatus : Type 0 where
  pending completed failed refunded : PurchaseStatus

pub record Purchase : Type 0 where
  pub id : ℕ
  pub user_id : ℕ
  pub token_amount : ℤ
  pub stripe_payment_intent_id : Option String
  pub status : PurchaseStatus

pub record Db : Type 0 where
  pub balances : List Balance
  pub transactions : List Transaction
  pub purchases : List Purchase

pub data TokenError : Type 0 where
  balance_not_found : TokenError
  insufficient_tokens : TokenError
  not_a_positive_number : TokenError
  same_account : TokenError
  purchase_not_found : TokenError
  unique_violation : TokenError
  update_failed : TokenError

pub data Result {ℓ} (A : Type ℓ) : Type ℓ where
  ok : A → Result A
  throw : TokenError → Result A

infixl 5 ◌>>=◌ ◌>>◌
abbrev pub ◌>>=◌ {ℓ κ} : {A : Type ℓ} {B : Type κ} → Result A → (A → Result B) → Result B
ok a >>= f = f a
throw e >>= f = throw e

abbrev pub ◌>>◌ {ℓ} : {B : Type ℓ} → Result (Unit {0}) → Result B → Result B
m >> k = m >>= λ _. k

abbrev pub guard : Bool → TokenError → Result (Unit {0})
guard true e = ok tt
guard false e = throw e

abbrev pub fresh_balance : ℕ → Balance
fresh_balance user_id = record {
  user_id = user_id;
  available_tokens = pos 0;
  total_purchased = pos 0;
  total_used = pos 0;
  subscription_tokens = pos 0;
  purchased_tokens = pos 0;
}

-- `findUnique({ where: { userId } })`
unfoldable pub find_balance : ℕ → List Balance → Option Balance
find_balance user_id [] = none
find_balance user_id (b ∷ bs) = if nat_eq b.user_id user_id then some b else find_balance user_id bs

abbrev pub balance_of : ℕ → Db → Result Balance
balance_of user_id db = elim (find_balance user_id db.balances) [
  | none ↦ throw balance_not_found
  | some b ↦ ok b
]

-- `update({ where: { userId } })`: the row of that user is replaced.
unfoldable pub replace_balance : Balance → List Balance → List Balance
replace_balance b [] = []
replace_balance b (c ∷ cs) = if nat_eq c.user_id b.user_id then b ∷ cs else c ∷ replace_balance b cs

abbrev pub update_balance : Balance → Db → Db
update_balance b db = record db { balances = replace_balance b db.balances }

unfoldable pub find_transaction : String → List Transaction → Option Transaction
find_transaction key [] = none
find_transaction key (t ∷ ts) = if t.transaction_id == key then some t else find_transaction key ts

-- `tokenTransactionModel.create`; a transaction's id is unique in the table.
unfoldable pub create_transaction : Transaction → Db → Result (Transaction × Db)
create_transaction t db = elim (find_transaction t.transaction_id db.transactions) [
  | some _ ↦ throw unique_violation
  | none ↦ ok (t, record db { transactions = db.transactions ++ (t ∷ []) })
]

unfoldable pub find_purchase : String → List Purchase → Option Purchase
find_purchase intent [] = none
find_purchase intent (p ∷ ps) =
    if opt_eq p.stripe_payment_intent_id (some intent) then some p else find_purchase intent ps

unfoldable pub complete_purchase : ℕ → List Purchase → List Purchase
complete_purchase id [] = []
complete_purchase id (p ∷ ps) =
    if nat_eq p.id id then record p { status = completed } ∷ ps else p ∷ complete_purchase id ps
