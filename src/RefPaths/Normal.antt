-- ===== src/RefPaths/Normal.antt =====
-- What is read prints, and the printed text is read as the same path.
use fos_mono.Common.{
  sym, ap, subst, if◌then◌else◌, ℕ, zero, suc, true, false, List, [], ◌∷◌, ◌++◌, ◌≡◌, refl, arith,
  every, nat_eq, Bool-cases, inl, inr,
}
use fos_mono.RefPaths.{
  RefExpression, Reading, got, failed, no_property, Token, open_paren, close_paren, word, is_name,
  leading_dots, split_dots, path_of, atom, but_last, parent, is_up, property_of, apply_operation,
  after_closing, read, whole, tokens_of, parse_ref_expression, format_ref_expression, ◌>>=◌,
}
use fos_mono.RefPaths.Names.{atom-format_ref_expression, tokens_of-format_ref_expression}

-- What a chain returns comes from what its first step returns.
bind-eq-got {ℓ κ} :
    {A : Type ℓ} {B : Type κ} (m : Reading A) (f : A → Reading B) {b : B}
    → (m >>= f) ≡ got b
    → (a : A) × (m ≡ got a) × (f a ≡ got b)
bind-eq-got (got a) f h = (a, refl, h)
bind-eq-got (failed e) f h = cc

got-inj {ℓ} : {A : Type ℓ} {a b : A} → got a ≡ got b → a ≡ b
got-inj h = cc

-- Every name of the path is one.
abbrev pub HasNames : RefExpression → Type 0
HasNames e = every is_name e.path ≡ true

path_of-names :
    (cs : List ℕ) {names : List (List ℕ)} → path_of cs ≡ got names → every is_name names ≡ true
unfolding path_of
path_of-names [] {names} h = subst (λ ns. every is_name ns ≡ true) (got-inj h) refl
path_of-names (c ∷ cs) {names} h = elim (Bool-cases (every is_name (split_dots (c ∷ cs)))) [
  | inl good ↦
      let read_path : split_dots (c ∷ cs) ≡ names = got-inj (rw good at h) in
      rw (sym read_path) good
  | inr bad ↦ absurd (ground arith)
]

atom-HasNames : (w : List ℕ) {e : RefExpression} → atom w ≡ got e → HasNames e
unfolding atom
atom-HasNames [] h = cc
atom-HasNames (c ∷ cs) h =
    let (path, read_path, built) = bind-eq-got (path_of (leading_dots (c ∷ cs)).1) _ h in
    subst HasNames (got-inj built) (path_of-names (leading_dots (c ∷ cs)).1 read_path)

but_last-names :
    (names : List (List ℕ)) → every is_name names ≡ true → every is_name (but_last names) ≡ true
but_last-names [] h = refl
but_last-names (a ∷ []) h = refl
but_last-names (a ∷ b ∷ names) h = ground (arith, but_last-names (b ∷ names))

append-names :
    (a b : List (List ℕ))
    → every is_name a ≡ true
    → every is_name b ≡ true
    → every is_name (a ++ b) ≡ true
append-names [] b ha hb = hb
append-names (x ∷ a) b ha hb = ground (arith, append-names a b)

parent-HasNames : (e : RefExpression) → HasNames e → HasNames (parent e)
unfolding parent
parent-HasNames e h =
    (elim e.path as (λ p. every is_name p ≡ true → HasNames (parent (record e { path = p }))) [
      | [] ↦ λ _. refl
      | (a ∷ names) ↦ but_last-names (a ∷ names)
    ])
      h

property_of-HasNames :
    (operation : List ℕ) (base : RefExpression) {e : RefExpression}
    → HasNames base
    → property_of operation base ≡ got e
    → HasNames e
unfolding property_of
property_of-HasNames operation base {e} k h =
    let (property, read_property, built) = bind-eq-got (atom operation) _ h in
    (elim property.path
        as (λ p.
          every is_name p ≡ true
          → (elim p [
            | [] ↦ failed no_property
            | (a ∷ names) ↦
                if nat_eq property.up 0
                then got (record base { path = base.path ++ (a ∷ names) })
                else failed no_property
          ])
            ≡ got e
          → HasNames e) [
            | [] ↦ λ _ q. cc
            | (a ∷ names) ↦ λ n q. elim (Bool-cases (nat_eq property.up 0)) [
              | inl here ↦
                  subst HasNames (got-inj (rw here at q)) (append-names base.path (a ∷ names) k n)
              | inr above ↦ absurd (ground arith)
            ]
          ])
      (atom-HasNames operation read_property) built

apply_operation-HasNames :
    (operation : List ℕ) (base : RefExpression) {e : RefExpression}
    → HasNames base
    → apply_operation operation base ≡ got e
    → HasNames e
unfolding apply_operation
apply_operation-HasNames operation base {e} k h = elim (Bool-cases (is_up operation)) [
  | inl up ↦ subst HasNames (got-inj (rw up at h)) (parent-HasNames base k)
  | inr down ↦ property_of-HasNames operation base k (rw down at h)
]

after_closing-same :
    (e : RefExpression) (tokens : List Token) {r : RefExpression × List Token}
    → after_closing e tokens ≡ got r
    → e ≡ r.0
after_closing-same e [] h = cc
after_closing-same e (open_paren ∷ tokens) h = cc
after_closing-same e (close_paren ∷ tokens) h = ap (λ r. r.0) (got-inj h)
after_closing-same e (word w ∷ tokens) h = cc

read-HasNames :
    (levels : ℕ) (tokens : List Token) {r : RefExpression × List Token}
    → read levels tokens ≡ got r
    → HasNames r.0
unfolding read
read-HasNames zero tokens h = cc
read-HasNames (suc levels) [] h = cc
read-HasNames (suc levels) (close_paren ∷ tokens) h = cc
read-HasNames (suc levels) (word w ∷ tokens) h =
    let (e, read_word, built) = bind-eq-got (atom w) _ h in
    subst HasNames (ap (λ r. r.0) (got-inj built)) (atom-HasNames w read_word)
read-HasNames (suc levels) (open_paren ∷ []) h = cc
read-HasNames (suc levels) (open_paren ∷ open_paren ∷ tokens) h = cc
read-HasNames (suc levels) (open_paren ∷ close_paren ∷ tokens) h = cc
read-HasNames (suc levels) (open_paren ∷ word operation ∷ tokens) h =
    let (base, read_base, rest) = bind-eq-got (read levels tokens) _ h in
    let (closed, read_closed, last) = bind-eq-got (after_closing base.0 base.1) _ rest in
    let (e, applied, built) = bind-eq-got (apply_operation operation closed.0) _ last in
    let names : HasNames closed.0 =
      subst HasNames (after_closing-same base.0 base.1 read_closed)
        (read-HasNames levels tokens read_base) in
    subst HasNames (ap (λ r. r.0) (got-inj built))
      (apply_operation-HasNames operation closed.0 names applied)

whole-same : (r : RefExpression × List Token) {e : RefExpression} → whole r ≡ got e → r.0 ≡ e
whole-same (a, []) h = got-inj h
whole-same (a, t ∷ tokens) h = cc

parse_ref_expression-HasNames :
    (source : List ℕ) {e : RefExpression} → parse_ref_expression source ≡ got e → HasNames e
unfolding parse_ref_expression
parse_ref_expression-HasNames source h =
    let (r, read_all, ended) = bind-eq-got (read 65 (tokens_of source)) _ h in
    subst HasNames (whole-same r ended) (read-HasNames 65 (tokens_of source) read_all)

parse_ref_expression-printed :
    (e : RefExpression)
    → HasNames e
    → parse_ref_expression (format_ref_expression e) ≡ got (record e { lexical = false })
unfolding parse_ref_expression read
parse_ref_expression-printed e h =
    rw (tokens_of-format_ref_expression e h) (rw (atom-format_ref_expression e h) refl)

-- Whatever text is read as a path, dotted or parenthesized, the dotted text that the path prints is
-- read as the same names from the same number of levels up. It is never read as a lexical path.
pub parse_ref_expression-format_ref_expression :
    (source : List ℕ) (e : RefExpression)
    → parse_ref_expression source ≡ got e
    → parse_ref_expression (format_ref_expression e) ≡ got (record e { lexical = false })
parse_ref_expression-format_ref_expression source e h =
    parse_ref_expression-printed e (parse_ref_expression-HasNames source h)
