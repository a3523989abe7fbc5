-- ===== src/RefPaths.antt =====
-- Reference paths, shared/sync/ref-paths.ts lines 7-37: the dotted and the parenthesized spelling of a
-- path, read by parseRefExpression and printed by formatRefExpression. A text is its list of codes.
pub mod Names
pub mod Normal
pub mod Tests
use fos_mono.Common.Text.{is_space}
use fos_mono.Common.{
  ℕ, zero, suc, ◌+◌, ◌-◌, Bool, true, false, ◌&&◌, ◌||◌, not, List, [], ◌∷◌, ◌++◌, Option, none,
  some, every, leb, nat_eq, if◌then◌else◌,
}

pub record RefExpression : Type 0 where
  pub up : ℕ
  pub path : List (List ℕ)
  pub lexical : Bool

-- The errors, by their messages.
pub data RefError : Type 0 where
  invalid : RefError
  deep : RefError
  no_expression : RefError
  no_property : RefError
  no_closing : RefError
  trailing : RefError

pub data Reading {ℓ} (A : Type ℓ) : Type ℓ where
  got : A → Reading A
  failed : RefError → Reading A

infixl 5 ◌>>=◌
abbrev pub ◌>>=◌ {ℓ κ} : {A : Type ℓ} {B : Type κ} → Reading A → (A → Reading B) → Reading B
got a >>= f = f a
failed e >>= f = failed e

pub data Token : Type 0 where
  open_paren : Token
  close_paren : Token
  word : List ℕ → Token

-- A token that is under way, in front of the others.
abbrev pub flush : List ℕ × List Token → List Token
flush ([], tokens) = tokens
flush (c ∷ cs, tokens) = word (c ∷ cs) ∷ tokens

-- `\s`, which is also what `trim` removes, ends a word.
unfoldable pub scan : List ℕ → List ℕ × List Token
scan [] = ([], [])
scan (c ∷ cs) =
    let rest = scan cs in
    if nat_eq c b'('
    then ([], open_paren ∷ flush rest)
    else if nat_eq c b')'
    then ([], close_paren ∷ flush rest)
    else if is_space c
    then ([], flush rest)
    else (c ∷ rest.0, rest.1)

unfoldable pub tokens_of : List ℕ → List Token
unfolding scan
tokens_of source = flush (scan source)

-- `[A-Za-z_]`
unfoldable pub is_name_start : ℕ → Bool
is_name_start c = (leb b'A' c && leb c b'Z') || (leb b'a' c && leb c b'z') || nat_eq c b'_'

-- `[\w:-]`
unfoldable pub is_name_char : ℕ → Bool
unfolding is_name_start
is_name_char c = is_name_start c || (leb b'0' c && leb c b'9') || nat_eq c b':' || nat_eq c b'-'

unfoldable pub is_name : List ℕ → Bool
unfolding is_name_start is_name_char
is_name [] = false
is_name (c ∷ cs) = is_name_start c && every is_name_char cs

-- `(\.*)`: the number of leading dots, and what follows them.
unfoldable pub leading_dots : List ℕ → ℕ × List ℕ
leading_dots [] = (0, [])
leading_dots (c ∷ cs) =
    let rest = leading_dots cs in if nat_eq c b'.' then (suc rest.0, rest.1) else (0, c ∷ cs)

abbrev pub glue : ℕ → List (List ℕ) → List (List ℕ)
glue c [] = (c ∷ []) ∷ []
glue c (name ∷ names) = (c ∷ name) ∷ names

-- `split('.')`
unfoldable pub split_dots : List ℕ → List (List ℕ)
split_dots [] = [] ∷ []
split_dots (c ∷ cs) = let rest = split_dots cs in if nat_eq c b'.' then [] ∷ rest else glue c rest

-- The names of the second group, which may be left out.
unfoldable pub path_of : List ℕ → Reading (List (List ℕ))
unfolding split_dots is_name
path_of [] = got []
path_of (c ∷ cs) =
    let names = split_dots (c ∷ cs) in if every is_name names then got names else failed invalid

unfoldable pub atom : List ℕ → Reading RefExpression
unfolding leading_dots path_of
atom [] = failed invalid
atom (c ∷ cs) = do
  let parts = leading_dots (c ∷ cs)
  path ← path_of parts.1
  got (record { up = parts.0 - 1; path = path; lexical = nat_eq parts.0 0 })

-- `path.pop()`
abbrev pub but_last : List (List ℕ) → List (List ℕ)
but_last [] = []
but_last (a ∷ []) = []
but_last (a ∷ b ∷ names) = a ∷ but_last (b ∷ names)

-- `..` of an expression.
unfoldable pub parent : RefExpression → RefExpression
parent base = elim base.path [
  | [] ↦ record { up = suc base.up; path = []; lexical = false }
  | (a ∷ names) ↦ record { up = base.up; path = but_last (a ∷ names); lexical = false }
]

unfoldable pub is_up : List ℕ → Bool
is_up (c ∷ d ∷ []) = nat_eq c b'.' && nat_eq d b'.'
is_up cs = false

-- A property of an expression.
unfoldable pub property_of : List ℕ → RefExpression → Reading RefExpression
unfolding atom
property_of operation base = do
  property ← atom operation
  elim property.path [
    | [] ↦ failed no_property
    | (a ∷ names) ↦
        if nat_eq property.up 0
        then got (record base { path = base.path ++ (a ∷ names) })
        else failed no_property
  ]

unfoldable pub apply_operation : List ℕ → RefExpression → Reading RefExpression
unfolding is_up parent property_of
apply_operation operation base =
    if is_up operation then got (parent base) else property_of operation base

abbrev pub after_closing : RefExpression → List Token → Reading (RefExpression × List Token)
after_closing e (close_paren ∷ tokens) = got (e, tokens)
after_closing e tokens = failed no_closing

-- `read`, with the number of levels that are left: 65 for depth 0, none beyond depth 64.
unfoldable pub read : ℕ → List Token → Reading (RefExpression × List Token)
unfolding atom apply_operation
read zero tokens = failed deep
read (suc levels) [] = failed no_expression
read (suc levels) (close_paren ∷ tokens) = failed no_expression
read (suc levels) (word w ∷ tokens) = do e ← atom w; got (e, tokens)
read (suc levels) (open_paren ∷ word operation ∷ tokens) = do
  base ← read levels tokens
  closed ← after_closing base.0 base.1
  e ← apply_operation operation closed.0
  got (e, closed.1)
read (suc levels) (open_paren ∷ tokens) = failed no_property

abbrev pub whole : RefExpression × List Token → Reading RefExpression
whole (e, []) = got e
whole (e, t ∷ tokens) = failed trailing

unfoldable pub parse_ref_expression : List ℕ → Reading RefExpression
unfolding tokens_of read
parse_ref_expression source = do r ← read 65 (tokens_of source); whole r

-- `join('.')`
unfoldable pub join_dots : List (List ℕ) → List ℕ
join_dots [] = []
join_dots (name ∷ []) = name
join_dots (name ∷ next ∷ names) = name ++ (b'.' ∷ join_dots (next ∷ names))

unfoldable pub dots : ℕ → List ℕ
dots zero = []
dots (suc n) = b'.' ∷ dots n

unfoldable pub format_ref_expression : RefExpression → List ℕ
unfolding dots join_dots
format_ref_expression e = dots (suc e.up) ++ join_dots e.path
