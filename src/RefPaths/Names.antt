-- ===== src/RefPaths/Names.antt =====
-- A printed path is read back: its dots, then its names.
use fos_mono.Common.{
  ℕ, zero, suc, ◌-◌, Bool, true, false, ◌&&◌, not, List, [], ◌∷◌, ◌++◌, ◌≡◌, refl, ◌∙◌, ap, arith,
  every, nat_eq,
}
use fos_mono.Common.Text.{is_space}
use fos_mono.RefPaths.{
  RefExpression, got, scan, tokens_of, word, is_name_start, is_name_char, is_name, leading_dots,
  split_dots, path_of, atom, join_dots, dots, format_ref_expression,
}

-- A code that belongs to a word.
is_plain : ℕ → Bool
is_plain c = not (nat_eq c b'(') && not (nat_eq c b')') && not (is_space c)

is_name_start-is_name_char : (c : ℕ) → is_name_start c ≡ true → is_name_char c ≡ true
unfolding is_name_char
is_name_start-is_name_char c h = rw h refl

is_name_char-is_plain : (c : ℕ) → is_name_char c ≡ true → is_plain c ≡ true
unfolding is_plain is_name_char is_name_start
is_name_char-is_plain c h = ground arith

is_name_char-not_dot : (c : ℕ) → is_name_char c ≡ true → nat_eq c b'.' ≡ false
unfolding is_name_char is_name_start
is_name_char-not_dot c h = ground arith

scan-plain : (cs : List ℕ) → every is_plain cs ≡ true → scan cs ≡ (cs, [])
unfolding scan is_plain
scan-plain [] h = refl
scan-plain (c ∷ cs) h = ground (arith, scan-plain cs)

every-append :
    (p : ℕ → Bool) (a b : List ℕ) → every p a ≡ true → every p b ≡ true → every p (a ++ b) ≡ true
every-append p [] b ha hb = hb
every-append p (x ∷ a) b ha hb = ground (arith, every-append p a b)

every-imp :
    (p q : ℕ → Bool)
    → ((c : ℕ) → p c ≡ true → q c ≡ true)
    → (cs : List ℕ) → every p cs ≡ true
    → every q cs ≡ true
every-imp p q f [] h = refl
every-imp p q f (c ∷ cs) h = ground (arith, f c, every-imp p q f cs)

is_name-every : (name : List ℕ) → is_name name ≡ true → every is_name_char name ≡ true
unfolding is_name
is_name-every [] h = refl
is_name-every (c ∷ cs) h = ground (arith, is_name_start-is_name_char c)

dots-is_plain : (n : ℕ) → every is_plain (dots n) ≡ true
unfolding dots is_plain
dots-is_plain zero = refl
dots-is_plain (suc n) = dots-is_plain n

join_dots-is_plain :
    (names : List (List ℕ)) → every is_name names ≡ true → every is_plain (join_dots names) ≡ true
unfolding join_dots is_plain dots
join_dots-is_plain [] h = refl
join_dots-is_plain (name ∷ []) h =
    every-imp is_name_char is_plain is_name_char-is_plain name (is_name-every name (ground arith))
join_dots-is_plain (name ∷ next ∷ names) h =
    every-append is_plain name (b'.' ∷ join_dots (next ∷ names))
      (every-imp is_name_char is_plain is_name_char-is_plain name
        (is_name-every name (ground arith)))
      (every-append is_plain (b'.' ∷ []) (join_dots (next ∷ names)) (dots-is_plain 1)
        (join_dots-is_plain (next ∷ names) (ground arith)))

split_dots-name : (name : List ℕ) → every is_name_char name ≡ true → split_dots name ≡ name ∷ []
unfolding split_dots
split_dots-name [] h = refl
split_dots-name (c ∷ cs) h =
    rw (is_name_char-not_dot c (ground arith), split_dots-name cs (ground arith)) refl

split_dots-append :
    (name rest : List ℕ)
    → every is_name_char name ≡ true
    → split_dots (name ++ (b'.' ∷ rest)) ≡ name ∷ split_dots rest
unfolding split_dots
split_dots-append [] rest h = refl
split_dots-append (c ∷ cs) rest h =
    rw (is_name_char-not_dot c (ground arith), split_dots-append cs rest (ground arith)) refl

split_dots-join_dots :
    (name : List ℕ) (names : List (List ℕ))
    → every is_name (name ∷ names) ≡ true
    → split_dots (join_dots (name ∷ names)) ≡ name ∷ names
unfolding join_dots
split_dots-join_dots name [] h = split_dots-name name (is_name-every name (ground arith))
split_dots-join_dots name (next ∷ names) h =
    split_dots-append name (join_dots (next ∷ names)) (is_name-every name (ground arith))
    ∙ ap (λ rest. name ∷ rest) (split_dots-join_dots next names (ground arith))

-- The first code of a path is that of a name.
join_dots-cons :
    (name : List ℕ) (names : List (List ℕ))
    → every is_name (name ∷ names) ≡ true
    → (c : ℕ) × (rest : List ℕ) × (join_dots (name ∷ names) ≡ c ∷ rest) × (is_name_char c ≡ true)
unfolding join_dots is_name
join_dots-cons [] names h = absurd (ground arith)
join_dots-cons (c ∷ cs) [] h = (c, cs, refl, ground (arith, is_name_start-is_name_char c))
join_dots-cons (c ∷ cs) (next ∷ names) h =
    (c, cs ++ (b'.' ∷ join_dots (next ∷ names)), refl, ground (arith, is_name_start-is_name_char c))

path_of-join_dots :
    (names : List (List ℕ)) → every is_name names ≡ true → path_of (join_dots names) ≡ got names
unfolding path_of join_dots
path_of-join_dots [] h = refl
path_of-join_dots (name ∷ names) h =
    let (c, rest, e, k) = join_dots-cons name names h in
    let split : split_dots (c ∷ rest) ≡ name ∷ names =
      rw e at (split_dots-join_dots name names h) in
    rw (e, split, h) refl

leading_dots-join_dots :
    (n : ℕ) (names : List (List ℕ))
    → every is_name names ≡ true
    → leading_dots (dots n ++ join_dots names) ≡ (n, join_dots names)
unfolding leading_dots dots join_dots
leading_dots-join_dots zero [] h = refl
leading_dots-join_dots zero (name ∷ names) h =
    let (c, rest, e, k) = join_dots-cons name names h in rw (e, is_name_char-not_dot c k) refl
leading_dots-join_dots (suc n) names h = rw (leading_dots-join_dots n names h) refl

pub atom-format_ref_expression :
    (e : RefExpression)
    → every is_name e.path ≡ true
    → atom (format_ref_expression e) ≡ got (record e { lexical = false })
unfolding atom format_ref_expression dots
atom-format_ref_expression e h =
    let climbed : suc e.up - 1 ≡ e.up = omega arith in
    let dotted : nat_eq (suc e.up) 0 ≡ false = ground arith in
    rw (leading_dots-join_dots e.up e.path h, path_of-join_dots e.path h, climbed, dotted) refl

-- A printed expression is one token.
pub tokens_of-format_ref_expression :
    (e : RefExpression)
    → every is_name e.path ≡ true
    → tokens_of (format_ref_expression e) ≡ word (format_ref_expression e) ∷ []
unfolding tokens_of format_ref_expression dots
tokens_of-format_ref_expression e h =
    rw
      (scan-plain (dots e.up ++ join_dots e.path) (
        every-append is_plain (dots e.up) (join_dots e.path) (dots-is_plain e.up)
          (join_dots-is_plain e.path h)))
      refl
