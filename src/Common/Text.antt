-- ===== src/Common/Text.antt =====
-- What the code uses of the methods of texts. Lengths and cuts count UTF-16 units.
use Prim.Native.Nat.{ℕ, zero, suc, ◌+◌}
use Prim.Native.Char.{code}
use Prim.Native.String.{String}
use mathlib.Core.Bool.{Bool, true, ◌||◌, ◌&&◌}
use fos_mono.Common.Tests.{ltb, leb, nat_eq, if◌then◌else◌}

-- `length` of a text, in UTF-16 units.
abbrev pub text_length : String → ℕ
text_length String.[] = 0
text_length (String.◌∷◌ c s) = (if ltb 65535 (code c) then 2 else 1) + text_length s

-- `slice(0, n)` of a text; half of a pair at the cut is left out.
abbrev pub text_take : ℕ → String → String
text_take n String.[] = String.[]
text_take zero (String.◌∷◌ c s) = String.[]
text_take (suc zero) (String.◌∷◌ c s) =
    let rest = text_take zero s in if ltb 65535 (code c) then String.[] else String.◌∷◌ c rest
text_take (suc (suc n)) (String.◌∷◌ c s) =
    let short = text_take n s in
    let long = text_take (suc n) s in
    if ltb 65535 (code c) then String.◌∷◌ c short else String.◌∷◌ c long

-- `slice(-n)` of a text.
abbrev pub text_last : ℕ → String → String
text_last n String.[] = String.[]
text_last n (String.◌∷◌ c s) =
    let rest = text_last n s in
    if leb (text_length (String.◌∷◌ c s)) n then String.◌∷◌ c s else rest

-- White space and line ends, as `trim` removes them.
abbrev pub is_space : ℕ → Bool
is_space c =
    (leb 9 c && leb c 13)
    || nat_eq c 32
    || nat_eq c 160
    || nat_eq c 5760
    || (leb 8192 c && leb c 8202)
    || nat_eq c 8232
    || nat_eq c 8233
    || nat_eq c 8239
    || nat_eq c 8287
    || nat_eq c 12288
    || nat_eq c 65279

abbrev pub trim_start : String → String
trim_start String.[] = String.[]
trim_start (String.◌∷◌ c s) =
    let rest = trim_start s in if is_space (code c) then rest else String.◌∷◌ c s

abbrev pub join_trimmed : Bool → String → String → String
join_trimmed true s String.[] = String.[]
join_trimmed space s rest = s

-- A trailing run of white space is left out.
abbrev pub trim_end : String → String
trim_end String.[] = String.[]
trim_end (String.◌∷◌ c s) =
    let rest = trim_end s in join_trimmed (is_space (code c)) (String.◌∷◌ c rest) rest

-- `trim`.
abbrev pub trim : String → String
trim s = trim_end (trim_start s)

-- What stands before the first `@`, and what stands between it and the next one.
abbrev pub before_at : String → String
before_at String.[] = String.[]
before_at (String.◌∷◌ c s) =
    let rest = before_at s in if nat_eq (code c) b'@' then String.[] else String.◌∷◌ c rest

abbrev pub after_at : String → String
after_at String.[] = String.[]
after_at (String.◌∷◌ c s) =
    let rest = after_at s in if nat_eq (code c) b'@' then before_at s else rest
