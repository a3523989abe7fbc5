-- ===== src/Device/Code.antt =====
-- The code that a person types: `newCode` and `normalizeCode`.
use Prim.Native.Char.{Char, code}
use Prim.Native.String.{String}
use fos_mono.Common.{ℕ, zero, suc, ◌-◌, ◌%◌, Bool, ◌&&◌, ◌||◌, List, [], ◌∷◌, leb, if◌then◌else◌}

abbrev pub alphabet : String
alphabet = "ABCDEFGHJKLMNPQRSTUVWXYZ23456789"

abbrev pub capitals : String
capitals = "ABCDEFGHIJKLMNOPQRSTUVWXYZ"

-- Texts one behind the other.
abbrev pub join : String → String → String
join String.[] t = t
join (String.◌∷◌ c s) t = String.◌∷◌ c (join s t)

-- The character at a place, as a text.
abbrev pub pick : ℕ → String → String
pick n String.[] = String.[]
pick zero (String.◌∷◌ c s) = String.◌∷◌ c String.[]
pick (suc n) (String.◌∷◌ c s) = pick n s

abbrev pub code_chars : List ℕ → String
code_chars [] = String.[]
code_chars (b ∷ bytes) = join (pick (b % 32) alphabet) (code_chars bytes)

-- A dash between the fourth and the fifth of eight characters; other texts stay as they are.
abbrev pub grouped : String → String
grouped
      (String.◌∷◌ a (
        String.◌∷◌ b (
          String.◌∷◌ c (
            String.◌∷◌ d (String.◌∷◌ e (String.◌∷◌ f (String.◌∷◌ g (String.◌∷◌ h String.[])))))))) =
    String.◌∷◌ a (
      String.◌∷◌ b (
        String.◌∷◌ c (
          String.◌∷◌ d
            (join "-" (String.◌∷◌ e (String.◌∷◌ f (String.◌∷◌ g (String.◌∷◌ h String.[]))))))))
grouped s = s

-- `newCode`, from eight random bytes.
unfoldable pub new_code : List ℕ → String
new_code bytes = grouped (code_chars bytes)

-- `toUpperCase`; what it makes of a character that is not ASCII is an argument.
abbrev pub upper_char : (Char → String) → Char → String
upper_char other c =
    if leb 128 (code c)
    then other c
    else if leb b'a' (code c) && leb (code c) b'z'
    then pick (code c - b'a') capitals
    else String.◌∷◌ c String.[]

abbrev pub upper : (Char → String) → String → String
upper other String.[] = String.[]
upper other (String.◌∷◌ c s) = join (upper_char other c) (upper other s)

abbrev pub is_code_char : Char → Bool
is_code_char c =
    (leb b'A' (code c) && leb (code c) b'Z') || (leb b'2' (code c) && leb (code c) b'9')

abbrev pub only_code_chars : String → String
only_code_chars String.[] = String.[]
only_code_chars (String.◌∷◌ c s) =
    let rest = only_code_chars s in if is_code_char c then String.◌∷◌ c rest else rest

-- `normalizeCode`
unfoldable pub normalize_code : (Char → String) → String → String
normalize_code other raw = grouped (only_code_chars (upper other raw))
