-- ===== src/Device/Typing.antt =====
-- A code that was handed out is read back as it is.
use Prim.Native.Char.{Char}
use Prim.Native.String.{String}
use fos_mono.Common.{ℕ, zero, suc, ◌<◌, ◌%◌, Bool, true, ◌&&◌, [], ◌∷◌, ◌≡◌, refl, arith}
use fos_mono.Device.Code.{
  alphabet, pick, upper, upper_char, is_code_char, only_code_chars, new_code, normalize_code,
}

all_code_chars : String → Bool
all_code_chars String.[] = true
all_code_chars (String.◌∷◌ c s) = is_code_char c && all_code_chars s

size : String → ℕ
size String.[] = 0
size (String.◌∷◌ c s) = suc (size s)

pick_code_char :
    (n : ℕ) (s : String)
    → all_code_chars s ≡ true
    → n < size s
    → (c : Char) × ((pick n s ≡ String.◌∷◌ c String.[]) × (is_code_char c ≡ true))
unfolding all_code_chars size
pick_code_char n String.[] k h = absurd (omega (arith, h))
pick_code_char zero (String.◌∷◌ c s) k h = (c, (refl, ground arith))
pick_code_char (suc n) (String.◌∷◌ c s) k h = pick_code_char n s (ground arith) (omega (arith, h))

upper_char-code_char :
    (other : Char → String) (c : Char)
    → is_code_char c ≡ true
    → upper_char other c ≡ String.◌∷◌ c String.[]
upper_char-code_char other c k = ground arith

alphabet_char :
    (b : ℕ)
    → (c : Char) × ((pick (b % 32) alphabet ≡ String.◌∷◌ c String.[]) × (is_code_char c ≡ true))
unfolding all_code_chars size
alphabet_char b = pick_code_char (b % 32) alphabet refl (omega arith)

read_char :
    (other : Char → String) (c : Char) (s : String)
    → is_code_char c ≡ true
    → only_code_chars (upper other (String.◌∷◌ c s))
      ≡ String.◌∷◌ c (only_code_chars (upper other s))
read_char other c s k = rw (upper_char-code_char other c k) (rw k refl)

-- Whatever its random bytes, a code that was handed out is read back as it is.
pub normalize_code-new_code :
    (other : Char → String) (b₁ b₂ b₃ b₄ b₅ b₆ b₇ b₈ : ℕ)
    → normalize_code other (new_code (b₁ ∷ b₂ ∷ b₃ ∷ b₄ ∷ b₅ ∷ b₆ ∷ b₇ ∷ b₈ ∷ []))
      ≡ new_code (b₁ ∷ b₂ ∷ b₃ ∷ b₄ ∷ b₅ ∷ b₆ ∷ b₇ ∷ b₈ ∷ [])
unfolding normalize_code new_code
normalize_code-new_code other b₁ b₂ b₃ b₄ b₅ b₆ b₇ b₈ =
    let (a, (ea, ka)) = alphabet_char b₁ in
    let (b, (eb, kb)) = alphabet_char b₂ in
    let (c, (ec, kc)) = alphabet_char b₃ in
    let (d, (ed, kd)) = alphabet_char b₄ in
    let (e, (ee, ke)) = alphabet_char b₅ in
    let (f, (ef, kf)) = alphabet_char b₆ in
    let (g, (eg, kg)) = alphabet_char b₇ in
    let (h, (eh, kh)) = alphabet_char b₈ in
    rw (ea, eb, ec, ed, ee, ef, eg, eh)
      (rw
        (
          upper_char-code_char other a ka,
          upper_char-code_char other b kb,
          upper_char-code_char other c kc,
          upper_char-code_char other d kd,
          upper_char-code_char other e ke,
          upper_char-code_char other f kf,
          upper_char-code_char other g kg,
          upper_char-code_char other h kh,
        )
        (rw (ka, kb, kc, kd, ke, kf, kg, kh) refl))
