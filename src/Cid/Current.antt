-- ===== src/Cid/Current.antt =====
-- Ids made by this build are of the current version and verify.
use Prim.Native.String
use text.Mathlib.TextLemmas.{nil-append, cons-append}
use text.Mathlib.TextPositions.{starts_with-append}
use fos_mono.Common.{
  ℕ, String, List, ◌++◌, some, true, false, ◌↔◌, ◌≡◌, refl, sym, ap, ◌∙◌, ◌==◌, ==_iff, Bool-cases,
  inl, inr, [], ◌∷◌, and-eq-true_iff,
}
use fos_mono.Node.{Fields, Edge, NodeContent}
use fos_mono.Cid.{
  ParsedCid, codes, current_prefix, data_version, is_digit, is_digest, is_cid, is_current_cid,
  parse_cid, format_cid, digest, hash_content, verify_cid,
}
use fos_mono.Cid.Syntax.{IsVersion, parse_cid-format_cid}

codes-append : (s t : String) → codes (String.◌++◌ s t) ≡ codes s ++ codes t
codes-append String.[] t = rw nil-append
codes-append (String.◌∷◌ c s) t = rw (cons-append, codes-append s t)

data_version-IsVersion : IsVersion false (codes data_version)
unfolding is_digit
data_version-IsVersion = (refl, (refl, (refl, (refl, (refl, refl)))))

prefix-format_cid :
    (d : String) → codes (String.◌++◌ current_prefix d) ≡ format_cid (codes d) (codes data_version)
unfolding format_cid
prefix-format_cid d = codes-append current_prefix d

is_cid-eq-true_of_parse :
    (cid : List ℕ) (p : ParsedCid) → parse_cid cid ≡ some p → is_cid cid ≡ true
unfolding is_cid
is_cid-eq-true_of_parse cid p e = rw (e, is_cid)

-- The current prefix before a digest of 64 hex digits is an id of the current version.
is_current_cid-prefix :
    (d : String) → is_digest (codes d) ≡ true → is_current_cid (String.◌++◌ current_prefix d) ≡ true
unfolding is_current_cid
is_current_cid-prefix d h =
    let parsed = parse_cid-format_cid (codes data_version) (codes d) data_version-IsVersion h in
    (and-eq-true_iff _ _).1 (
      starts_with-append current_prefix d,
      rw (prefix-format_cid d)
          (is_cid-eq-true_of_parse (format_cid (codes d) (codes data_version)) _ parsed),
    )

cons-nil : (n : ℕ) (xs : List ℕ) → n ∷ xs ≡ [] → ⊥
cons-nil n xs e = cc

-- An id is no empty text.
pub hash_content-is_filled :
    (sha3 : Fields × List Edge → String) (c : NodeContent) → (hash_content sha3 c == "") ≡ false
unfolding hash_content
hash_content-is_filled sha3 c = elim (Bool-cases (hash_content sha3 c == "")) [
  | inr n ↦ n
  | inl e ↦ absurd (
      cons-nil _ _
        (sym (codes-append current_prefix (digest sha3 c)) ∙ ap codes ((==_iff _ _).0 e)))
]

module _ (sha3 : Fields × List Edge → String)
    (hex : (x : Fields × List Edge) → is_digest (codes (sha3 x)) ≡ true) where
  -- If the digest function yields 64 hex digits, every id that `hash_content` makes is of the
  -- current version.
  pub hash_content-is_current_cid : (c : NodeContent) → is_current_cid (hash_content sha3 c) ≡ true
  unfolding hash_content digest
  hash_content-is_current_cid c = is_current_cid-prefix _ (hex _)

  -- If the digest function yields 64 hex digits, an id verifies for a content exactly when it is
  -- the id that hashing the content gives.
  pub verify_cid_iff :
      (cid : String) (c : NodeContent)
      → (verify_cid sha3 cid c ≡ true) ↔ (hash_content sha3 c ≡ cid)
  unfolding verify_cid
  verify_cid_iff cid c = (
    λ h. (==_iff _ _).0 ((and-eq-true_iff _ _).0 h).1,
    λ e. (and-eq-true_iff _ _).1 (rw e at (hash_content-is_current_cid c), (==_iff _ _).1 e),
  )
