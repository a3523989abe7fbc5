-- ===== src/Cid/Syntax.antt =====
-- Printing and parsing of content ids are inverse.
use fos_mono.Common.{
  ℕ, Bool, true, false, ◌&&◌, ◌||◌, List, [], ◌∷◌, ◌++◌, Option, none, some, ◌≡◌, refl, arith,
  nat_eq, Bool-cases, inl, inr,
}
use fos_mono.Cid.{
  ParsedCid, is_digit, is_digest, split_version, consume, with_digest, parse_cid, format_cid,
}

-- Digits in groups that single dots separate; `seen` says that a digit precedes.
abbrev pub IsVersion : Bool → List ℕ → Type 0
IsVersion seen [] = seen ≡ true
IsVersion seen (c ∷ cs) =
    ((is_digit c || (seen && nat_eq c b'.')) ≡ true) × IsVersion (is_digit c) cs

split_version-append :
    (seen : Bool) (v d : List ℕ)
    → IsVersion seen v
    → split_version seen (v ++ (b'-' ∷ d)) ≡ some (v, d)
unfolding split_version is_digit
split_version-append seen [] d h = ground arith
split_version-append seen (c ∷ v) d h = ground (arith, split_version-append (is_digit c) v d h.1)

consume-eq-some :
    (c : ℕ) (o : Option (List ℕ × List ℕ)) {v d : List ℕ}
    → consume c o ≡ some (v, d)
    → (w : List ℕ) × (o ≡ some (w, d)) × (v ≡ c ∷ w)
consume-eq-some c none h = cc
consume-eq-some c (some (w, e)) h = (w, ground arith, ground arith)

split_version_sound :
    (seen : Bool) (cs : List ℕ) {v d : List ℕ}
    → split_version seen cs ≡ some (v, d)
    → IsVersion seen v × (cs ≡ v ++ (b'-' ∷ d))
unfolding split_version
split_version_sound seen [] h = cc
split_version_sound seen (c ∷ cs) {v} {d} h =
    elim (Bool-cases (is_digit c || (seen && nat_eq c b'.'))) [
      | inl more ↦
          let (w, rest, e) = consume-eq-some c (split_version (is_digit c) cs) (rw more at h) in
          let (ok, whole) = split_version_sound (is_digit c) cs rest in
          rw (e, whole) ((more, ok), refl)
      | inr last ↦ elim (Bool-cases (seen && nat_eq c b'-')) [
        | inl dash ↦
            let ended : (v ≡ []) × (d ≡ cs) = ground arith in
            rw (ended.0, ended.1) (ground arith, ground arith)
        | inr other ↦ absurd (ground arith)
      ]
    ]

with_digest-eq-some :
    (o : Option (List ℕ × List ℕ)) {p : ParsedCid}
    → with_digest o ≡ some p
    → (o ≡ some (p.version, p.digest)) × (is_digest p.digest ≡ true)
with_digest-eq-some none h = cc
with_digest-eq-some (some (v, d)) h = ground arith

-- A printed id with a version of digit groups and a digest of 64 hex digits parses back to both.
pub parse_cid-format_cid :
    (v d : List ℕ)
    → IsVersion false v
    → is_digest d ≡ true
    → parse_cid (format_cid d v) ≡ some (record { version = v; digest = d })
unfolding parse_cid format_cid
parse_cid-format_cid v d hv hd = rw (split_version-append false v d hv, hd)

-- Whatever parses has such a version and such a digest, and printing them gives the text back.
pub format_cid-parse_cid :
    (cid : List ℕ) (p : ParsedCid)
    → parse_cid cid ≡ some p
    → IsVersion false p.version
      × (is_digest p.digest ≡ true)
      × (format_cid p.digest p.version ≡ cid)
unfolding parse_cid format_cid
format_cid-parse_cid [] p h = absurd (ground arith)
format_cid-parse_cid (c ∷ cs) p h =
    let head : c ≡ b'v' = ground arith in
    let (split, ok) = with_digest-eq-some (split_version false cs) {p = p} (ground arith) in
    let (version, whole) = split_version_sound false cs split in (version, ok, rw (head, whole))
