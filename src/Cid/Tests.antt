-- ===== src/Cid/Tests.antt =====
-- Ids parsed, printed and verified on concrete texts.
use fos_mono.Common.{ℕ, List, some, true, false, ◌≡◌, refl}
use fos_mono.Cid.{
  codes, ParsedCid, parse_cid, format_cid, cid_version, is_digit, is_digest, is_current_cid,
  versioned, unversioned, not_a_cid,
}
use fos_mono.Cid.Syntax.{parse_cid-format_cid}
use fos_mono.Samples.{leaf_cid, leaf_digest}

abbrev version : List ℕ
version = codes "0.0.12"

abbrev parsed : ParsedCid
parsed = record { version = version; digest = codes leaf_digest }

version_tests :
    (cid_version (codes leaf_cid) ≡ versioned (codes "0.0.7"))
    × (cid_version (codes leaf_digest) ≡ unversioned)
    × (cid_version (codes "v0.0.7-12") ≡ not_a_cid)
    × (is_current_cid leaf_cid ≡ true)
    × (is_current_cid leaf_digest ≡ false)
unfolding cid_version is_current_cid
version_tests = (refl, refl, refl, refl, refl)

parse_cid-format_cid_example : parse_cid (format_cid (codes leaf_digest) version) ≡ some parsed
unfolding is_digit is_digest
parse_cid-format_cid_example =
    parse_cid-format_cid version (codes leaf_digest)
      (refl, (refl, (refl, (refl, (refl, (refl, refl)))))) refl
