-- ===== src/Cid.antt =====
-- Content ids, shared/dag-implementation/cid.ts and shared/version.ts. The digest sha3_256 (js-sha3)
-- over the JSON text of a canonical node is a parameter of the functions that call it.
pub mod Syntax
pub mod Current
pub mod Tests
use Prim.Native.Char.{code}
use Prim.Native.String
use text.Mathlib.Text.{starts_with}
use fos_mono.Common.{
  ℕ, String, Bool, true, false, ◌&&◌, ◌||◌, List, [], ◌∷◌, ◌++◌, Option, none, some, length, every,
  leb, nat_eq, ◌==◌, String_discrete, if◌then◌else◌,
}
use fos_mono.Node.{Fields, Edge, NodeContent, normalize_fields, to_fields}

-- The code points of a text. `String` has its own `[]` and `∷`.
abbrev pub codes : String → List ℕ
codes String.[] = []
codes (String.◌∷◌ c s) = code c ∷ codes s

-- `FOS_DATA_VERSION`
abbrev pub data_version : String
data_version = "0.0.7"

-- `CURRENT_PREFIX`
abbrev pub current_prefix : String
current_prefix = "v0.0.7-"

unfoldable pub is_digit : ℕ → Bool
is_digit c = leb b'0' c && leb c b'9'

unfoldable pub is_hex : ℕ → Bool
unfolding is_digit
is_hex c = is_digit c || (leb b'a' c && leb c b'f')

-- `[0-9a-f]{64}`, the whole of `UNVERSIONED`
unfoldable pub is_digest : List ℕ → Bool
unfolding is_hex
is_digest cs = nat_eq (length cs) 64 && every is_hex cs

pub record ParsedCid : Type 0 where
  pub version : List ℕ
  pub digest : List ℕ

abbrev pub consume : ℕ → Option (List ℕ × List ℕ) → Option (List ℕ × List ℕ)
consume c none = none
consume c (some (v, rest)) = some (c ∷ v, rest)

-- `\d+(?:\.\d+)*-`: the version, and what follows its dash. `seen` says that a digit precedes.
unfoldable pub split_version : Bool → List ℕ → Option (List ℕ × List ℕ)
unfolding is_digit
split_version seen [] = none
split_version seen (c ∷ cs) =
    if is_digit c || (seen && nat_eq c b'.')
    then consume c (split_version (is_digit c) cs)
    else if seen && nat_eq c b'-'
    then some ([], cs)
    else none

abbrev pub with_digest : Option (List ℕ × List ℕ) → Option ParsedCid
with_digest none = none
with_digest (some (v, d)) = if is_digest d then some (record { version = v; digest = d }) else none

unfoldable pub parse_cid : List ℕ → Option ParsedCid
unfolding split_version is_digest
parse_cid [] = none
parse_cid (c ∷ cs) = if nat_eq c b'v' then with_digest (split_version false cs) else none

pub data CidVersion : Type 0 where
  versioned : List ℕ → CidVersion
  unversioned : CidVersion
  not_a_cid : CidVersion

-- `cidVersion`; `not_a_cid` is its null.
unfoldable pub cid_version : List ℕ → CidVersion
unfolding parse_cid is_digest
cid_version cid = elim (parse_cid cid) [
  | some p ↦ versioned p.version
  | none ↦ if is_digest cid then unversioned else not_a_cid
]

unfoldable pub format_cid : List ℕ → List ℕ → List ℕ
format_cid digest_hex version = b'v' ∷ (version ++ (b'-' ∷ digest_hex))

-- `isCid`; `none` is null.
unfoldable pub is_cid : List ℕ → Bool
unfolding parse_cid
is_cid value = elim (parse_cid value) [ none ↦ false | some _ ↦ true ]

unfoldable pub is_current_cid : String → Bool
unfolding is_cid
is_current_cid cid = starts_with cid current_prefix && is_cid (codes cid)

module _ (sha3 : Fields × List Edge → String) where
  -- Data canonicalized, edges as written.
  unfoldable pub digest : NodeContent → String
  unfolding normalize_fields
  digest content = sha3 (normalize_fields (to_fields content.data_fields), content.children)

  unfoldable pub hash_content : NodeContent → String
  unfolding digest
  hash_content content = String.◌++◌ current_prefix (digest content)

  unfoldable pub verify_cid : String → NodeContent → Bool
  unfolding hash_content is_current_cid String_discrete
  verify_cid cid content = is_current_cid cid && hash_content content == cid
