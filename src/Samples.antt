-- ===== src/Samples.antt =====
-- Concrete data for the tests: a digest function that tells nodes apart by the number of edges, one
-- that writes the content out, and a check that a table is well formed.
use Prim.Native.String
use fos_mono.Common.{
  String, Bool, Bool-cases, true, false, ◌&&◌, List, [], ◌∷◌, some, ◌==◌, ◌≡◌, refl, inl, inr,
  arith, every, lookup,
}
use fos_mono.Node.{
  Json, null, bool, num, negative, str, arr, obj, Items, nil, cons, Fields, end, field, Edge,
  NodeContent,
}
use fos_mono.Cid.{codes, is_digest, hash_content}
use fos_mono.Store.{Table, edge_resolves}
use fos_mono.Store.WellFormed.{IsWellFormed, Resolves}

abbrev pub leaf_digest : String
leaf_digest = "0000000000000000000000000000000000000000000000000000000000000001"

abbrev pub pair_digest : String
pair_digest = "000000000000000000000000000000000000000000000000000000000000000a"

abbrev pub sample_digest : Fields × List Edge → String
sample_digest (data_fields, []) = leaf_digest
sample_digest (data_fields, e ∷ edges) = pair_digest

pub sample_digest-is_digest : (x : Fields × List Edge) → is_digest (codes (sample_digest x)) ≡ true
unfolding is_digest
sample_digest-is_digest (d, []) = refl
sample_digest-is_digest (d, e ∷ edges) = refl

abbrev pub leaf : NodeContent
leaf = record { data_fields = ("name", str "leaf") ∷ []; children = [] }

abbrev pub leaf_cid : String
leaf_cid = "v0.0.7-0000000000000000000000000000000000000000000000000000000000000001"

abbrev pub pair_cid : String
pair_cid = "v0.0.7-000000000000000000000000000000000000000000000000000000000000000a"

abbrev pub pair : NodeContent
pair = record { data_fields = []; children = (leaf_cid, leaf_cid) ∷ [] }

-- A digest that writes the content out, so that it tells different contents apart.
unfoldable mutual
  pub json_text : Json → String
  json_text null = "null"
  json_text (bool true) = "true"
  json_text (bool false) = "false"
  json_text (num n) = "n"
  json_text (negative n) = "-"
  json_text (str s) = String.◌++◌ "'" s
  json_text (arr xs) = items_text xs
  json_text (obj fs) = String.◌++◌ "{" (fields_text fs)

  items_text : Items → String
  items_text nil = "]"
  items_text (cons x xs) = String.◌++◌ (json_text x) (items_text xs)

  fields_text : Fields → String
  fields_text end = "}"
  fields_text (field k v fs) =
      String.◌++◌ k (String.◌++◌ ":" (String.◌++◌ (json_text v) (fields_text fs)))

abbrev edges_text : List Edge → String
edges_text [] = "."
edges_text ((i, t) ∷ edges) =
    String.◌++◌ "(" (String.◌++◌ i (String.◌++◌ "," (String.◌++◌ t (edges_text edges))))

unfoldable pub text_digest : Fields × List Edge → String
unfolding json_text fields_text
text_digest (data_fields, edges) = String.◌++◌ (fields_text data_fields) (edges_text edges)

module _ (sha3 : Fields × List Edge → String) where
  abbrev entries_fit : Table → Table → Bool
  entries_fit table [] = true
  entries_fit table ((c, v) ∷ entries) =
      (hash_content sha3 v == c)
      && (every (edge_resolves table) v.children && entries_fit table entries)

  entries_fit-lookup :
      (table entries : Table)
      → entries_fit table entries ≡ true
      → (c : String) (v : NodeContent) → lookup c entries ≡ some v
      → (hash_content sha3 v ≡ c) × Resolves table v
  entries_fit-lookup table [] h c v l = cc
  entries_fit-lookup table ((k, w) ∷ entries) h c v l = elim (Bool-cases (k == c)) [
    | inl e ↦ (ground arith, ground arith)
    | inr n ↦ entries_fit-lookup table entries (ground arith) c v (ground arith)
  ]

  pub IsWellFormed-of_check :
      (table : Table) → entries_fit table table ≡ true → IsWellFormed sha3 table
  IsWellFormed-of_check table h = record {
    addressed = λ c v l. (entries_fit-lookup table table h c v l).0;
    closed = λ c v l. (entries_fit-lookup table table h c v l).1;
  }
