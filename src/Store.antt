-- ===== src/Store.antt =====
-- The content-addressed node table, shared/dag-implementation/store.ts, and the acceptance of
-- foreign nodes, `importNodes` of shared/sync/graph.ts. The digest is a parameter.
pub mod WellFormed
pub mod Import
pub mod Tests
use fos_mono.Common.{
  ◌≡◌, refl, ◌⊎◌, inl, inr, ℕ, zero, suc, String, Bool, true, false, ◌&&◌, not, List, [], ◌∷◌, ◌++◌,
  Option, none, some, ◌==◌, length, every, select, lookup, has_key, set_key, if◌then◌else◌,
  String_discrete,
}
use fos_mono.Node.{Fields, Edge, NodeContent}
use fos_mono.Cid.{is_current_cid, hash_content, verify_cid}

pub data StoreError : Type 0 where
  unsupported_data_version : String → StoreError
  content_mismatch : String → StoreError
  edge_to_missing_node : String → StoreError
  root_node_not_found : StoreError
  node_not_found : String → StoreError
  no_value : StoreError
  no_alias : StoreError
  too_deep : StoreError
  typed_conflict : StoreError
  no_option : String → ℕ → StoreError

pub data Result {ℓ} (A : Type ℓ) : Type ℓ where
  ok : A → Result A
  throw : StoreError → Result A

-- To split on a result and keep the equation.
pub Result-cases {ℓ} :
    {A : Type ℓ} (r : Result A) → ((a : A) × (r ≡ ok a)) ⊎ ((e : StoreError) × (r ≡ throw e))
Result-cases (ok a) = inl (a, refl)
Result-cases (throw e) = inr (e, refl)

infixl 5 ◌>>=◌ ◌>>◌
abbrev pub ◌>>=◌ {ℓ κ} : {A : Type ℓ} {B : Type κ} → Result A → (A → Result B) → Result B
ok a >>= f = f a
throw e >>= f = throw e

abbrev pub ◌>>◌ {ℓ} : {B : Type ℓ} → Result (Unit {0}) → Result B → Result B
m >> k = m >>= λ _. k

abbrev pub guard : Bool → StoreError → Result (Unit {0})
guard true e = ok tt
guard false e = throw e

abbrev pub Table : Type 0
Table = List (String × NodeContent)

-- `implementations`, the host code of primitives, is left out.
pub record FosStore : Type 0 where
  pub table : Table
  pub root_node_id : String

-- Both ends of the edges, each checked in turn.
unfoldable pub check_edges : Table → List Edge → Result (Unit {0})
check_edges table [] = ok tt
check_edges table ((left, right) ∷ edges) = do
  guard (has_key left table) (edge_to_missing_node left)
  guard (has_key right table) (edge_to_missing_node right)
  check_edges table edges

unfoldable pub check_nodes : Table → Table → Result (Unit {0})
unfolding check_edges
check_nodes table [] = ok tt
check_nodes table ((cid, node) ∷ nodes) = do
  check_edges table node.children
  check_nodes table nodes

-- `content` of graph.ts
unfoldable pub content : FosStore → String → Result NodeContent
content store cid = elim (lookup cid store.table) [
  | none ↦ throw (node_not_found cid)
  | some value ↦ ok value
]

abbrev pub edge_resolves : Table → Edge → Bool
edge_resolves table (i, t) = has_key i table && has_key t table

module _ (sha3 : Fields × List Edge → String) where
  -- the first loop of `storeOf`
  unfoldable pub load_nodes : Table → Table → Result Table
  load_nodes table [] = ok table
  load_nodes table ((cid, node) ∷ nodes) = do
    guard (is_current_cid cid) (unsupported_data_version cid)
    guard (hash_content sha3 node == cid) (content_mismatch cid)
    load_nodes (set_key cid node table) nodes

  unfoldable pub store_of : Table → String → Result FosStore
  unfolding load_nodes check_nodes
  store_of nodes root = do
    guard (is_current_cid root) (unsupported_data_version root)
    table ← load_nodes [] nodes
    check_nodes table table
    guard (has_key root table) root_node_not_found
    ok (record { table = table; root_node_id = root })

  unfoldable pub put_node : FosStore → NodeContent → Result (String × FosStore)
  unfolding check_edges
  put_node store value = do
    check_edges store.table value.children
    let cid = hash_content sha3 value
    if has_key cid store.table
        then ok (cid, store)
        else ok (cid, record store { table = set_key cid value store.table })

  -- the filter before the loop of `importNodes`
  abbrev pub acceptable : Table → String × NodeContent → Bool
  acceptable table (cid, value) =
      if has_key cid table then false else is_current_cid cid && verify_cid sha3 cid value

-- One round of the loop: the table, the ids accepted so far, and the entries that wait.
pub record Pass : Type 0 where
  pub table : Table
  pub accepted : List String
  pub rest : Table
  pub progress : Bool

unfoldable pub import_pass : Pass → Table → Pass
import_pass p [] = p
import_pass p ((cid, value) ∷ pending) =
    import_pass
      (if every (edge_resolves p.table) value.children
        then record p {
          table = set_key cid value p.table;
          accepted = p.accepted ++ (cid ∷ []);
          progress = true;
        }
        else record p { rest = p.rest ++ ((cid, value) ∷ []) })
      pending

-- `while (pending.length && progress)`; the fuel is the number of entries that wait.
unfoldable pub import_loop : ℕ → Table → List String → Table → Pass
unfolding import_pass
import_loop zero table accepted pending = record {
  table = table;
  accepted = accepted;
  rest = pending;
  progress = false;
}
import_loop (suc fuel) table accepted [] = record {
  table = table;
  accepted = accepted;
  rest = [];
  progress = true;
}
import_loop (suc fuel) table accepted (e ∷ pending) =
    let p =
      import_pass (record { table = table; accepted = accepted; rest = []; progress = false })
        (e ∷ pending) in
    let again = import_loop fuel p.table p.accepted p.rest in if p.progress then again else p

module _ (sha3 : Fields × List Edge → String) where
  unfoldable pub import_nodes : FosStore → Table → FosStore × List String
  unfolding import_loop
  import_nodes store nodes =
      let pending = select (acceptable sha3 store.table) nodes in
      let p = import_loop (length pending) store.table [] pending in
      (record store { table = p.table }, p.accepted)
