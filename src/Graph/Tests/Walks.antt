-- ===== src/Graph/Tests/Walks.antt =====
-- What a store reaches, its history and its root.
use fos_mono.Common.{
  Bool, String, true, false, List, [], ◌∷◌, ◌++◌, Option, none, some, ◌≡◌, refl, sym, ap, subst,
  ◌↔◌, ◌≤◌, length, contains, lookup, ◌==◌, String_discrete,
}
use fos_mono.Node.{Edge, NodeContent, insert_field}
use fos_mono.Cid.{hash_content}
use fos_mono.Store.{Table, FosStore, ok, throw, Result, content, ◌>>=◌, store_of}
use fos_mono.Store.WellFormed.{IsWellFormed}
use fos_mono.Graph.Grown.{Kept}
use fos_mono.Graph.Primitive.{primitive_cid}
use fos_mono.Graph.Reach.{Context, reachable_nodes, export_reachable_context, has_node}
use fos_mono.Graph.Reach.Invariant.{Reaches}
use fos_mono.Graph.Reach.Complete.{is_root, reachable_nodes-Reaches}
use fos_mono.Graph.Reach.Export.{export_reachable_context-store_of}
use fos_mono.Graph.Root.{
  RootChange, is_unchanged, root_stored_target, root_is_alias, node_links, next_root, commit_root,
  link_history,
}
use fos_mono.Graph.Root.History.{IsChain, link_history-IsChain}
use fos_mono.Graph.Root.Commit.{HasParts, Puts, commit_root-link_history}
use fos_mono.Graph.Tests.{prim, entries, primitives, store_of_table}
use fos_mono.Samples.{
  sample_digest, sample_digest-is_digest, text_digest, leaf, leaf_cid, pair, pair_cid,
  IsWellFormed-of_check,
}

abbrev two : FosStore
two = store_of_table ((leaf_cid, leaf) ∷ (pair_cid, pair) ∷ []) pair_cid

two-IsWellFormed : IsWellFormed sample_digest two.table
unfolding hash_content String_discrete
two-IsWellFormed = IsWellFormed-of_check sample_digest two.table refl

walk_tests :
    (reachable_nodes two (some leaf_cid ∷ none ∷ some "other" ∷ []) [] ≡ ok ((leaf_cid, leaf) ∷ []))
    × (reachable_nodes two (some pair_cid ∷ []) [] ≡ ok ((pair_cid, pair) ∷ (leaf_cid, leaf) ∷ []))
    × (reachable_nodes two (some pair_cid ∷ []) (pair_cid ∷ []) ≡ ok ((leaf_cid, leaf) ∷ []))
unfolding reachable_nodes String_discrete
walk_tests = (refl, refl, refl)

reachable_nodes-Reaches_example :
    (nodes : Table) × (reachable_nodes two (some pair_cid ∷ []) (leaf_cid ∷ []) ≡ ok nodes)
    × ((c : String) (v : NodeContent)
        → (lookup c nodes ≡ some v) ↔ (
            Reaches two.table (is_root two (some pair_cid ∷ [])) c
            × (contains c (leaf_cid ∷ []) ≡ false)
            × (lookup c two.table ≡ some v)))
reachable_nodes-Reaches_example =
    reachable_nodes-Reaches sample_digest two (some pair_cid ∷ []) (leaf_cid ∷ []) two-IsWellFormed

export_reachable_context-store_of_example :
    (c : Context) × (export_reachable_context two [] ≡ ok c)
    × (loaded : FosStore) × (store_of sample_digest c.nodes c.root_node_id ≡ ok loaded)
    × (loaded.root_node_id ≡ pair_cid)
    × ((cid : String)
        → Reaches two.table (is_root two (some pair_cid ∷ [])) cid
        → lookup cid loaded.table ≡ lookup cid two.table)
unfolding has_node String_discrete
export_reachable_context-store_of_example =
    export_reachable_context-store_of sample_digest sample_digest-is_digest two [] two-IsWellFormed
      refl

-- A root alias whose value is the node leaf, and a version before it.
abbrev names : List String
names = "target" ∷ "instruction" ∷ "previous" ∷ "mergeSource" ∷ []

abbrev first_version : NodeContent
first_version = record {
  data_fields = [];
  children = (prim "target", hash_content text_digest leaf) ∷ [];
}

abbrev second_version : NodeContent
second_version = record {
  data_fields = [];
  children =
      (prim "target", hash_content text_digest leaf)
      ∷ (prim "previous", hash_content text_digest first_version)
      ∷ [];
}

abbrev other_value : NodeContent
other_value = record { data_fields = []; children = [] }

abbrev rooted : FosStore
rooted =
    store_of_table
      (primitives names ++ entries (leaf ∷ other_value ∷ first_version ∷ second_version ∷ []))
      (hash_content text_digest second_version)

rooted-IsWellFormed : IsWellFormed text_digest rooted.table
unfolding hash_content primitive_cid String_discrete text_digest insert_field
rooted-IsWellFormed = IsWellFormed-of_check text_digest rooted.table refl

history_test :
    link_history text_digest rooted 50 (hash_content text_digest second_version)
    ≡ ok (hash_content text_digest first_version ∷ [])
unfolding link_history content hash_content primitive_cid String_discrete text_digest insert_field
history_test = refl

link_history-IsChain_example :
    (out : List String) × (link_history text_digest rooted 50
        (hash_content text_digest second_version)
      ≡ ok out)
    × (length out ≤ 50)
    × IsChain text_digest rooted.table (hash_content text_digest second_version) out
unfolding hash_content primitive_cid String_discrete text_digest insert_field
link_history-IsChain_example =
    link_history-IsChain text_digest rooted 50 (hash_content text_digest second_version)
      rooted-IsWellFormed refl

abbrev advance : RootChange
advance = record {
  target = hash_content text_digest other_value;
  now = 5;
  merge_source = none;
  force = false;
  document_root = hash_content text_digest leaf;
  new_id = "id";
}

rooted-HasParts : HasParts text_digest rooted advance
unfolding hash_content primitive_cid String_discrete text_digest insert_field
rooted-HasParts = record {
  root = refl;
  wanted = refl;
  document_root = refl;
  merge_source = λ s e. cc;
  target = refl;
  instruction = refl;
  previous = refl;
  source = refl;
}

-- The node of the next root.
abbrev third_version : NodeContent
third_version = next_root text_digest rooted advance second_version true []

same_root :
    (previous q : NodeContent) (alias c : Bool) (links ls : List Edge) (v : NodeContent)
    → previous ≡ q
    → alias ≡ c
    → links ≡ ls
    → v ≡ next_root text_digest rooted advance q c ls
    → v ≡ next_root text_digest rooted advance previous alias links
same_root previous q alias c links ls v x y z e = cc

abbrev node_of : Option NodeContent → NodeContent
node_of none = leaf
node_of (some v) = v

abbrev value_or {ℓ} : {A : Type ℓ} → A → Result A → A
value_or a (ok r) = r
value_or a (throw e) = a

links_of :
    (previous : NodeContent) (links : List Edge)
    → second_version ≡ previous
    → node_links text_digest rooted previous.children ≡ ok links
    → [] ≡ links
unfolding node_links content hash_content primitive_cid String_discrete text_digest insert_field
links_of previous links p k =
    ap (value_or [])
      (subst (λ (w : NodeContent). node_links text_digest rooted w.children ≡ ok links) (sym p) k)

Puts-third_version : (v : NodeContent) → Puts text_digest rooted advance v → v ≡ third_version
unfolding root_is_alias content hash_content primitive_cid String_discrete text_digest insert_field
Puts-third_version v (previous, alias, links, l, a, k, e) =
    let p : second_version ≡ previous = ap node_of l in
    same_root second_version previous true alias [] links v p (ap (value_or false) a)
      (links_of previous links p k) e

new_id_free :
    (n : NodeContent) → lookup (hash_content text_digest third_version) rooted.table ≡ some n → ⊥
unfolding next_root hash_content primitive_cid String_discrete text_digest insert_field
new_id_free n l = cc

no_clash :
    (v n : NodeContent)
    → Puts text_digest rooted advance v
    → lookup (hash_content text_digest v) rooted.table ≡ some n
    → n ≡ v
no_clash v n q l = absurd (
    new_id_free n (
      subst (λ (w : NodeContent). lookup (hash_content text_digest w) rooted.table ≡ some n)
        (Puts-third_version v q) l))

prims_differ :
    ((prim "target" == prim "previous") ≡ false) × ((prim "instruction" == prim "previous") ≡ false)
unfolding hash_content primitive_cid String_discrete text_digest insert_field
prims_differ = (refl, refl)

root_differs : (rooted.root_node_id == "") ≡ false
unfolding hash_content primitive_cid String_discrete text_digest insert_field
root_differs = refl

rooted_target :
    (root_stored_target text_digest rooted ≡ ok (hash_content text_digest leaf))
    × (root_is_alias text_digest rooted ≡ ok true)
    × (is_unchanged text_digest advance (hash_content text_digest leaf) true ≡ false)
unfolding root_stored_target root_is_alias content hash_content primitive_cid String_discrete
    text_digest insert_field
rooted_target = (refl, refl, refl)

commit_root-link_history_example :
    (next : FosStore) × (commit_root text_digest rooted advance ≡ ok next)
    × IsWellFormed text_digest next.table
    × Kept rooted.table next.table
    × (root_stored_target text_digest next ≡ ok advance.target)
    × (link_history text_digest next 5 next.root_node_id ≡ (
        link_history text_digest rooted 4 rooted.root_node_id >>= λ rest.
        ok (rooted.root_node_id ∷ rest)))
commit_root-link_history_example =
    commit_root-link_history text_digest rooted advance (hash_content text_digest leaf) true 4
      rooted-IsWellFormed rooted-HasParts prims_differ.0 prims_differ.1 root_differs rooted_target.0
      rooted_target.1 rooted_target.2 no_clash
