-- ===== src/Graph/Choice/Put.antt =====
-- `putChoice` puts the choice node.
use Prim.Native.String.{compare}
use text.Mathlib.Text.{is_lt}
use fos_mono.Common.{
  Bool-cases, All-mono, String, true, List, [], ◌∷◌, Option, none, some, ◌≡◌, refl, arith, All,
  every, has_key, map, inl, inr,
}
use fos_mono.Node.{Fields, Edge}
use fos_mono.Cid.{hash_content}
use fos_mono.Store.{Table, FosStore, ok, edge_resolves}
use fos_mono.Store.WellFormed.{IsWellFormed}
use fos_mono.Graph.Choice.{
  ChoiceOption, pointer_content, option_node, alternative, sort_cids, insert_cid, put_option,
  put_options, put_choice,
}
use fos_mono.Graph.Grown.{Grown, KeepsKeys, Grown-trans, Grown-keys, put_node-Grown}
use fos_mono.Graph.Choice.Built.{
  base_edges, option_cid, choice_content, HasPrimitives, HasPrimitives-kept, has_ends, Known,
  has_ends-kept, Known-kept, has_base, has_base-kept, pointer-Resolves, option-Resolves,
}

module _ (sha3 : Fields × List Edge → String) where
  -- The ids of an option's nodes are in the table.
  pub record HasNodes (table : Table) (o : ChoiceOption) : Type 0 where
    pub option : has_key (option_cid sha3 o) table ≡ true
    pub base : has_base sha3 table o.base ≡ true

  HasNodes-kept : (s t : Table) (o : ChoiceOption) → KeepsKeys s t → HasNodes s o → HasNodes t o
  HasNodes-kept s t o k h = record {
    option = k _ h.option;
    base = has_base-kept sha3 s t o.base k h.base;
  }

  put_option-Grown :
      (store : FosStore) (o : ChoiceOption) (base : Option Edge)
      → IsWellFormed sha3 store.table
      → HasPrimitives sha3 store.table
      → Known store.table o
      → has_ends store.table base ≡ true
      → (next : FosStore) × (put_option sha3 store o base
          ≡ ok (hash_content sha3 (option_node sha3 o (base_edges sha3 base)), next))
        × Grown sha3 store next
        × (has_key (hash_content sha3 (option_node sha3 o (base_edges sha3 base))) next.table
            ≡ true)
        × (has_base sha3 next.table base ≡ true)
  unfolding put_option
  put_option-Grown store o none w p x h =
      let (next, e, g, k) =
        put_node-Grown sha3 store (option_node sha3 o []) w
          (option-Resolves sha3 store.table o [] p x refl) in
      (next, e, g, k, refl)
  put_option-Grown store o (some b) w p x h =
      let (one, e, g, k) =
        put_node-Grown sha3 store (pointer_content sha3 none (some b)) w
          (pointer-Resolves sha3 store.table none (some b) p h) in
      let keys = Grown-keys sha3 store one g in
      let rows = base_edges sha3 (some b) in
      let (two, f, j, l) = put_node-Grown sha3 one (option_node sha3 o rows) g.valid (
        option-Resolves sha3 one.table o rows (HasPrimitives-kept sha3 store.table one.table keys p)
          (Known-kept store.table one.table o keys x) (ground (arith, k, keys _ p.base))) in
      (
        two,
        ground (arith, e, f),
        Grown-trans sha3 store one two g j,
        l,
        Grown-keys sha3 one two j _ k,
      )

  put_options-Grown :
      (store : FosStore) (options : List ChoiceOption)
      → IsWellFormed sha3 store.table
      → HasPrimitives sha3 store.table
      → All (Known store.table) options
      → (next : FosStore) × (put_options sha3 store options
          ≡ ok (map (option_cid sha3) options, next))
        × Grown sha3 store next
        × All (λ c. has_key c next.table ≡ true) (map (option_cid sha3) options)
        × All (HasNodes next.table) options
  unfolding put_options
  put_options-Grown store [] w p x = (store, refl, record { valid = w; kept = λ c v h. h }, tt, tt)
  put_options-Grown store (o ∷ options) w p x =
      let (one, e, g, k, b) = put_option-Grown store o o.base w p x.0 x.0.base in
      let keys = Grown-keys sha3 store one g in
      let (two, f, j, l, c) =
        put_options-Grown one options g.valid (HasPrimitives-kept sha3 store.table one.table keys p)
          (All-mono (Known store.table) (Known one.table)
            (λ o y. Known-kept store.table one.table o keys y) options x.1) in
      (
        two,
        ground (arith, e, f),
        Grown-trans sha3 store one two g j,
        (Grown-keys sha3 one two j _ k, l),
        (
          record {
            option = Grown-keys sha3 one two j _ k;
            base = has_base-kept sha3 one.table two.table o.base (Grown-keys sha3 one two j) b;
          },
          c,
        ),
      )

  All-insert_cid :
      (table : Table) (c : String) (cids : List String)
      → has_key c table ≡ true
      → All (λ d. has_key d table ≡ true) cids
      → All (λ d. has_key d table ≡ true) (insert_cid c cids)
  unfolding insert_cid
  All-insert_cid table c [] k h = (k, tt)
  All-insert_cid table c (d ∷ cids) k h = elim (Bool-cases (is_lt (compare d c))) [
    | inl a ↦ rw a (h.0, All-insert_cid table c cids k h.1)
    | inr a ↦ rw a (k, h)
  ]

  sorted-Resolves :
      (table : Table) (cids : List String)
      → HasPrimitives sha3 table
      → All (λ d. has_key d table ≡ true) cids
      → every (edge_resolves table) (map (alternative sha3) cids) ≡ true
  sorted-Resolves table [] p h = refl
  sorted-Resolves table (c ∷ cids) p h =
      ground (arith, h.0, p.not_selected, sorted-Resolves table cids p h.1)

  All-sort_cids :
      (table : Table) (cids : List String)
      → All (λ d. has_key d table ≡ true) cids
      → All (λ d. has_key d table ≡ true) (sort_cids cids)
  unfolding sort_cids
  All-sort_cids table [] h = tt
  All-sort_cids table (c ∷ cids) h =
      All-insert_cid table c (sort_cids cids) h.0 (All-sort_cids table cids h.1)

  -- `putChoice` returns on every well-formed store that holds the primitives and what the options
  -- name: the id of the choice node, whose rows are in the order of their ids; the store stays well
  -- formed, holds a node of this id, one of the id of the base's pointer and those of the options' ids,
  -- and keeps every earlier node.
  pub put_choice_lem :
      (store : FosStore) (id : String) (base : Option Edge) (options : List ChoiceOption)
      → IsWellFormed sha3 store.table
      → HasPrimitives sha3 store.table
      → has_ends store.table base ≡ true
      → All (Known store.table) options
      → (next : FosStore) × (put_choice sha3 store id base options
          ≡ ok (hash_content sha3 (choice_content sha3 id base options), next))
        × Grown sha3 store next
        × (has_key (hash_content sha3 (choice_content sha3 id base options)) next.table ≡ true)
        × (has_key (hash_content sha3 (pointer_content sha3 none base)) next.table ≡ true)
        × All (HasNodes next.table) options
  unfolding put_choice
  put_choice_lem store id base options w p h x =
      let (one, e, g, k, c) = put_options-Grown store options w p x in
      let keys = Grown-keys sha3 store one g in
      let q = HasPrimitives-kept sha3 store.table one.table keys p in
      let (two, f, j, l) = put_node-Grown sha3 one (pointer_content sha3 none base) g.valid (
        pointer-Resolves sha3 one.table none base q
          (has_ends-kept store.table one.table base keys h)) in
      let more = Grown-keys sha3 one two j in
      let r = HasPrimitives-kept sha3 one.table two.table more q in
      let cids = map (option_cid sha3) options in
      let there =
        All-mono (λ c. has_key c one.table ≡ true) (λ c. has_key c two.table ≡ true)
          (λ c y. more c y) cids k in
      let (three, i, n, m) = put_node-Grown sha3 two (choice_content sha3 id base options) j.valid (
        ground (
          arith,
          l,
          r.base,
          sorted-Resolves two.table (sort_cids cids) r (All-sort_cids two.table cids there),
        )) in
      (
        three,
        ground (arith, e, f, i),
        Grown-trans sha3 store one three g (Grown-trans sha3 one two three j n),
        m,
        Grown-keys sha3 two three n _ l,
        All-mono (HasNodes one.table) (HasNodes three.table)
            (λ o y.
              HasNodes-kept one.table three.table o
                (Grown-keys sha3 one three (Grown-trans sha3 one two three j n)) y)
            options c,
      )
