-- ===== src/Graph/Choice/Read.antt =====
-- `readChoice` of what `putChoice` puts.
use mathlib.Core.List.{Perm}
use fos_mono.Common.{
  has_key, Option-cases, inl, inr, ap, sym, subst, ◌∙◌, lookup, String_discrete, ==_refl,
  append-nil, append_assoc, String, true, List, [], ◌∷◌, ◌++◌, Option, none, some, ◌≡◌, refl, arith,
  All, map,
}
use fos_mono.Node.{Fields, Edge, NodeContent}
use fos_mono.Cid.{hash_content}
use fos_mono.Store.{Table, FosStore, ok, content}
use fos_mono.Graph.Data.{filled, alias_id_of, member}
use fos_mono.Graph.Primitive.{primitive_cid}
use fos_mono.Graph.Choice.{
  ChoiceOption, pointer_content, alternative, nth_peer, peer_at, read_pointer, read_base,
  read_option, read_options, read_choice, put_choice,
}
use fos_mono.Graph.Choice.Built.{
  option_content, option_cid, choice_content, HasPrimitives, has_ends, has_base, Known,
}
use fos_mono.Graph.Choice.Put.{HasNodes, put_choice_lem}
use fos_mono.Store.WellFormed.{IsWellFormed}
use fos_mono.Graph.Choice.Sorted.{
  sort_options, sort_options-map, sort_options-Perm, All-sort_options, IsSorted,
  sort_options-IsSorted,
}
use fos_mono.Graph.Choice.Pointer.{
  HasDistinctPrimitives, Holds, is_edge, IsOption, both_lem, base_cid, pointer-read,
  read_pointer-base,
}

ok-inj {ℓ} : {A : Type ℓ} {a b : A} → ok a ≡ ok b → a ≡ b
ok-inj h = cc

module _ (sha3 : Fields × List Edge → String) (d : HasDistinctPrimitives sha3) where
  -- The nodes of an option are in the table.
  pub record HoldsOption (table : Table) (o : ChoiceOption) : Type 0 where
    pub option : Holds sha3 table (option_content sha3 o)
    pub base : (e : Edge) → o.base ≡ some e → Holds sha3 table (pointer_content sha3 none (some e))

  read_base_lem :
      (store : FosStore) (b : Option Edge)
      → is_edge b ≡ true
      → ((e : Edge) → b ≡ some e → Holds sha3 store.table (pointer_content sha3 none (some e)))
      → read_base sha3 store (base_cid sha3 d b) ≡ ok b
  read_base_lem store none h k = refl
  read_base_lem store (some e) h k =
      ground (arith, read_pointer-base sha3 d store (some e) h (k e refl))

  read_pointer-option :
      (store : FosStore) (o : ChoiceOption)
      → IsOption o
      → Holds sha3 store.table (option_content sha3 o)
      → read_pointer sha3 store (option_cid sha3 o) ≡ ok (some o.peer_id, o.edge)
  unfolding read_pointer content pointer_content
  read_pointer-option store o n h =
      let x = pointer-read sha3 d o.edge (filled o.request_merge) o.base in
      ground (arith, h, n.peer_id, x.instruction, x.target, both_lem o.edge n.edge)

  read_option_lem :
      (store : FosStore) (o : ChoiceOption)
      → IsOption o
      → HoldsOption store.table o
      → read_option sha3 store (option_cid sha3 o) ≡ ok o
  unfolding read_option read_pointer content pointer_content
  read_option_lem store o n h =
      let x = pointer-read sha3 d o.edge (filled o.request_merge) o.base in
      ground (
        arith,
        h.option,
        n.peer_id,
        x.instruction,
        x.target,
        both_lem o.edge n.edge,
        x.approve,
        x.base,
        n.request,
        read_base_lem store o.base n.base h.base,
      )

  read_options_lem :
      (store : FosStore) (base : Option Edge) (options done : List ChoiceOption)
      → All IsOption options
      → All (HoldsOption store.table) options
      → read_options sha3 store (map (alternative sha3) (map (option_cid sha3) options)) base done
        ≡ ok (base, done ++ options)
  unfolding read_options
  read_options_lem store base [] done n h = ground (arith, append-nil done)
  read_options_lem store base (o ∷ options) done n h = ground (
    arith,
    d.not_selected_base,
    ==_refl (primitive_cid sha3 "notSelected"),
    read_option_lem store o n.0 h.0,
    read_options_lem store base options (done ++ (o ∷ [])) n.1 h.1,
    append_assoc done (o ∷ []) options,
  )

  choice_content-alias :
      (id : String) (base : Option Edge) (options : List ChoiceOption)
      → alias_id_of (choice_content sha3 id base options) ≡ some id
  unfolding alias_id_of String_discrete
  choice_content-alias id base options = refl

  choice_content-index :
      (id : String) (base : Option Edge) (options sorted : List ChoiceOption)
      → peer_at
          (member "selectedIndex"
            (lookup "option" (choice_content sha3 id base options).data_fields))
          sorted
        ≡ nth_peer 0 sorted
  unfolding String_discrete
  choice_content-index id base options sorted = refl

  -- Reading from a store that holds the nodes.
  read_choice-choice_content :
      (store : FosStore) (id : String) (base : Option Edge) (options : List ChoiceOption)
      → All IsOption options
      → is_edge base ≡ true
      → Holds sha3 store.table (choice_content sha3 id base options)
      → Holds sha3 store.table (pointer_content sha3 none base)
      → All (HoldsOption store.table) options
      → (sorted : List ChoiceOption) × Perm options sorted
        × IsSorted sha3 sorted
        × (read_choice sha3 store (hash_content sha3 (choice_content sha3 id base options))
            ≡ ok (record {
              default_name = nth_peer 0 sorted;
              cid = hash_content sha3 (choice_content sha3 id base options);
              id = id;
              base = base;
              options = sorted;
            }))
  unfolding read_choice content read_options
  read_choice-choice_content store id base options n e h b k =
      let sorted = sort_options sha3 options in
      (
        sorted,
        sort_options-Perm sha3 options,
        sort_options-IsSorted sha3 options,
        ground (
          arith,
          choice_content-alias id base options,
          choice_content-index id base options sorted,
          h,
          ==_refl (primitive_cid sha3 "base"),
          read_pointer-base sha3 d store base e b,
          sort_options-map sha3 options,
          read_options_lem store base sorted [] (All-sort_options sha3 IsOption options n)
              (All-sort_options sha3 (HoldsOption store.table) options k),
        ),
      )

  -- No other node stands in the table under the id of the content.
  abbrev pub HasOwnId : Table → NodeContent → Type 0
  HasOwnId table v = (w : NodeContent) → lookup (hash_content sha3 v) table ≡ some w → w ≡ v

  -- None stands there under the ids of an option's nodes.
  pub record HasOwnIds (table : Table) (o : ChoiceOption) : Type 0 where
    pub option : HasOwnId table (option_content sha3 o)
    pub base : (e : Edge) → o.base ≡ some e → HasOwnId table (pointer_content sha3 none (some e))

  own-Holds :
      (table : Table) (v : NodeContent)
      → has_key (hash_content sha3 v) table ≡ true
      → HasOwnId table v
      → Holds sha3 table v
  own-Holds table v h own = elim (Option-cases (lookup (hash_content sha3 v) table)) [
    | inl missing ↦ absurd (ground arith)
    | inr (w, found) ↦ found ∙ ap some (own w found)
  ]

  own-HoldsOption :
      (table : Table) (options : List ChoiceOption)
      → All (HasNodes sha3 table) options
      → All (HasOwnIds table) options
      → All (HoldsOption table) options
  own-HoldsOption table [] h own = tt
  own-HoldsOption table (o ∷ options) h own = (
    record {
      option = own-Holds table (option_content sha3 o) h.0.option own.0.option;
      base = λ e q.
          own-Holds table (pointer_content sha3 none (some e))
            (subst (λ b. has_base sha3 table b ≡ true) q h.0.base) (own.0.base e q);
    },
    own-HoldsOption table options h.1 own.1,
  )

  -- When `putChoice` has returned on a well-formed store that holds the primitives and what the options
  -- name, and the store has no other node under the ids of the nodes that were put, `readChoice` of the
  -- id that it returned gives back the identity, the base and all options, in the order of the ids of
  -- their nodes; the first of them is the default. The ids of the primitives are different, and the
  -- options have a peer and edges with two ends.
  pub read_choice-put_choice :
      (store : FosStore) (id : String) (base : Option Edge) (options : List ChoiceOption)
      (cid : String) (next : FosStore)
      → IsWellFormed sha3 store.table
      → HasPrimitives sha3 store.table
      → has_ends store.table base ≡ true
      → All (Known store.table) options
      → All IsOption options
      → is_edge base ≡ true
      → put_choice sha3 store id base options ≡ ok (cid, next)
      → HasOwnId next.table (choice_content sha3 id base options)
      → HasOwnId next.table (pointer_content sha3 none base)
      → All (HasOwnIds next.table) options
      → (sorted : List ChoiceOption) × Perm options sorted
        × IsSorted sha3 sorted
        × (read_choice sha3 next cid
            ≡ ok (record {
              default_name = nth_peer 0 sorted;
              cid = cid;
              id = id;
              base = base;
              options = sorted;
            }))
  read_choice-put_choice store id base options cid next w p h x n e put own own_base own_options =
      let (made, returned, g, k, l, c) = put_choice_lem sha3 store id base options w p h x in
      let same = ok-inj (sym returned ∙ put) in
      let kept : (made ≡ next) = ap (λ r. r.1) same in
      let choice =
        own-Holds next.table (choice_content sha3 id base options)
          (subst
            (λ s. has_key (hash_content sha3 (choice_content sha3 id base options)) s.table ≡ true)
            kept k)
          own in
      let pointer =
        own-Holds next.table (pointer_content sha3 none base)
          (subst (λ s. has_key (hash_content sha3 (pointer_content sha3 none base)) s.table ≡ true)
            kept l)
          own_base in
      let nodes = subst (λ s. All (HasNodes sha3 s.table) options) kept c in
      let (sorted, perm, order, read) =
        read_choice-choice_content next id base options n e choice pointer
          (own-HoldsOption next.table options nodes own_options) in
      (
        sorted,
        perm,
        order,
        subst
            (λ c.
              read_choice sha3 next c
              ≡ ok (record {
                default_name = nth_peer 0 sorted;
                cid = c;
                id = id;
                base = base;
                options = sorted;
              }))
            (ap (λ r. r.0) same) read,
      )
