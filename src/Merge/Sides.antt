-- ===== src/Merge/Sides.antt =====
-- A change of one side only is taken as it is.
use fos_mono.Common.{
  String, Bool-cases, true, false, List, [], ◌∷◌, ◌++◌, Option, none, some, ==_refl, ◌≡◌, refl, sym,
  subst, ◌∙◌, inl, inr, arith, append-nil, append_assoc, ◌||◌, contains, lookup, has_key, set_key,
  keys, HasDistinctKeys, set_key-HasDistinctKeys,
}
use fos_mono.Node.{Fields, Edge}
use fos_mono.Store.{FosStore, ok, Result-cases}
use fos_mono.Graph.Edges.{edge_key}
use fos_mono.Graph.Link.{Host}
use fos_mono.Merge.{same_edge, ordered_keys}
use fos_mono.Merge.Order.{IsDistinct, ordered_keys_lem}
use fos_mono.Merge.Children.{
  Labels, Merging, Merger, push_edge, index_edges, merge_keys, merge_children,
}
use fos_mono.Merge.Index.{
  EdgeIndex, edges_of, edges_at, edges_at-Sublist, contains-keys, keys-IsDistinct, edges_at-keys,
  none-lookup,
}

same_edge-eq : (o t : Option Edge) → same_edge o t ≡ true → o ≡ t
unfolding same_edge
same_edge-eq none none h = refl
same_edge-eq none (some e) h = absurd (ground arith)
same_edge-eq (some e) none h = absurd (ground arith)
same_edge-eq (some (i, t)) (some (j, u)) h = ground arith

same_edge_refl : (o : Option Edge) → same_edge o o ≡ true
unfolding same_edge
same_edge_refl none = refl
same_edge_refl (some (i, t)) = ground (arith, ==_refl i, ==_refl t)

push_edge-append :
    (e : Option Edge) (out rest : List Edge)
    → push_edge e out ++ rest ≡ out ++ (push_edge e [] ++ rest)
push_edge-append none out rest = refl
push_edge-append (some e) out rest = append_assoc out (e ∷ []) rest

true-false : true ≡ false → ⊥
true-false e = cc

base_edge-same : (b o : Option Edge) → o ≡ b → same_edge b o ≡ true
base_edge-same b o e = rw e (same_edge_refl b)

-- Where the other side is the base, the first test or the third one finds it.
unchanged_theirs :
    (b o t : Option Edge)
    → t ≡ b
    → same_edge o t ≡ false
    → (same_edge b o ≡ false) × (same_edge b t ≡ true)
unchanged_theirs b o t e n =
    let same : same_edge b t ≡ true = rw e (same_edge_refl b) in
    elim (Bool-cases (same_edge b o)) [
      | inr k ↦ (k, same)
      | inl k ↦
          let eq : o ≡ t = sym (same_edge-eq b o k) ∙ sym e in
          absurd (true-false (sym (same_edge_refl t) ∙ (rw eq at n)))
    ]

module _ (sha3 : Fields × List Edge → String) (h : Host) (merge : Merger) (labels : Labels) where
  -- The other side is the base: ours is taken at every key.
  merge_keys-ours :
      (bs os ts : EdgeIndex) (ks : List String) (out : List Edge) (m : Merging)
      → ((k : String) → lookup k ts ≡ lookup k bs)
      → merge_keys sha3 h merge labels bs os ts ks out m ≡ ok (some (out ++ edges_at os ks), m)
  unfolding merge_keys
  merge_keys-ours bs os ts [] out m s = ground (arith, append-nil out)
  merge_keys-ours bs os ts (k ∷ ks) out m s =
      let next = merge_keys-ours bs os ts ks (push_edge (lookup k os) out) m s in
      let moved = push_edge-append (lookup k os) out (edges_at os ks) in
      elim (Bool-cases (same_edge (lookup k os) (lookup k ts))) [
        | inl e ↦ ground (arith, e, next, moved)
        | inr n ↦
            let (x, y) = unchanged_theirs (lookup k bs) (lookup k os) (lookup k ts) (s k) n in
            ground (arith, n, x, y, next, moved)
      ]

  merge_keys-theirs :
      (bs os ts : EdgeIndex) (ks : List String) (out : List Edge) (m : Merging)
      → ((k : String) → lookup k os ≡ lookup k bs)
      → merge_keys sha3 h merge labels bs os ts ks out m ≡ ok (some (out ++ edges_at ts ks), m)
  unfolding merge_keys
  merge_keys-theirs bs os ts [] out m s = ground (arith, append-nil out)
  merge_keys-theirs bs os ts (k ∷ ks) out m s =
      let next = merge_keys-theirs bs os ts ks (push_edge (lookup k ts) out) m s in
      let moved = push_edge-append (lookup k ts) out (edges_at ts ks) in
      elim (Bool-cases (same_edge (lookup k os) (lookup k ts))) [
        | inl e ↦ ground (arith, e, same_edge-eq (lookup k os) (lookup k ts) e, next, moved)
        | inr n ↦ ground (arith, n, base_edge-same (lookup k bs) (lookup k os) (s k), next, moved)
      ]

module _ (sha3 : Fields × List Edge → String) (h : Host) where
  index_edges-HasDistinctKeys :
      (store : FosStore) (edges : List Edge) (m r : EdgeIndex)
      → index_edges sha3 h store edges m ≡ ok r
      → HasDistinctKeys m
      → HasDistinctKeys r
  unfolding index_edges
  index_edges-HasDistinctKeys store [] m r e d = subst HasDistinctKeys (ground arith) d
  index_edges-HasDistinctKeys store (x ∷ edges) m r e d =
      elim (Result-cases (edge_key sha3 h.branches store x)) [
        | inr (t, k) ↦ absurd (ground arith)
        | inl (key, k) ↦
            index_edges-HasDistinctKeys store edges (set_key key x m) r (ground arith)
              (set_key-HasDistinctKeys key x m d)
      ]

  -- A merge of children takes the changes of one side as they are, whatever merges two nodes: when
  -- theirs has the edges of the base, the result is ours, edge by edge and in order; no choice is made
  -- and the store is not touched. Edges of the same key in one node count once.
  pub merge_children-ours :
      (merge : Merger) (labels : Labels) (m : Merging) (base ours theirs : List Edge)
      (bs os ts : EdgeIndex)
      → index_edges sha3 h m.store base [] ≡ ok bs
      → index_edges sha3 h m.store ours [] ≡ ok os
      → index_edges sha3 h m.store theirs [] ≡ ok ts
      → ((k : String) → lookup k ts ≡ lookup k bs)
      → merge_children sha3 h merge labels m base ours theirs ≡ ok (some (edges_of os), m)
  unfolding merge_children
  merge_children-ours merge labels m base ours theirs bs os ts b o t s =
      let d = index_edges-HasDistinctKeys m.store ours [] os o tt in
      let (sub, distinct, _) =
        ordered_keys_lem (keys os) (keys ts) (keys bs) (keys-IsDistinct os d) in
      ground (
        arith,
        b,
        o,
        t,
        merge_keys-ours sha3 h merge labels bs os ts (ordered_keys (keys os) (keys ts) (keys bs)) []
            m s,
        edges_at-Sublist os (keys os) (ordered_keys (keys os) (keys ts) (keys bs)) sub distinct
            (λ k x y. none-lookup k os y),
        edges_at-keys os d,
      )

  -- When ours has the edges of the base, the result of a merge of children is theirs: the edges that
  -- theirs has at the merged order of keys, which has no key twice, all keys of ours and of theirs, and
  -- no key that none of the three sides has; no choice is made and the store is not touched.
  pub merge_children-theirs :
      (merge : Merger) (labels : Labels) (m : Merging) (base ours theirs : List Edge)
      (bs os ts : EdgeIndex)
      → index_edges sha3 h m.store base [] ≡ ok bs
      → index_edges sha3 h m.store ours [] ≡ ok os
      → index_edges sha3 h m.store theirs [] ≡ ok ts
      → ((k : String) → lookup k os ≡ lookup k bs)
      → (merge_children sha3 h merge labels m base ours theirs
          ≡ ok (some (edges_at ts (ordered_keys (keys os) (keys ts) (keys bs))), m))
        × IsDistinct (ordered_keys (keys os) (keys ts) (keys bs))
        × ((k : String)
            → contains k (ordered_keys (keys os) (keys ts) (keys bs))
              ≡ (has_key k os || (has_key k ts || has_key k bs)))
  unfolding merge_children
  merge_children-theirs merge labels m base ours theirs bs os ts b o t s =
      let d = index_edges-HasDistinctKeys m.store ours [] os o tt in
      let (_, distinct, all) =
        ordered_keys_lem (keys os) (keys ts) (keys bs) (keys-IsDistinct os d) in
      (
        ground (
          arith,
          b,
          o,
          t,
          merge_keys-theirs sha3 h merge labels bs os ts
              (ordered_keys (keys os) (keys ts) (keys bs)) [] m s,
        ),
        distinct,
        λ k. ground (arith, all k, contains-keys k os, contains-keys k ts, contains-keys k bs),
      )
