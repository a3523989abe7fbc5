-- ===== src/Graph/Edges/Laws.antt =====
-- `replaceEdge` against `findEdge`.
use fos_mono.Common.{
  String, Bool, Bool-cases, true, false, List, [], ◌∷◌, ◌++◌, Option, none, some, ◌==◌, ◌≡◌, refl,
  inl, inr, arith, ==_refl, if◌then◌else◌,
}
use fos_mono.Node.{Fields, Edge, NodeContent}
use fos_mono.Store.{FosStore, ok, ◌>>=◌}
use fos_mono.Graph.Branch.{Branches}
use fos_mono.Graph.Edges.{edge_key, find_by_key, find_edge, replace_by_key, replace_edge, edge_list}

module _ (sha3 : Fields × List Edge → String) (b : Branches) where
  -- Every edge has a key: the nodes that keys are read from are in the store.
  abbrev pub HasKey : FosStore → Edge → Type 0
  HasKey store e = (k : String) × (edge_key sha3 b store e ≡ ok k)

  abbrev pub HasKeys : FosStore → List Edge → Type 0
  HasKeys store [] = Unit
  HasKeys store (e ∷ edges) = HasKey store e × HasKeys store edges

  -- An edge that is put in place of a key has this key.
  abbrev pub IsKeyed : FosStore → String → Option Edge → Type 0
  IsKeyed store key none = Unit
  IsKeyed store key (some e) = edge_key sha3 b store e ≡ ok key

  record Replaced (store : FosStore) (key : String) (edge : Option Edge) (edges out : List Edge)
      (found : Bool) : Type 0 where
    keys : HasKeys store out
    same : find_by_key sha3 b store key out ≡ ok (if found then edge else none)
    other :
        (j : String)
        → (key == j) ≡ false
        → find_by_key sha3 b store j out ≡ find_by_key sha3 b store j edges

  find-append :
      (store : FosStore) (j : String) (xs ys : List Edge)
      → HasKeys store xs
      → find_by_key sha3 b store j (xs ++ ys) ≡ (
          find_by_key sha3 b store j xs >>= λ r. elim r [
            | some f ↦ ok (some f)
            | none ↦ find_by_key sha3 b store j ys
          ])
  unfolding find_by_key
  find-append store j [] ys h = refl
  find-append store j (x ∷ xs) ys h =
      let (l, m) = h.0 in ground (arith, m, find-append store j xs ys h.1)

  find-edge_list :
      (store : FosStore) (key j : String) (edge : Option Edge)
      → IsKeyed store key edge
      → find_by_key sha3 b store j (edge_list edge) ≡ ok (if key == j then edge else none)
  unfolding find_by_key
  find-edge_list store key j none q = ground arith
  find-edge_list store key j (some e) q = ground (arith, q)

  edge_list-keys :
      (store : FosStore) (key : String) (edge : Option Edge) (rest : List Edge)
      → IsKeyed store key edge
      → HasKeys store rest
      → HasKeys store (edge_list edge ++ rest)
  edge_list-keys store key none rest q h = h
  edge_list-keys store key (some e) rest q h = ((key, q), h)

  find-front :
      (store : FosStore) (key j : String) (edge : Option Edge) (rest : List Edge)
      → IsKeyed store key edge
      → find_by_key sha3 b store j (edge_list edge ++ rest)
        ≡ (elim (if key == j then edge else none) [
          | some f ↦ ok (some f)
          | none ↦ find_by_key sha3 b store j rest
        ])
  unfolding find_by_key
  find-front store key j none rest q = ground arith
  find-front store key j (some e) rest q = ground (arith, q)

  Replaced-here :
      (store : FosStore) (key : String) (edge : Option Edge) (e : Edge) (edges rest : List Edge)
      (found : Bool)
      → IsKeyed store key edge
      → edge_key sha3 b store e ≡ ok key
      → Replaced store key edge edges rest found
      → Replaced store key edge (e ∷ edges) (edge_list edge ++ rest) true
  unfolding find_by_key
  Replaced-here store key edge e edges rest found q k x = record {
    keys = edge_list-keys store key edge rest q x.keys;
    same = ground (arith, find-front store key key edge rest q, ==_refl key, x.same);
    other = λ j n. ground (arith, find-front store key j edge rest q, x.other j n, k);
  }

  Replaced-there :
      (store : FosStore) (key l : String) (edge : Option Edge) (e : Edge) (edges rest : List Edge)
      (found : Bool)
      → edge_key sha3 b store e ≡ ok l
      → (l == key) ≡ false
      → Replaced store key edge edges rest found
      → Replaced store key edge (e ∷ edges) (e ∷ rest) found
  unfolding find_by_key
  Replaced-there store key l edge e edges rest found k n x = record {
    keys = ((l, k), x.keys);
    same = ground (arith, k, n, x.same);
    other = λ j m. ground (arith, k, x.other j m);
  }

  replace_by_key-Replaced :
      (store : FosStore) (key : String) (edge : Option Edge) (edges : List Edge)
      → IsKeyed store key edge
      → HasKeys store edges
      → (out : List Edge) × (found : Bool) × (replace_by_key sha3 b store key edge edges
          ≡ ok (out, found))
        × Replaced store key edge edges out found
  unfolding replace_by_key find_by_key
  replace_by_key-Replaced store key edge [] q h =
      ([], false, refl, record { keys = tt; same = refl; other = λ j n. refl })
  replace_by_key-Replaced store key edge (e ∷ edges) q h =
      let (l, k) = h.0 in
      let (rest, found, eq, x) = replace_by_key-Replaced store key edge edges q h.1 in
      elim (Bool-cases (l == key)) [
        | inl s ↦ (
          edge_list edge ++ rest,
          true,
          ground (arith, k, eq),
          Replaced-here store key edge e edges rest found q (ground (arith, k)) x,
        )
        | inr n ↦ (
          e ∷ rest,
          found,
          ground (arith, k, eq),
          Replaced-there store key l edge e edges rest found k n x,
        )
      ]

  -- `replaceEdge` of a key is an update of the edges as a map: when every edge of the node has a key,
  -- and the edge that is put has the given one, looking that key up afterwards gives this edge, or
  -- nothing when the edge is removed, and looking any other key up gives what it gave before.
  pub replace_edge-find_edge :
      (store : FosStore) (value : NodeContent) (key : String) (edge : Option Edge)
      → HasKeys store value.children
      → IsKeyed store key edge
      → (next : NodeContent) × (replace_edge sha3 b store value key edge ≡ ok next)
        × (find_edge sha3 b store next key ≡ ok edge)
        × ((j : String)
            → (key == j) ≡ false
            → find_edge sha3 b store next j ≡ find_edge sha3 b store value j)
  unfolding replace_edge find_edge
  replace_edge-find_edge store value key edge h q =
      let (out, found, eq, x) = replace_by_key-Replaced store key edge value.children q h in
      elim (Bool-cases found) [
        | inl f ↦ (
          record value { children = out },
          ground (arith, eq, f),
          ground (arith, x.same, f),
          x.other,
        )
        | inr f ↦ (
          record value { children = out ++ edge_list edge },
          ground (arith, eq, f),
          ground (
            arith,
            find-append store key out (edge_list edge) x.keys,
            find-edge_list store key key edge q,
            ==_refl key,
            x.same,
            f,
          ),
          λ j n. ground (
            arith,
            find-append store j out (edge_list edge) x.keys,
            find-edge_list store key j edge q,
            x.other j n,
            n,
          ),
        )
      ]
