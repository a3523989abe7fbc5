-- ===== src/Merge/Index.antt =====
-- The edges of a node by key, and those at some keys in order.
use mathlib.Core.List.{Sublist, Sublistᴰ}
use mathlib.Core.Logic.{∥∥₁_elim}
use mathlib.Core.HLevel.{hedberg}
use fos_mono.Common.{
  String, true, false, List, [], ◌∷◌, ◌++◌, none, ◌==◌, ==_refl, String_discrete, ◌≡◌, refl, ◌∙◌,
  arith, contains, lookup, has_key, keys, HasDistinctKeys,
}
use fos_mono.Node.{Edge}
use fos_mono.Merge.Order.{IsDistinct}
use fos_mono.Merge.Children.{push_edge}

abbrev pub EdgeIndex : Type 0
EdgeIndex = List (String × Edge)

-- The edges of an index, and those at some keys.
abbrev pub edges_of : EdgeIndex → List Edge
edges_of [] = []
edges_of ((k, e) ∷ m) = e ∷ edges_of m

abbrev pub edges_at : EdgeIndex → List String → List Edge
edges_at m [] = []
edges_at m (k ∷ ks) = push_edge (lookup k m) [] ++ edges_at m ks

contains-Sublistᴰ :
    (k : String) {xs ys : List String}
    → Sublistᴰ xs ys
    → contains k ys ≡ false
    → contains k xs ≡ false
contains-Sublistᴰ k Sublistᴰ.slnil h = refl
contains-Sublistᴰ k (Sublistᴰ.cons s) h = contains-Sublistᴰ k s (ground arith)
contains-Sublistᴰ k (Sublistᴰ.cons-cons e s) h =
    ground (arith, e, contains-Sublistᴰ k s (ground arith))

-- The keys that are left out have no edge.
abbrev Idle : EdgeIndex → List String → List String → Type 0
Idle m xs ys = (k : String) → contains k ys ≡ true → contains k xs ≡ false → lookup k m ≡ none

edges_at-Sublistᴰ :
    (m : EdgeIndex) {xs ys : List String}
    → Sublistᴰ xs ys
    → IsDistinct ys
    → Idle m xs ys
    → edges_at m ys ≡ edges_at m xs
edges_at-Sublistᴰ m Sublistᴰ.slnil d f = refl
edges_at-Sublistᴰ m {xs} {ys} (Sublistᴰ.cons {a = a} s) d f =
    let rest = edges_at-Sublistᴰ m s d.1 (λ k x y. f k (ground arith) y) in
    let gone = f a (ground (arith, ==_refl a)) (contains-Sublistᴰ a s d.0) in rw gone rest
edges_at-Sublistᴰ m (Sublistᴰ.cons-cons {a = a} {b = b} e s) d f =
    let rest = edges_at-Sublistᴰ m s d.1 (λ k x y. f k (ground arith) (ground (arith, d.0, e))) in
    ground (arith, e, rest)

edges_discrete : Discrete (List Edge)
edges_discrete = hlevel String_discrete

pub edges_at-Sublist :
    (m : EdgeIndex) (xs ys : List String)
    → Sublist xs ys
    → IsDistinct ys
    → Idle m xs ys
    → edges_at m ys ≡ edges_at m xs
edges_at-Sublist m xs ys s d f =
    ∥∥₁_elim s (hedberg edges_discrete _ _) (λ t. edges_at-Sublistᴰ m t d f)

pub contains-keys : (k : String) (m : EdgeIndex) → contains k (keys m) ≡ has_key k m
contains-keys k [] = refl
contains-keys k ((j, e) ∷ m) = ground (arith, contains-keys k m)

pub keys-IsDistinct : (m : EdgeIndex) → HasDistinctKeys m → IsDistinct (keys m)
keys-IsDistinct [] d = tt
keys-IsDistinct ((k, e) ∷ m) d = (contains-keys k m ∙ d.0, keys-IsDistinct m d.1)

-- An entry of another key in front does not change what stands at the keys.
edges_at-cons :
    (k : String) (e : Edge) (m : EdgeIndex) (ks : List String)
    → contains k ks ≡ false
    → edges_at ((k, e) ∷ m) ks ≡ edges_at m ks
edges_at-cons k e m [] h = refl
edges_at-cons k e m (j ∷ ks) h =
    let other : (k == j) ≡ false = ground arith in
    let rest = edges_at-cons k e m ks (ground arith) in ground (arith, other, rest)

pub edges_at-keys : (m : EdgeIndex) → HasDistinctKeys m → edges_at m (keys m) ≡ edges_of m
edges_at-keys [] d = refl
edges_at-keys ((k, e) ∷ m) d =
    ground (
      arith,
      ==_refl k,
      edges_at-cons k e m (keys m) (contains-keys k m ∙ d.0),
      edges_at-keys m d.1,
    )

pub none-lookup : (k : String) (m : EdgeIndex) → contains k (keys m) ≡ false → lookup k m ≡ none
none-lookup k m h = ground (arith, contains-keys k m)
