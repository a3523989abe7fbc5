-- ===== src/Work/Overlap.antt =====
-- Whether two claims overlap does not depend on which of them comes first.
use fos_mono.Common.{
  String, true, false, [], ◌∷◌, some, ◌≡◌, refl, arith, lookup, has_key, ◌==◌, HasDistinctKeys,
  ==_refl, Bool-cases, Option-cases, inl, inr,
}
use fos_mono.Work.{Selections, WorkClaim, differs, work_overlaps}

-- A choice with a branch on either side, not the same.
abbrev Differing : Selections → Selections → Type 0
Differing m n =
    (id : String) × (v : String) × (w : String) × (lookup id m ≡ some v)
    × (lookup id n ≡ some w)
    × ((w == v) ≡ false)

weaken :
    (id name : String) (m n : Selections)
    → has_key id m ≡ false
    → Differing m n
    → Differing ((id, name) ∷ m) n
weaken id name m n fresh (j, v, w, hm, hn, e) = elim (Bool-cases (id == j)) [
  | inl same ↦ absurd (ground arith)
  | inr other ↦ (j, v, w, rw other hm, hn, e)
]

differs-eq-true : (m n : Selections) → HasDistinctKeys m → differs m n ≡ true → Differing m n
unfolding differs
differs-eq-true [] n d h = cc
differs-eq-true ((id, name) ∷ m) n d h =
    let later : differs m n ≡ true → Differing ((id, name) ∷ m) n =
      λ k. weaken id name m n d.0 (differs-eq-true m n d.1 k) in
    elim (Option-cases (lookup id n)) [
      | inl absent ↦ later (rw absent at h)
      | inr (o, found) ↦ elim (Bool-cases (o == name)) [
        | inl same ↦ later (ground arith)
        | inr other ↦ (id, name, o, rw (==_refl id) refl, found, other)
      ]
    ]

Differing-differs :
    (m n : Selections) (id v w : String)
    → lookup id m ≡ some v
    → lookup id n ≡ some w
    → (w == v) ≡ false
    → differs m n ≡ true
unfolding differs
Differing-differs [] n id v w hm hn e = cc
Differing-differs ((j, name) ∷ m) n id v w hm hn e = elim (Bool-cases (j == id)) [
  | inl same ↦ ground arith
  | inr other ↦ ground (arith, Differing-differs m n id v w)
]

differs-imp : (m n : Selections) → HasDistinctKeys m → differs m n ≡ true → differs n m ≡ true
differs-imp m n d h =
    let (id, v, w, hm, hn, e) = differs-eq-true m n d h in
    Differing-differs n m id w v hn hm (ground arith)

differs_comm :
    (m n : Selections) → HasDistinctKeys m → HasDistinctKeys n → differs m n ≡ differs n m
differs_comm m n dm dn = ground (arith, differs-imp m n dm, differs-imp n m dn)

-- When the selected branches of two claims have a choice in one entry each, the first claim overlaps
-- the second one's path and branches exactly when the second overlaps the first one's.
pub work_overlaps_symm :
    (a b : WorkClaim)
    → HasDistinctKeys a.branches
    → HasDistinctKeys b.branches
    → work_overlaps a b.path b.branches ≡ work_overlaps b a.path a.branches
unfolding work_overlaps
work_overlaps_symm a b da db = rw (differs_comm a.branches b.branches da db) (ground arith)
