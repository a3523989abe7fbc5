-- ===== src/Merge/Order.antt =====
-- `orderedKeys`: the keys of all sides, each once, with ours in their order.
use mathlib.Core.List.Sublist
use mathlib.Core.List.{Sublist, sublist-append_left, nil-sublist}
use fos_mono.Common.{
  ℕ, zero, suc, String, Bool-cases, false, List, [], ◌∷◌, ◌++◌, ◌≡◌, refl, ◌∙◌, ap, inl, inr, arith,
  ◌==◌, ◌||◌, contains, contains-append, if◌then◌else◌,
}
use fos_mono.Merge.{insert_at, place, Ordered, add_key, add_theirs, add_base, ordered_keys}

-- No key stands twice.
abbrev pub IsDistinct : List String → Type 0
IsDistinct [] = Unit {0}
IsDistinct (x ∷ xs) = (contains x xs ≡ false) × IsDistinct xs

contains-insert_at :
    (n : ℕ) (key k : String) (xs : List String)
    → contains k (insert_at n key xs) ≡ (key == k || contains k xs)
unfolding insert_at
contains-insert_at zero key k xs = refl
contains-insert_at (suc n) key k [] = refl
contains-insert_at (suc n) key k (x ∷ xs) = ground (arith, contains-insert_at n key k xs)

insert_at-IsDistinct :
    (n : ℕ) (key : String) (xs : List String)
    → contains key xs ≡ false
    → IsDistinct xs
    → IsDistinct (insert_at n key xs)
unfolding insert_at
insert_at-IsDistinct zero key xs h d = (h, d)
insert_at-IsDistinct (suc n) key [] h d = (refl, tt)
insert_at-IsDistinct (suc n) key (x ∷ xs) h d = (
  ground (arith, contains-insert_at n key x xs),
  insert_at-IsDistinct n key xs (ground arith) d.1,
)

append-IsDistinct :
    (key : String) (xs : List String)
    → contains key xs ≡ false
    → IsDistinct xs
    → IsDistinct (xs ++ (key ∷ []))
append-IsDistinct key [] h d = (refl, tt)
append-IsDistinct key (x ∷ xs) h d =
    (ground (arith, contains-append x xs (key ∷ [])), append-IsDistinct key xs (ground arith) d.1)

insert_at-sublist : (n : ℕ) (key : String) (xs : List String) → Sublist xs (insert_at n key xs)
unfolding insert_at
insert_at-sublist zero key xs = Sublist.cons key (Sublist.refl xs)
insert_at-sublist (suc n) key [] = nil-sublist _
insert_at-sublist (suc n) key (x ∷ xs) = Sublist.cons-cons x (insert_at-sublist n key xs)

-- What the loops keep: both lists hold the same keys, none twice, and `ours` in its order.
record IsOrdered (ours : List String) (s : Ordered) : Type 0 where
  agree : (k : String) → contains k s.present ≡ contains k s.out
  distinct : IsDistinct s.out
  backbone : Sublist ours s.out

add_key-contains :
    (before : List String) (key : String) (after : List String) (s : Ordered) (k : String)
    → contains key s.present ≡ contains key s.out
    → contains k (add_key before key after s).out ≡ (key == k || contains k s.out)
unfolding add_key
add_key-contains before key after s k h =
    ground (arith, contains-insert_at (place before after s.out) key k s.out)

add_key-IsOrdered :
    (ours before : List String) (key : String) (after : List String) (s : Ordered)
    → IsOrdered ours s
    → IsOrdered ours (add_key before key after s)
unfolding add_key
add_key-IsOrdered ours before key after s o = elim (Bool-cases (contains key s.present)) [
  | inl old ↦ rw (old, add_key) o
  | inr new ↦
      rw (new, add_key)
        (record {
          agree = λ k.
              ground (arith, o.agree k, contains-insert_at (place before after s.out) key k s.out);
          distinct = insert_at-IsDistinct _ key s.out (ground (arith, o.agree key)) o.distinct;
          backbone = Sublist.trans o.backbone (insert_at-sublist _ key s.out);
        })
]

abbrev add_last : String → Ordered → Ordered
add_last key s =
    if contains key s.present
    then s
    else record { out = s.out ++ (key ∷ []); present = key ∷ s.present }

add_last-IsOrdered :
    (ours : List String) (key : String) (s : Ordered)
    → IsOrdered ours s
    → IsOrdered ours (add_last key s)
add_last-IsOrdered ours key s o = elim (Bool-cases (contains key s.present)) [
  | inl old ↦ rw old o
  | inr new ↦ rw new (record {
    agree = λ k. ground (arith, o.agree k, contains-append k s.out (key ∷ []));
    distinct = append-IsDistinct key s.out (ground (arith, o.agree key)) o.distinct;
    backbone = Sublist.trans o.backbone (sublist-append_left s.out (key ∷ []));
  })
]

add_last-contains :
    (key : String) (s : Ordered) (k : String)
    → contains key s.present ≡ contains key s.out
    → contains k (add_last key s).out ≡ (key == k || contains k s.out)
add_last-contains key s k h = ground (arith, contains-append k s.out (key ∷ []))

add_theirs-IsOrdered :
    (ours before theirs : List String) (s : Ordered)
    → IsOrdered ours s
    → IsOrdered ours (add_theirs before theirs s)
unfolding add_theirs
add_theirs-IsOrdered ours before [] s o = o
add_theirs-IsOrdered ours before (key ∷ after) s o =
    add_theirs-IsOrdered ours (key ∷ before) after (add_key before key after s)
      (add_key-IsOrdered ours before key after s o)

add_theirs-contains :
    (ours before theirs : List String) (s : Ordered) (k : String)
    → IsOrdered ours s
    → contains k (add_theirs before theirs s).out ≡ (contains k theirs || contains k s.out)
unfolding add_theirs
add_theirs-contains ours before [] s k o = refl
add_theirs-contains ours before (key ∷ after) s k o = ground (
  arith,
  add_theirs-contains ours (key ∷ before) after (add_key before key after s) k
      (add_key-IsOrdered ours before key after s o),
  add_key-contains before key after s k (o.agree key),
)

add_base-IsOrdered :
    (ours base : List String) (s : Ordered) → IsOrdered ours s → IsOrdered ours (add_base base s)
unfolding add_base
add_base-IsOrdered ours [] s o = o
add_base-IsOrdered ours (key ∷ base) s o =
    add_base-IsOrdered ours base (add_last key s) (add_last-IsOrdered ours key s o)

add_base-contains :
    (ours base : List String) (s : Ordered) (k : String)
    → IsOrdered ours s
    → contains k (add_base base s).out ≡ (contains k base || contains k s.out)
unfolding add_base
add_base-contains ours [] s k o = refl
add_base-contains ours (key ∷ base) s k o = ground (
  arith,
  add_base-contains ours base (add_last key s) k (add_last-IsOrdered ours key s o),
  add_last-contains key s k (o.agree key),
)

abbrev mine : List String → Ordered
mine ours = record { out = ours; present = ours }

mine-IsOrdered : (ours : List String) → IsDistinct ours → IsOrdered ours (mine ours)
mine-IsOrdered ours d = record { agree = λ k. refl; distinct = d; backbone = Sublist.refl ours }

-- If no key of ours stands twice, the merged order has ours as a sublist, no key twice, and the keys
-- of ours, theirs and the base and no others.
pub ordered_keys_lem :
    (ours theirs base : List String)
    → IsDistinct ours
    → Sublist ours (ordered_keys ours theirs base)
      × IsDistinct (ordered_keys ours theirs base)
      × ((k : String)
          → contains k (ordered_keys ours theirs base)
            ≡ (contains k base || (contains k theirs || contains k ours)))
unfolding ordered_keys
ordered_keys_lem ours theirs base d =
    let start = mine-IsOrdered ours d in
    let both = add_theirs-IsOrdered ours [] theirs (mine ours) start in
    let all = add_base-IsOrdered ours base (add_theirs [] theirs (mine ours)) both in
    (
      all.backbone,
      all.distinct,
      λ k.
          add_base-contains ours base (add_theirs [] theirs (mine ours)) k both
          ∙ ap (λ b. contains k base || b) (add_theirs-contains ours [] theirs (mine ours) k start),
    )
