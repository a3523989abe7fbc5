-- ===== src/Merge/Conflict.antt =====
-- When `mergeData` finds a conflict, and that a clean merge does not depend on which side is ours.
use fos_mono.Common.{
  String, Bool, true, false, List, [], ◌∷◌, Option, none, some, ◌≡◌, ◌≢◌, refl, ◌⊎◌, inl, inr, ◌↔◌,
  arith, lookup, Option-cases, sym, ◌∙◌,
}
use fos_mono.Node.{Json, Data}
use fos_mono.Merge.{
  Merged, keep, conflict, assign, merge_field, merge_fields, merge_data, same_value,
}
use fos_mono.Merge.Rule.{rule, merge_data-rule}

-- All three sides differ under a key other than `updated`.
abbrev pub Clashes : Data → Data → Data → String → Type 0
Clashes base ours theirs k =
    (k ≢ "updated")
    × (same_value (lookup k ours) (lookup k theirs) ≡ false)
    × (same_value (lookup k base) (lookup k ours) ≡ false)
    × (same_value (lookup k base) (lookup k theirs) ≡ false)

merge_field-eq-conflict :
    (theirs_wins : Bool) (k : String) (b o t : Option Json)
    → merge_field theirs_wins k b o t ≡ conflict
    → (theirs_wins ≡ false)
      × (k ≢ "updated")
      × (same_value o t ≡ false)
      × (same_value b o ≡ false)
      × (same_value b t ≡ false)
unfolding merge_field
merge_field-eq-conflict theirs_wins k b o t h = ground arith

merge_field-clash :
    (k : String) (b o t : Option Json)
    → k ≢ "updated"
    → same_value o t ≡ false
    → same_value b o ≡ false
    → same_value b t ≡ false
    → merge_field false k b o t ≡ conflict
unfolding merge_field
merge_field-clash k b o t h p q r = ground arith

Merged-cases : (m : Merged) → ((v : Option Json) × (m ≡ keep v)) ⊎ (m ≡ conflict)
Merged-cases (keep v) = inl (v, refl)
Merged-cases conflict = inr refl

merge_fields-eq-none :
    (theirs_wins : Bool) (base ours theirs : Data) (ks : List String) (out : Data)
    → merge_fields theirs_wins base ours theirs out ks ≡ none
    → (k : String) × (rule theirs_wins base ours theirs k ≡ conflict)
unfolding merge_fields
merge_fields-eq-none w base ours theirs [] out e = absurd (ground arith)
merge_fields-eq-none w base ours theirs (j ∷ ks) out e =
    elim (Merged-cases (rule w base ours theirs j)) [
      | inl (v, r) ↦
          merge_fields-eq-none w base ours theirs ks (assign j v out) (rw (r, merge_fields) at e)
      | inr r ↦ (j, r)
    ]

-- `mergeData` returns null exactly when the other side does not win and some key other than
-- `updated` has three values of which no two are the same.
pub merge_data-eq-none_iff :
    (base ours theirs : Data) (theirs_wins : Bool)
    → (merge_data base ours theirs theirs_wins ≡ none)
      ↔ ((theirs_wins ≡ false) × ((k : String) × Clashes base ours theirs k))
unfolding merge_data
merge_data-eq-none_iff base ours theirs theirs_wins = (to, from)
  where
    to :
        merge_data base ours theirs theirs_wins ≡ none
        → (theirs_wins ≡ false) × ((k : String) × Clashes base ours theirs k)
    to e =
        let (k, r) = merge_fields-eq-none theirs_wins base ours theirs _ [] e in
        let (w, rest) : (theirs_wins ≡ false) × Clashes base ours theirs k =
          (let c = merge_field-eq-conflict theirs_wins k _ _ _ r in (c.0, (c.1, c.2, c.3, c.4))) in
        (w, (k, rest))

    from :
        (theirs_wins ≡ false) × ((k : String) × Clashes base ours theirs k)
        → merge_data base ours theirs theirs_wins ≡ none
    from (w, (k, (n, p, q, r))) = elim (Option-cases (merge_data base ours theirs theirs_wins)) [
      | inl e ↦ e
      | inr (d, e) ↦ absurd (
          ground (
            arith,
            w,
            merge_field-clash k (lookup k base) (lookup k ours) (lookup k theirs) n p q r,
            merge_data-rule base ours theirs theirs_wins {d = d} k e,
          ))
    ]

abbrev kept_by : Merged → Option Json
kept_by (keep v) = v
kept_by conflict = none

same_value_refl : (v : Option Json) → same_value v v ≡ true
unfolding same_value
same_value_refl none = refl
same_value_refl (some v) = ground arith

same_value_symm : (v w : Option Json) → same_value v w ≡ same_value w v
unfolding same_value
same_value_symm none none = refl
same_value_symm none (some w) = refl
same_value_symm (some v) none = refl
same_value_symm (some v) (some w) = ground arith

same_value_trans :
    (u v w : Option Json) → same_value u v ≡ true → same_value v w ≡ true → same_value u w ≡ true
unfolding same_value
same_value_trans none none w p q = q
same_value_trans none (some v) w p q = cc
same_value_trans (some u) none w p q = cc
same_value_trans (some u) (some v) none p q = q
same_value_trans (some u) (some v) (some w) p q = ground arith

-- Whichever side is called ours, a merge in which neither side wins keeps values that are the same.
merge_field_symm :
    (k : String) (b o t v : Option Json)
    → merge_field false k b o t ≡ keep v
    → (merge_field false k b t o ≡ keep (kept_by (merge_field false k b t o)))
      × (same_value v (kept_by (merge_field false k b t o)) ≡ true)
unfolding merge_field
merge_field_symm k b o t v h =
    ground
      (arith, same_value_refl v, same_value_symm o t, same_value_trans o b t, same_value_symm b o)

kept_by-keep : (m : Merged) {v w : Option Json} → m ≡ keep v → m ≡ keep w → v ≡ w
kept_by-keep m p q = ground arith

-- If neither side wins and the merge finds no conflict, then with the two sides exchanged it finds
-- none either, and both results hold the same value under every key.
pub merge_data_symm :
    (base ours theirs : Data) (d : Data)
    → merge_data base ours theirs false ≡ some d
    → (e : Data) × (merge_data base theirs ours false ≡ some e)
      × ((k : String) → same_value (lookup k d) (lookup k e) ≡ true)
merge_data_symm base ours theirs d h = elim (Option-cases (merge_data base theirs ours false)) [
  | inl c ↦
      let (_, (k, (n, p, q, r))) = (merge_data-eq-none_iff base theirs ours false).0 c in
      let clash : merge_data base ours theirs false ≡ none =
        (merge_data-eq-none_iff base ours theirs false).1
          (refl, (k, (n, sym (same_value_symm (lookup k theirs) (lookup k ours)) ∙ p, r, q))) in
      absurd (ground arith)
  | inr (e, g) ↦ (
    e,
    g,
    λ k.
        let (kept, same) =
          merge_field_symm k (lookup k base) (lookup k ours) (lookup k theirs) (lookup k d)
            (merge_data-rule base ours theirs false k h) in
        rw
          (kept_by-keep (merge_field false k (lookup k base) (lookup k theirs) (lookup k ours)) kept
            (merge_data-rule base theirs ours false k g))
          at same,
  )
]
