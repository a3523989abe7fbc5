-- ===== src/Merge/Rule.antt =====
-- `mergeData` key by key: the three-way rule.
use fos_mono.Common.{
  ℕ, ◌≤◌, max, ◌⊎◌, subst, ap, sym, ◌∙◌, String, Bool, Bool-cases, true, false, List, [], ◌∷◌, ◌++◌,
  Option, none, some, ◌≡◌, refl, inl, inr, arith, ◌==◌, contains, contains-append, lookup,
  lookup-set_key, keys, ◌||◌, if◌then◌else◌,
}
use fos_mono.Node.{Json, Data}
use fos_mono.Merge.{
  Merged, keep, conflict, assign, merge_field, merge_fields, distinct, merge_data, same_value,
  time_of, time_value,
}

lookup-assign :
    (key k : String) (v : Option Json) (out : Data)
    → lookup k (assign key v out)
      ≡ (if key == k then elim v [ none ↦ lookup k out | some w ↦ some w ] else lookup k out)
lookup-assign key k none out = ground arith
lookup-assign key k (some w) out = ground (arith, lookup-set_key key k w out)

-- A key that is in no list has no value.
lookup-eq-none_of_keys : (k : String) (d : Data) → contains k (keys d) ≡ false → lookup k d ≡ none
lookup-eq-none_of_keys k [] h = refl
lookup-eq-none_of_keys k ((j, v) ∷ d) h = ground (arith, lookup-eq-none_of_keys k d)

contains-distinct :
    (k : String) (seen ks : List String)
    → (contains k seen || contains k (distinct seen ks)) ≡ (contains k seen || contains k ks)
unfolding distinct
contains-distinct k seen [] = refl
contains-distinct k seen (j ∷ ks) =
    ground (arith, contains-distinct k seen ks, contains-distinct k (j ∷ seen) ks)

module _ (theirs_wins : Bool) (base ours theirs : Data) where
  abbrev pub rule : String → Merged
  rule k = merge_field theirs_wins k (lookup k base) (lookup k ours) (lookup k theirs)

  merge_fields-step :
      (j : String) (ks : List String) (out : Data) (d : Data)
      → merge_fields theirs_wins base ours theirs out (j ∷ ks) ≡ some d
      → (v : Option Json) × (rule j ≡ keep v)
        × (merge_fields theirs_wins base ours theirs (assign j v out) ks ≡ some d)
  unfolding merge_fields
  merge_fields-step j ks out d e = inspect (rule j) refl
    where
      inspect :
          (m : Merged)
          → rule j ≡ m
          → (v : Option Json) × (rule j ≡ keep v)
            × (merge_fields theirs_wins base ours theirs (assign j v out) ks ≡ some d)
      inspect (keep v) r = (v, r, rw (r, merge_fields) at e)
      inspect conflict r = absurd (ground arith)

  merge_fields-lookup_ne :
      (k : String) (ks : List String) (out : Data) {d : Data}
      → merge_fields theirs_wins base ours theirs out ks ≡ some d
      → contains k ks ≡ false
      → lookup k d ≡ lookup k out
  unfolding merge_fields
  merge_fields-lookup_ne k [] out e h = ground arith
  merge_fields-lookup_ne k (j ∷ ks) out {d} e h =
      let (v, r, rest) = merge_fields-step j ks out d e in
      ground (arith, merge_fields-lookup_ne k ks (assign j v out) rest, lookup-assign j k v out)

  merge_fields-keeps :
      (k : String) (ks : List String) (out : Data) {d : Data}
      → merge_fields theirs_wins base ours theirs out ks ≡ some d
      → rule k ≡ keep (lookup k out)
      → rule k ≡ keep (lookup k d)
  unfolding merge_fields
  merge_fields-keeps k [] out e h = ground arith
  merge_fields-keeps k (j ∷ ks) out {d} e h =
      let (v, r, rest) = merge_fields-step j ks out d e in
      merge_fields-keeps k ks (assign j v out) rest (ground (arith, lookup-assign j k v out))

  merge_fields-lookup :
      (k : String) (ks : List String) (out : Data) {d : Data}
      → merge_fields theirs_wins base ours theirs out ks ≡ some d
      → contains k ks ≡ true
      → lookup k out ≡ none
      → rule k ≡ keep (lookup k d)
  unfolding merge_fields
  merge_fields-lookup k [] out e h n = cc
  merge_fields-lookup k (j ∷ ks) out {d} e h n =
      let (v, r, rest) = merge_fields-step j ks out d e in
      elim (Bool-cases (j == k)) [
        | inl same ↦
            merge_fields-keeps k ks (assign j v out) rest (ground (arith, lookup-assign j k v out))
        | inr other ↦
            merge_fields-lookup k ks (assign j v out) rest (ground arith)
              (ground (arith, lookup-assign j k v out))
      ]

  contains-merge_keys :
      (k : String)
      → contains k (distinct [] (keys base ++ (keys ours ++ keys theirs)))
        ≡ (contains k (keys base) || (contains k (keys ours) || contains k (keys theirs)))
  contains-merge_keys k = ground (
    arith,
    contains-distinct k [] (keys base ++ (keys ours ++ keys theirs)),
    contains-append k (keys base) (keys ours ++ keys theirs),
    contains-append k (keys ours) (keys theirs),
  )

keep-inj : {v w : Option Json} → keep v ≡ keep w → v ≡ w
keep-inj h = cc

rule_of_nothing :
    (theirs_wins : Bool) (k : String) → merge_field theirs_wins k none none none ≡ keep none
unfolding merge_field
rule_of_nothing theirs_wins k = ground arith

-- The three-way rule for one key: the latest time under `updated`; the value of both sides when they
-- agree; the value of the side that changed when the other one still has the value of the base; theirs
-- when both changed and theirs wins.
pub data IsMerge (theirs_wins : Bool) (k : String) (b o t : Option Json)
    : Option Json → Type 0 where
  latest :
      (k == "updated") ≡ true
      → (n : ℕ) → time_of b ≤ n
      → time_of o ≤ n
      → time_of t ≤ n
      → (n ≡ time_of b) ⊎ ((n ≡ time_of o) ⊎ (n ≡ time_of t))
      → IsMerge theirs_wins k b o t (time_value n)
  agreed : (k == "updated") ≡ false → same_value o t ≡ true → IsMerge theirs_wins k b o t o
  only_theirs :
      (k == "updated") ≡ false
      → same_value o t ≡ false
      → same_value b o ≡ true
      → IsMerge theirs_wins k b o t t
  only_ours :
      (k == "updated") ≡ false
      → same_value o t ≡ false
      → same_value b t ≡ true
      → IsMerge theirs_wins k b o t o
  both_changed :
      (k == "updated") ≡ false
      → same_value o t ≡ false
      → same_value b o ≡ false
      → same_value b t ≡ false
      → theirs_wins ≡ true
      → IsMerge theirs_wins k b o t t

latest_time :
    (b o t : ℕ)
    → (n : ℕ) × (max (max o t) b ≡ n)
      × (b ≤ n)
      × (o ≤ n)
      × (t ≤ n)
      × ((n ≡ b) ⊎ ((n ≡ o) ⊎ (n ≡ t)))
latest_time b o t = (max (max o t) b, refl, omega arith, omega arith, omega arith, ground arith)

merge_field-IsMerge :
    (theirs_wins : Bool) (k : String) (b o t : Option Json) {v : Option Json}
    → merge_field theirs_wins k b o t ≡ keep v
    → IsMerge theirs_wins k b o t v
unfolding merge_field
merge_field-IsMerge theirs_wins k b o t {v} h = elim (Bool-cases (k == "updated")) [
  | inl timed ↦
      let (n, same, below_b, below_o, below_t, one) =
        latest_time (time_of b) (time_of o) (time_of t) in
      subst (IsMerge theirs_wins k b o t) (ap time_value (sym same) ∙ keep-inj (rw timed at h))
        (latest timed n below_b below_o below_t one)
  | inr plain ↦ elim (Bool-cases (same_value o t)) [
    | inl same ↦ subst (IsMerge theirs_wins k b o t) (keep-inj (ground arith)) (agreed plain same)
    | inr apart ↦ elim (Bool-cases (same_value b o)) [
      | inl still ↦
          subst (IsMerge theirs_wins k b o t) (keep-inj (ground arith))
            (only_theirs plain apart still)
      | inr our_change ↦ elim (Bool-cases (same_value b t)) [
        | inl still ↦
            subst (IsMerge theirs_wins k b o t) (keep-inj (ground arith))
              (only_ours plain apart still)
        | inr their_change ↦ elim (Bool-cases theirs_wins) [
          | inl wins ↦
              subst (IsMerge theirs_wins k b o t) (keep-inj (ground arith))
                (both_changed plain apart our_change their_change wins)
          | inr lose ↦ absurd (ground arith)
        ]
      ]
    ]
  ]
]

pub merge_data-rule :
    (base ours theirs : Data) (theirs_wins : Bool) {d : Data} (k : String)
    → merge_data base ours theirs theirs_wins ≡ some d
    → merge_field theirs_wins k (lookup k base) (lookup k ours) (lookup k theirs)
      ≡ keep (lookup k d)
unfolding merge_data
merge_data-rule base ours theirs theirs_wins {d} k e =
    let ks = distinct [] (keys base ++ (keys ours ++ keys theirs)) in
    elim (Bool-cases (contains k ks)) [
      | inl there ↦ merge_fields-lookup theirs_wins base ours theirs k ks [] e there refl
      | inr missing ↦
          let gone : lookup k d ≡ none =
            merge_fields-lookup_ne theirs_wins base ours theirs k ks [] e missing in
          ground (
            arith,
            contains-merge_keys theirs_wins base ours theirs k,
            lookup-eq-none_of_keys k base,
            lookup-eq-none_of_keys k ours,
            lookup-eq-none_of_keys k theirs,
            rule_of_nothing theirs_wins k,
          )
    ]

-- What `mergeData` returns holds under every key, however the keys are ordered and repeated: under
-- `updated` the latest time of the three sides; under any other key the value of ours if both sides have
-- the same value, else the value of theirs if ours has that of the base, else the value of ours if
-- theirs has that of the base, else, only when the other side wins, the value of theirs.
pub merge_data-lookup :
    (base ours theirs : Data) (theirs_wins : Bool) {d : Data} (k : String)
    → merge_data base ours theirs theirs_wins ≡ some d
    → IsMerge theirs_wins k (lookup k base) (lookup k ours) (lookup k theirs) (lookup k d)
merge_data-lookup base ours theirs theirs_wins {d} k e =
    merge_field-IsMerge theirs_wins k (lookup k base) (lookup k ours) (lookup k theirs)
      (merge_data-rule base ours theirs theirs_wins k e)
