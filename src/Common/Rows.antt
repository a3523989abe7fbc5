-- ===== src/Common/Rows.antt =====
-- Tables of rows with a numeric id: `update` by id, and what it does to a search.
use Prim.Native.Nat.{ℕ, ◌<◌}
use mathlib.Core.Path.{◌≡◌, sym, subst}
use mathlib.Core.Logic.{◌≢◌, inl, inr}
use mathlib.Core.Bool.{Bool}
use mathlib.Core.Option.{some}
use mathlib.Core.List.{List, [], ◌∷◌, ◌++◌}
use native.Mathlib.Omega.{arith}
use fos_mono.Common.Tests.{nat_eq, if◌then◌else◌, Bool-cases}
use fos_mono.Common.Lists.{find, All}

module _ {A : Type 0} (id : A → ℕ) where
  -- The first row of that id is patched.
  unfoldable pub update_row : ℕ → (A → A) → List A → List A
  update_row n patch [] = []
  update_row n patch (a ∷ rows) =
      if nat_eq (id a) n then patch a ∷ rows else a ∷ update_row n patch rows

  unfoldable pub HasNoId : ℕ → List A → Type 0
  HasNoId n [] = Unit {0}
  HasNoId n (a ∷ rows) = (id a ≢ n) × HasNoId n rows

  unfoldable pub HasDistinctIds : List A → Type 0
  HasDistinctIds [] = Unit {0}
  HasDistinctIds (a ∷ rows) = HasNoId (id a) rows × HasDistinctIds rows

  pub find-id_ne :
      (p : A → Bool) (n : ℕ) (rows : List A) (a : A)
      → HasNoId n rows
      → find p rows ≡ some a
      → id a ≢ n
  unfolding HasNoId
  find-id_ne p n [] a none_there h = absurd (ground arith)
  find-id_ne p n (b ∷ rows) a none_there h = elim (Bool-cases (p b)) [
    | inl here ↦ let same : b ≡ a = ground arith in subst (λ c. id c ≢ n) same none_there.0
    | inr there ↦ find-id_ne p n rows a none_there.1 (ground arith)
  ]

  -- A row that any search finds is the row of its id.
  pub find-find_id :
      (p : A → Bool) (rows : List A) (a : A)
      → HasDistinctIds rows
      → find p rows ≡ some a
      → find (λ b. nat_eq (id b) (id a)) rows ≡ some a
  unfolding HasDistinctIds
  find-find_id p [] a d h = absurd (ground arith)
  find-find_id p (b ∷ rows) a d h = elim (Bool-cases (p b)) [
    | inl here ↦ ground arith
    | inr there ↦
        let found : find p rows ≡ some a = ground arith in
        let other = find-id_ne p (id b) rows a d.0 found in
        ground (arith, find-find_id p rows a d.1 found)
  ]

  -- The row after an update of the row of id `n`.
  abbrev pub after : ℕ → (A → A) → A → A
  after n patch a = if nat_eq (id a) n then patch a else a

  -- A search to which the updated row answers as before finds the row that it found before.
  pub find-update_row :
      (p : A → Bool) (patch : A → A) (rows : List A) (a b : A)
      → HasDistinctIds rows
      → find (λ c. nat_eq (id c) (id b)) rows ≡ some b
      → p (patch b) ≡ p b
      → find p rows ≡ some a
      → find p (update_row (id b) patch rows) ≡ some (after (id b) patch a)
  unfolding HasDistinctIds update_row
  find-update_row p patch [] a b d at same h = absurd (ground arith)
  find-update_row p patch (c ∷ rows) a b d at same h = elim (Bool-cases (nat_eq (id c) (id b))) [
    | inl target ↦
        let is_b : c ≡ b = ground arith in
        let kept : p (patch c) ≡ p c = subst (λ x. p (patch x) ≡ p x) (sym is_b) same in
        elim (Bool-cases (p c)) [
          | inl here ↦ ground arith
          | inr there ↦
              let found : find p rows ≡ some a = ground arith in
              let other = find-id_ne p (id c) rows a d.0 found in ground arith
        ]
    | inr further ↦ elim (Bool-cases (p c)) [
      | inl here ↦ ground arith
      | inr there ↦
          ground (arith, find-update_row p patch rows a b d.1 (ground arith) same (ground arith))
    ]
  ]

  pub after_self : (patch : A → A) (a : A) → after (id a) patch a ≡ patch a
  after_self patch a = ground arith

  HasNoId-update_row :
      (n : ℕ) (patch : A → A) (rows : List A) (m : ℕ)
      → ((a : A) → id (patch a) ≡ id a)
      → HasNoId m rows
      → HasNoId m (update_row n patch rows)
  unfolding HasNoId update_row
  HasNoId-update_row n patch [] m keeps h = tt
  HasNoId-update_row n patch (a ∷ rows) m keeps h = elim (Bool-cases (nat_eq (id a) n)) [
    | inl target ↦ rw target (subst (λ k. k ≢ m) (sym (keeps a)) h.0, h.1)
    | inr further ↦ rw further (h.0, HasNoId-update_row n patch rows m keeps h.1)
  ]

  pub HasDistinctIds-update_row :
      (n : ℕ) (patch : A → A) (rows : List A)
      → ((a : A) → id (patch a) ≡ id a)
      → HasDistinctIds rows
      → HasDistinctIds (update_row n patch rows)
  unfolding HasDistinctIds update_row
  HasDistinctIds-update_row n patch [] keeps d = tt
  HasDistinctIds-update_row n patch (a ∷ rows) keeps d = elim (Bool-cases (nat_eq (id a) n)) [
    | inl target ↦ rw target (subst (λ m. HasNoId m rows) (sym (keeps a)) d.0, d.1)
    | inr further ↦ rw further (
      HasNoId-update_row n patch rows (id a) keeps d.0,
      HasDistinctIds-update_row n patch rows keeps d.1,
    )
  ]

  pub All-update_row :
      (P : A → Type 0) (patch : A → A) (rows : List A) (b : A)
      → All P rows
      → find (λ c. nat_eq (id c) (id b)) rows ≡ some b
      → P (patch b)
      → All P (update_row (id b) patch rows)
  unfolding update_row
  All-update_row P patch [] b all at new = tt
  All-update_row P patch (c ∷ rows) b all at new = elim (Bool-cases (nat_eq (id c) (id b))) [
    | inl target ↦
        let is_b : c ≡ b = ground arith in
        rw target (subst (λ x. P (patch x)) (sym is_b) new, all.1)
    | inr further ↦ rw further (all.0, All-update_row P patch rows b all.1 (ground arith) new)
  ]

  HasNoId-append :
      (rows : List A) (a : A) (n : ℕ) → HasNoId n rows → id a ≢ n → HasNoId n (rows ++ (a ∷ []))
  unfolding HasNoId
  HasNoId-append [] a n h other = (other, tt)
  HasNoId-append (b ∷ rows) a n h other = (h.0, HasNoId-append rows a n h.1 other)

  unfoldable pub IsBelow : ℕ → A → Type 0
  IsBelow n a = id a < n

  pub HasDistinctIds-append :
      (rows : List A) (a : A)
      → HasDistinctIds rows
      → All (IsBelow (id a)) rows
      → HasDistinctIds (rows ++ (a ∷ []))
  unfolding HasDistinctIds HasNoId IsBelow
  HasDistinctIds-append [] a d below = (tt, tt)
  HasDistinctIds-append (b ∷ rows) a d below =
      let fresh : id a ≢ id b = λ e. omega (arith, e, below.0) in
      (HasNoId-append rows a (id b) d.0 fresh, HasDistinctIds-append rows a d.1 below.1)

module _ {A : Type 0} (p : A → Bool) where
  pub find-append :
      (rows more : List A) (a : A) → find p rows ≡ some a → find p (rows ++ more) ≡ some a
  find-append [] more a h = absurd (ground arith)
  find-append (b ∷ rows) more a h = ground (arith, find-append rows more a)

  pub All-find : (P : A → Type 0) (rows : List A) (a : A) → All P rows → find p rows ≡ some a → P a
  All-find P [] a all h = absurd (ground arith)
  All-find P (b ∷ rows) a all h = elim (Bool-cases (p b)) [
    | inl here ↦ let same : b ≡ a = ground arith in subst P same all.0
    | inr there ↦ All-find P rows a all.1 (ground arith)
  ]
