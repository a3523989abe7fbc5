-- ===== src/Device/Pruned.antt =====
-- The map of codes: its keys, and what pruning keeps.
use fos_mono.Common.{
  ℕ, String, Bool-cases, Option-cases, List, [], ◌∷◌, Option, none, some, if◌then◌else◌, ◌==◌,
  lookup, set_key, lookup-set_key, ◌≡◌, ◌≢◌, refl, sym, ap, subst, ◌∙◌, inl, inr, arith,
}
use fos_mono.Device.Code.{new_code}
use fos_mono.Device.{
  pending, DeviceLogin, Logins, started, is_fresh, prune, start_login, unused_code, name_of,
}

-- The keys of the map are the codes of its entries, each once.
unfoldable pub IsKeyed : Logins → Type 0
IsKeyed [] = Unit {0}
IsKeyed ((k, e) ∷ logins) = (e.code ≡ k) × ((lookup k logins ≡ none) × IsKeyed logins)

pub lookup-IsKeyed :
    (k : String) (logins : Logins) (e : DeviceLogin)
    → IsKeyed logins
    → lookup k logins ≡ some e
    → e.code ≡ k
unfolding IsKeyed
lookup-IsKeyed k [] e w h = absurd (ground arith)
lookup-IsKeyed k ((j, f) ∷ logins) e w h = elim (Bool-cases (j == k)) [
  | inl here ↦ ground arith
  | inr there ↦ lookup-IsKeyed k logins e w.1.1 (ground arith)
]

pub lookup-prune-none :
    (k : String) (now : ℕ) (logins : Logins)
    → lookup k logins ≡ none
    → lookup k (prune now logins) ≡ none
unfolding prune
lookup-prune-none k now [] h = refl
lookup-prune-none k now ((j, f) ∷ logins) h = ground (arith, lookup-prune-none k now logins)

-- Pruning keeps a code exactly when its entry is fresh.
pub lookup-prune :
    (k : String) (now : ℕ) (logins : Logins) (e : DeviceLogin)
    → IsKeyed logins
    → lookup k logins ≡ some e
    → lookup k (prune now logins) ≡ (if is_fresh now e then some e else none)
unfolding IsKeyed prune
lookup-prune k now [] e w h = absurd (ground arith)
lookup-prune k now ((j, f) ∷ logins) e w h = elim (Bool-cases (j == k)) [
  | inl here ↦
      let same_key : j ≡ k = ground arith in
      let gone =
        lookup-prune-none k now logins (subst (λ i. lookup i logins ≡ none) same_key w.1.0) in
      let same : f ≡ e = ground arith in ground (arith, gone)
  | inr there ↦ let rest = lookup-prune k now logins e w.1.1 (ground arith) in ground (arith, rest)
]

pub prune-IsKeyed : (now : ℕ) (logins : Logins) → IsKeyed logins → IsKeyed (prune now logins)
unfolding IsKeyed prune
prune-IsKeyed now [] w = tt
prune-IsKeyed now ((j, f) ∷ logins) w = elim (Bool-cases (is_fresh now f)) [
  | inl fresh ↦
      rw fresh (w.0, (lookup-prune-none j now logins w.1.0, prune-IsKeyed now logins w.1.1))
  | inr stale ↦ rw stale (prune-IsKeyed now logins w.1.1)
]

pub set_key-IsKeyed :
    (k : String) (e : DeviceLogin) (logins : Logins)
    → e.code ≡ k
    → IsKeyed logins
    → IsKeyed (set_key k e logins)
unfolding IsKeyed
set_key-IsKeyed k e [] same w = (same, (refl, tt))
set_key-IsKeyed k e ((j, f) ∷ logins) same w = elim (Bool-cases (j == k)) [
  | inl here ↦ let same_key : j ≡ k = ground arith in rw here (same ∙ sym same_key, (w.1.0, w.1.1))
  | inr there ↦
      let put = lookup-set_key k j e logins in
      let gone : lookup j (set_key k e logins) ≡ none = ground (arith, put, w.1.0) in
      rw there (w.0, (gone, set_key-IsKeyed k e logins same w.1.1))
]

unused_code-free :
    (bytes : List (List ℕ)) (logins : Logins) (c : String)
    → unused_code bytes logins ≡ some c
    → lookup c logins ≡ none
unfolding unused_code
unused_code-free [] logins c h = absurd (ground arith)
unused_code-free (b ∷ more) logins c h = elim (Option-cases (lookup (new_code b) logins)) [
  | inl free ↦ ground arith
  | inr (e, used) ↦ unused_code-free more logins c (ground arith)
]

start_login-eq :
    (name : Option String) (bytes : List (List ℕ)) (now : ℕ) (logins logins' : Logins) (c : String)
    → start_login name bytes now logins ≡ some (started c, logins')
    → (unused_code bytes (prune now logins) ≡ some c)
      × ((e : DeviceLogin) × ((e.code ≡ c)
            × ((e.status ≡ pending)
                × ((e.created_at ≡ now) × (logins' ≡ set_key c e (prune now logins))))))
unfolding start_login
start_login-eq name bytes now logins logins' c h =
    elim (Option-cases (unused_code bytes (prune now logins))) [
      | inl none_free ↦ absurd (ground arith)
      | inr (d, free) ↦
          let same : d ≡ c = ground arith in
          (
            free ∙ ap some same,
            (
              record {
                code = c;
                name = name_of name;
                status = pending;
                username = none;
                jwt = none;
                created_at = now;
              },
              (refl, (refl, (refl, ground arith))),
            ),
          )
    ]

-- When the map is keyed by the codes of its entries, `start` hands out a code that was not in use,
-- puts a waiting entry with that code and time there, leaves every other fresh code as it is, and
-- the map stays keyed.
pub start_login_lem :
    (name : Option String) (bytes : List (List ℕ)) (now : ℕ) (logins logins' : Logins) (c : String)
    → IsKeyed logins
    → start_login name bytes now logins ≡ some (started c, logins')
    → (lookup c (prune now logins) ≡ none)
      × ((e : DeviceLogin) × ((lookup c logins' ≡ some e)
            × ((e.status ≡ pending) × (e.created_at ≡ now))))
      × ((k : String) → k ≢ c → lookup k logins' ≡ lookup k (prune now logins))
      × IsKeyed logins'
start_login_lem name bytes now logins logins' c w h =
    let (free, (e, (same, (waits, (at, result))))) =
      start_login-eq name bytes now logins logins' c h in
    let unused = unused_code-free bytes (prune now logins) c free in
    let put = λ (k : String). lookup-set_key c k e (prune now logins) in
    (
      unused,
      (e, (ap (lookup c) result ∙ ground (arith, put c), (waits, at))),
      λ k other. ap (lookup k) result ∙ ground (arith, put k),
      subst IsKeyed (sym result)
          (set_key-IsKeyed c e (prune now logins) same (prune-IsKeyed now logins w)),
    )
