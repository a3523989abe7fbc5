-- ===== src/Invites/Delivery.antt =====
-- The JWT of an invite is handed out once, and not after a refusal.
use fos_mono.Common.{
  ℕ, String, Bool-cases, List, [], ◌∷◌, Option, none, some, ◌≡◌, ◌≢◌, refl, sym, ap, subst, ◌∙◌,
  ◌⊎◌, inl, inr, arith, opt_eq, nat_eq, ◌==◌,
}
use fos_mono.Invites.{Deps, Claims, done, approved_with, deny_request, poll_request}
use fos_mono.Invites.Table.{
  invite_id, Invite, InviteStatus, open_, pending, approved, denied, delivered, World, find_by_id,
  find_by_request_id, update_invite, claim, grant, refuse, deliver,
}
use fos_mono.Common.Rows.{
  HasDistinctIds, after, after_self, find-find_id, find-update_row, find-append, All-find,
}
use fos_mono.Invites.Change.{
  Change, kept, inserted, claimed, granted, refused, handed, granted_of-eq, find_polled-eq,
}
use fos_mono.Invites.Handlers.{
  poll_request-Handed, poll_request-Change, deny_request-Change, deny_request-done,
}
use fos_mono.Invites.Sound.{IsSound, IsSoundRow, Change-IsSound, insert_invite-Inserted}
use fos_mono.Invites.History.{
  Reach, start, step, no_invites, Step-Change, Reach-IsSound, Reached-IsSound,
}

abbrev IsFinal : InviteStatus → Type 0
IsFinal s = (s ≡ delivered) ⊎ (s ≡ denied)

-- The request has been answered for good.
IsOver : String → World → Type 0
IsOver r w = (i : Invite) × ((find_by_request_id r w.invites ≡ some i) × IsFinal i.status)

module _ (r : String) (w w' : World) (distinct : HasDistinctIds invite_id w.invites) where
  after-IsFinal :
      (patch : Invite → Invite) (i j : Invite)
      → find_by_id i.id w.invites ≡ some i
      → find_by_id j.id w.invites ≡ some j
      → IsFinal i.status
      → (IsFinal j.status → IsFinal (patch j).status)
      → IsFinal (after invite_id j.id patch i).status
  after-IsFinal patch i j ati atj over keeps = elim (Bool-cases (nat_eq i.id j.id)) [
    | inr other ↦ rw other over
    | inl same ↦
        let is_j : j ≡ i = ground arith in
        rw same (
          subst (λ k. IsFinal (patch k).status) is_j
            (keeps (subst (λ k. IsFinal k.status) (sym is_j) over)))
  ]

  update-IsOver :
      (patch : Invite → Invite) (j : Invite)
      → IsOver r w
      → find_by_id j.id w.invites ≡ some j
      → opt_eq (patch j).request_id (some r) ≡ opt_eq j.request_id (some r)
      → (IsFinal j.status → IsFinal (patch j).status)
      → w'.invites ≡ update_invite j.id patch w.invites
      → IsOver r w'
  unfolding IsOver
  update-IsOver patch j (i, (found, over)) at keeps final rows =
      let ati =
        find-find_id invite_id (λ k. opt_eq k.request_id (some r)) w.invites i distinct found in
      (
        after invite_id j.id patch i,
        (
          ap (find_by_request_id r) rows
              ∙ find-update_row invite_id (λ k. opt_eq k.request_id (some r)) patch w.invites i j
                  distinct at keeps found,
          after-IsFinal patch i j ati at over final,
        ),
      )

open-not-IsFinal : (s : InviteStatus) → s ≡ open_ → IsFinal s → ⊥
open-not-IsFinal s e (inl f) = ground arith
open-not-IsFinal s e (inr f) = ground arith

pending-not-IsFinal : (s : InviteStatus) → s ≡ pending → IsFinal s → ⊥
pending-not-IsFinal s e (inl f) = ground arith
pending-not-IsFinal s e (inr f) = ground arith

approved-not-IsFinal : (s : InviteStatus) → s ≡ approved → IsFinal s → ⊥
approved-not-IsFinal s e (inl f) = ground arith
approved-not-IsFinal s e (inr f) = ground arith

Change-IsOver :
    (deps : Deps) (r : String) (w w' : World)
    → IsSound deps w
    → IsOver r w
    → Change deps w w'
    → IsOver r w'
unfolding IsOver
Change-IsOver deps r w w' s (i, (found, over)) (kept rows next) =
    (i, (ap (find_by_request_id r) rows ∙ found, over))
Change-IsOver deps r w w' s (i, (found, over)) (inserted user_id h scope names expires_at j new) =
    let n = insert_invite-Inserted user_id h scope names expires_at j w w' new in
    (
      i,
      (
        ap (find_by_request_id r) n.rows
            ∙ find-append (λ k. opt_eq k.request_id (some r)) w.invites (j ∷ []) i found,
        over,
      ),
    )
Change-IsOver deps r w w' s (i, (found, over))
      (claimed h peer_id name request_id j at_hash opened unused rows next) =
    let q = λ (k : Invite). k.token_hash == h in
    let unasked =
      (All-find (λ k. k.token_hash == h) (IsSoundRow deps) w.invites j s.rows at_hash).unasked
        opened in
    let other : request_id ≢ r =
      λ e. ground (arith, found, subst (λ x. find_by_request_id x w.invites ≡ none) e unused) in
    update-IsOver r w w' s.distinct (claim peer_id name request_id) j (i, (found, over))
      (find-find_id invite_id (λ k. k.token_hash == h) w.invites j s.distinct at_hash)
      (ground arith) (λ f. absurd (open-not-IsFinal j.status opened f)) rows
Change-IsOver deps r w w' s o (granted id j jwt found waits signature rows next) =
    update-IsOver r w w' s.distinct (grant jwt) j o
      (find-find_id invite_id (λ k. nat_eq k.id id) w.invites j s.distinct found) refl
      (λ f. absurd (pending-not-IsFinal j.status waits f)) rows
Change-IsOver deps r w w' s o (refused id j found rows next) =
    update-IsOver r w w' s.distinct refuse j o
      (find-find_id invite_id (λ k. nat_eq k.id id) w.invites j s.distinct found) refl
      (λ f. inr refl) rows
Change-IsOver deps r w w' s o (handed request_id j found is_approved rows next) =
    update-IsOver r w w' s.distinct deliver j o
      (find-find_id invite_id (λ k. opt_eq k.request_id (some request_id)) w.invites j s.distinct
        found)
      refl (λ f. absurd (approved-not-IsFinal j.status is_approved f)) rows

Reach-IsOver :
    {deps : Deps} {w w' : World} (r : String)
    → IsSound deps w
    → IsOver r w
    → Reach deps w w'
    → IsOver r w'
Reach-IsOver r s o start = o
Reach-IsOver {deps} r s o (step {mid} {last} before st) =
    Change-IsOver deps r mid last (Reach-IsSound s before) (Reach-IsOver r s o before)
      (Step-Change st)

IsOver-not_handed :
    (deps : Deps) (r peer_id : String) (now : ℕ) (jwt : String) (name : Option String)
    (scope : List String) (w w' : World)
    → IsOver r w
    → poll_request deps r peer_id now w ≢ (done (approved_with jwt name scope), w')
unfolding IsOver
IsOver-not_handed deps r peer_id now jwt name scope w w' (i, (found, over)) h =
    let c = poll_request-Handed deps r peer_id now jwt name scope w w' h in
    let (found', asked) = find_polled-eq r peer_id w.invites c.invite c.polled in
    let same : c.invite ≡ i = ground arith in
    approved-not-IsFinal i.status
      (subst (λ k. k.status ≡ approved) same (granted_of-eq c.invite jwt c.ready).0) over

-- After any history, when a poll has handed out the JWT of a request, no later poll of that request
-- hands one out, whatever requests come between.
pub poll_request_once :
    {deps : Deps} {w w' w'' : World} (r peer_id : String) (now : ℕ) (jwt : String)
    (name : Option String) (scope : List String)
    → Reach deps no_invites w
    → poll_request deps r peer_id now w ≡ (done (approved_with jwt name scope), w')
    → Reach deps w' w''
    → (peer_id' : String) (now' : ℕ) (jwt' : String) (name' : Option String) (scope' : List String)
      (last : World)
    → poll_request deps r peer_id' now' w'' ≢ (done (approved_with jwt' name' scope'), last)
unfolding IsOver
poll_request_once {deps} {w} {w'} {w''} r peer_id now jwt name scope before h between peer_id' now'
      jwt' name' scope' last =
    let s = Reached-IsSound before in
    let s' = Change-IsSound deps w w' s (poll_request-Change deps r peer_id now _ w w' h) in
    let c = poll_request-Handed deps r peer_id now jwt name scope w w' h in
    let (found, asked) = find_polled-eq r peer_id w.invites c.invite c.polled in
    let q =
      find-find_id invite_id (λ k. opt_eq k.request_id (some r)) w.invites c.invite s.distinct
        found in
    let over : IsOver r w' = (
      deliver c.invite,
      (
        ap (find_by_request_id r) c.result
            ∙ (find-update_row invite_id (λ k. opt_eq k.request_id (some r)) deliver w.invites
                  c.invite c.invite s.distinct q refl found
                ∙ ap some (after_self invite_id deliver c.invite)),
        inl refl,
      ),
    ) in
    IsOver-not_handed deps r peer_id' now' jwt' name' scope' w'' last
      (Reach-IsOver r s' over between)

-- After any history, when the owner has denied the invite of a request, no later poll of that
-- request hands out a JWT, even if the invite was approved before.
pub deny_request-poll_request :
    {deps : Deps} {w w' w'' : World} (claims : Claims) (i : Invite) (r : String)
    → Reach deps no_invites w
    → find_by_request_id r w.invites ≡ some i
    → deny_request deps claims (some i.id) w ≡ (done tt, w')
    → Reach deps w' w''
    → (peer_id : String) (now : ℕ) (jwt : String) (name : Option String) (scope : List String)
      (last : World)
    → poll_request deps r peer_id now w'' ≢ (done (approved_with jwt name scope), last)
unfolding IsOver
deny_request-poll_request {deps} {w} {w'} {w''} claims i r before found h between peer_id now jwt
      name scope last =
    let s = Reached-IsSound before in
    let s' = Change-IsSound deps w w' s (deny_request-Change deps claims (some i.id) _ w w' h) in
    let at =
      find-find_id invite_id (λ k. opt_eq k.request_id (some r)) w.invites i s.distinct found in
    let over : IsOver r w' = (
      refuse i,
      (
        ap (find_by_request_id r) (deny_request-done deps claims i w w' at h)
            ∙ (find-update_row invite_id (λ k. opt_eq k.request_id (some r)) refuse w.invites i i
                  s.distinct at refl found
                ∙ ap some (after_self invite_id refuse i)),
        inr refl,
      ),
    ) in
    IsOver-not_handed deps r peer_id now jwt name scope w'' last (Reach-IsOver r s' over between)
