-- ===== src/Invites/Once.antt =====
-- An invite's token is used once, and its JWT is handed out once.
use fos_mono.Common.{
  ℕ, String, Bool-cases, [], ◌∷◌, Option, some, ◌≡◌, ◌≢◌, refl, ap, ◌∙◌, inl, inr, arith, opt_eq,
  nat_eq, ◌==◌,
}
use fos_mono.Node.{Json}
use fos_mono.Invites.{Deps, done, claim_invite}
use fos_mono.Invites.Table.{
  invite_id, Invite, open_, World, find_by_id, find_by_token_hash, update_invite, claim, grant,
  refuse, deliver,
}
use fos_mono.Common.Rows.{
  HasDistinctIds, after, after_self, find-find_id, find-update_row, find-append,
}
use fos_mono.Invites.Change.{
  Change, kept, inserted, claimed, granted, refused, handed, claim_invite-done,
}
use fos_mono.Invites.Sound.{IsSound, Change-IsSound, insert_invite-Inserted}
use fos_mono.Invites.History.{
  Reach, start, step, no_invites, Step-Change, Reach-IsSound, Reached-IsSound,
}

-- The invite of that token has been claimed or refused.
IsTaken : String → World → Type 0
IsTaken hash w = (i : Invite) × ((find_by_token_hash hash w.invites ≡ some i) × (i.status ≢ open_))

after-taken :
    (id : ℕ) (patch : Invite → Invite) (i : Invite)
    → (patch i).status ≢ open_
    → i.status ≢ open_
    → (after invite_id id patch i).status ≢ open_
after-taken id patch i p n = elim (Bool-cases (nat_eq i.id id)) [
  | inl same ↦ rw same p
  | inr other ↦ rw other n
]

update-IsTaken :
    (hash : String) (w w' : World) (patch : Invite → Invite) (j : Invite)
    → HasDistinctIds invite_id w.invites
    → IsTaken hash w
    → find_by_id j.id w.invites ≡ some j
    → ((i : Invite) → (patch i).token_hash ≡ i.token_hash)
    → ((i : Invite) → (patch i).status ≢ open_)
    → w'.invites ≡ update_invite j.id patch w.invites
    → IsTaken hash w'
unfolding IsTaken
update-IsTaken hash w w' patch j distinct (i, (found, taken)) at keeps closed rows = (
  after invite_id j.id patch i,
  (
    ap (find_by_token_hash hash) rows
        ∙ find-update_row invite_id (λ k. k.token_hash == hash) patch w.invites i j distinct at
            (ap (λ t. t == hash) (keeps j)) found,
    after-taken j.id patch i (closed i) taken,
  ),
)

Change-IsTaken :
    (deps : Deps) (hash : String) (w w' : World)
    → IsSound deps w
    → IsTaken hash w
    → Change deps w w'
    → IsTaken hash w'
unfolding IsTaken
Change-IsTaken deps hash w w' s (i, (found, taken)) (kept rows next) =
    (i, (ap (find_by_token_hash hash) rows ∙ found, taken))
Change-IsTaken deps hash w w' s (i, (found, taken))
      (inserted user_id h scope names expires_at j new) =
    let n = insert_invite-Inserted user_id h scope names expires_at j w w' new in
    (
      i,
      (
        ap (find_by_token_hash hash) n.rows
            ∙ find-append (λ k. k.token_hash == hash) w.invites (j ∷ []) i found,
        taken,
      ),
    )
Change-IsTaken deps hash w w' s t
      (claimed h peer_id name request_id i found opened unused rows next) =
    update-IsTaken hash w w' (claim peer_id name request_id) i s.distinct t
      (find-find_id invite_id (λ j. j.token_hash == h) w.invites i s.distinct found) (λ k. refl)
      (λ k e. ground arith) rows
Change-IsTaken deps hash w w' s t (granted id i jwt found waits signature rows next) =
    update-IsTaken hash w w' (grant jwt) i s.distinct t
      (find-find_id invite_id (λ j. nat_eq j.id id) w.invites i s.distinct found) (λ k. refl)
      (λ k e. ground arith) rows
Change-IsTaken deps hash w w' s t (refused id i found rows next) =
    update-IsTaken hash w w' refuse i s.distinct t
      (find-find_id invite_id (λ j. nat_eq j.id id) w.invites i s.distinct found) (λ k. refl)
      (λ k e. ground arith) rows
Change-IsTaken deps hash w w' s t (handed request_id i found is_approved rows next) =
    update-IsTaken hash w w' deliver i s.distinct t
      (find-find_id invite_id (λ j. opt_eq j.request_id (some request_id)) w.invites i s.distinct
        found)
      (λ k. refl) (λ k e. ground arith) rows

Reach-IsTaken :
    {deps : Deps} {w w' : World} (hash : String)
    → IsSound deps w
    → IsTaken hash w
    → Reach deps w w'
    → IsTaken hash w'
Reach-IsTaken hash s t start = t
Reach-IsTaken {deps} hash s t (step {mid} {last} r st) =
    Change-IsTaken deps hash mid last (Reach-IsSound s r) (Reach-IsTaken hash s t r)
      (Step-Change st)

-- After any history, when a token has been claimed, no later request claims it again, whatever
-- requests come between.
pub claim_invite_once :
    {deps : Deps} {w w' w'' : World} (token peer name : Option Json) (request_id answer : String)
    (now : ℕ)
    → Reach deps no_invites w
    → claim_invite deps token peer name request_id now w ≡ (done answer, w')
    → Reach deps w' w''
    → (peer' name' : Option Json) (request_id' answer' : String) (now' : ℕ) (last : World)
    → claim_invite deps token peer' name' request_id' now' w'' ≢ (done answer', last)
unfolding IsTaken
claim_invite_once {deps} {w} {w'} {w''} token peer name request_id answer now before h between peer'
      name' request_id' answer' now' last again =
    let c = claim_invite-done deps token peer name request_id answer now w w' h in
    let d = claim_invite-done deps token peer' name' request_id' answer' now' w'' last again in
    let s = Reached-IsSound before in
    let hash = deps.hash_invite_token c.text in
    let s' = Change-IsSound deps w w' s (
      claimed hash c.peer_id c.name request_id c.invite c.found c.was_open c.unused c.result
        c.same_next) in
    let taken : IsTaken hash w' = (
      claim c.peer_id c.name request_id c.invite,
      (
        ap (find_by_token_hash hash) c.result
            ∙ (find-update_row invite_id (λ k. k.token_hash == hash)
                  (claim c.peer_id c.name request_id) w.invites c.invite c.invite s.distinct
                  (find-find_id invite_id (λ k. k.token_hash == hash) w.invites c.invite s.distinct
                    c.found)
                  refl c.found
                ∙ ap some (after_self invite_id (claim c.peer_id c.name request_id) c.invite)),
        λ e. ground arith,
      ),
    ) in
    let (i, (found, closed)) = Reach-IsTaken hash s' taken between in
    let same : c.text ≡ d.text = ground (arith, c.named, d.named) in
    closed (ground (arith, found, d.found, d.was_open, same))
