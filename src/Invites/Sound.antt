-- ===== src/Invites/Sound.antt =====
-- The invariant of the table of invites.
use fos_mono.Common.{
  ℕ, suc, ◌<◌, String, Option-cases, List, [], ◌∷◌, ◌++◌, none, some, All, All-append, All-mono,
  ◌≡◌, refl, sym, subst, inl, inr, arith, opt_eq, nat_eq, ◌==◌,
}
use fos_mono.Invites.{Deps}
use fos_mono.Invites.Table.{
  invite_id, Invite, open_, approved, World, find_by_id, find_by_token_hash, update_invite,
  insert_invite, claim, grant, refuse, deliver,
}
use fos_mono.Common.Rows.{
  HasDistinctIds, IsBelow, find-find_id, All-find, All-update_row, HasDistinctIds-update_row,
  HasDistinctIds-append,
}
use fos_mono.Invites.Change.{Change, kept, inserted, claimed, granted, refused, handed, IsSigned}

-- An open invite has no request yet, and a JWT is kept only in an approved invite, signed by its
-- owner.
pub record IsSoundRow (deps : Deps) (i : Invite) : Type 0 where
  pub unasked : i.status ≡ open_ → i.request_id ≡ none
  pub sound :
      (jwt : String) → i.granted_jwt ≡ some jwt → (i.status ≡ approved) × IsSigned deps i jwt

pub record IsSound (deps : Deps) (w : World) : Type 0 where
  pub rows : All (IsSoundRow deps) w.invites
  pub below : All (IsBelow invite_id w.next_id) w.invites
  pub distinct : HasDistinctIds invite_id w.invites

-- An update of the row `i` by a patch that keeps its id.
pub update-IsSound :
    (deps : Deps) (w w' : World) (i : Invite) (patch : Invite → Invite)
    → IsSound deps w
    → find_by_id i.id w.invites ≡ some i
    → ((j : Invite) → (patch j).id ≡ j.id)
    → IsSoundRow deps (patch i)
    → w'.invites ≡ update_invite i.id patch w.invites
    → w'.next_id ≡ w.next_id
    → IsSound deps w'
unfolding IsBelow
update-IsSound deps w w' i patch s at keeps row rows next = record {
  rows =
      subst (All (IsSoundRow deps)) (sym rows)
        (All-update_row invite_id (IsSoundRow deps) patch w.invites i s.rows at row);
  below =
      let old =
        All-find (λ j. nat_eq j.id i.id) (IsBelow invite_id w.next_id) w.invites i s.below at in
      subst (λ n. All (IsBelow invite_id n) w'.invites) (sym next)
        (subst (All (IsBelow invite_id w.next_id)) (sym rows) (
          All-update_row invite_id (IsBelow invite_id w.next_id) patch w.invites i s.below at
            (subst (λ n. n < w.next_id) (sym (keeps i)) old)));
  distinct =
      subst (HasDistinctIds invite_id) (sym rows)
        (HasDistinctIds-update_row invite_id i.id patch w.invites keeps s.distinct);
}

-- The new row of `create`.
pub record Inserted (i : Invite) (w w' : World) : Type 0 where
  pub id : i.id ≡ w.next_id
  pub opened : i.status ≡ open_
  pub unasked : i.request_id ≡ none
  pub no_jwt : i.granted_jwt ≡ none
  pub rows : w'.invites ≡ w.invites ++ (i ∷ [])
  pub next : w'.next_id ≡ suc w.next_id

pub insert_invite-Inserted :
    (user_id : ℕ) (hash : String) (scope names : List String) (expires_at : ℕ) (i : Invite)
    (w w' : World)
    → insert_invite user_id hash scope names expires_at w ≡ some (i, w')
    → Inserted i w w'
unfolding insert_invite
insert_invite-Inserted user_id hash scope names expires_at i w w' h =
    elim (Option-cases (find_by_token_hash hash w.invites)) [
      | inr (j, clash) ↦ absurd (ground arith)
      | inl unused ↦ record {
        id = ground arith;
        opened = ground arith;
        unasked = ground arith;
        no_jwt = ground arith;
        rows = ground arith;
        next = ground arith;
      }
    ]

insert-IsSound :
    (deps : Deps) (i : Invite) (w w' : World) → IsSound deps w → Inserted i w w' → IsSound deps w'
unfolding IsBelow
insert-IsSound deps i w w' s n = record {
  rows = subst (All (IsSoundRow deps)) (sym n.rows) (
      All-append (IsSoundRow deps) w.invites (i ∷ []) s.rows (
        record { unasked = λ _. n.unasked; sound = λ jwt h. absurd (ground (arith, n.no_jwt)) },
        tt,
      ));
  below =
      subst (λ m. All (IsBelow invite_id m) w'.invites) (sym n.next)
        (subst (All (IsBelow invite_id (suc w.next_id))) (sym n.rows) (
          All-append (IsBelow invite_id (suc w.next_id)) w.invites (i ∷ [])
            (All-mono (IsBelow invite_id w.next_id) (IsBelow invite_id (suc w.next_id))
              (λ j h. omega (arith, h)) w.invites s.below)
            (omega (arith, n.id), tt)));
  distinct = subst (HasDistinctIds invite_id) (sym n.rows) (
      HasDistinctIds-append invite_id w.invites i s.distinct
        (subst (λ m. All (IsBelow invite_id m) w.invites) (sym n.id) s.below));
}

IsSigned-grant :
    (deps : Deps) (i : Invite) (jwt : String)
    → IsSigned deps i jwt
    → IsSigned deps (grant jwt i) jwt
IsSigned-grant deps i jwt s = record {
  username = s.username;
  user = s.user;
  peer = s.peer;
  at = s.at;
  known = s.known;
  owner = s.owner;
  asked = s.asked;
  signed = s.signed;
}

pub Change-IsSound :
    (deps : Deps) (w w' : World) → IsSound deps w → Change deps w w' → IsSound deps w'
Change-IsSound deps w w' s (kept rows next) = record {
  rows = subst (All (IsSoundRow deps)) (sym rows) s.rows;
  below =
      subst (λ n. All (IsBelow invite_id n) w'.invites) (sym next)
        (subst (All (IsBelow invite_id w.next_id)) (sym rows) s.below);
  distinct = subst (HasDistinctIds invite_id) (sym rows) s.distinct;
}
Change-IsSound deps w w' s (inserted user_id hash scope names expires_at i h) =
    insert-IsSound deps i w w' s
      (insert_invite-Inserted user_id hash scope names expires_at i w w' h)
Change-IsSound deps w w' s (claimed hash peer_id name request_id i found opened unused rows next) =
    let row = All-find (λ j. j.token_hash == hash) (IsSoundRow deps) w.invites i s.rows found in
    update-IsSound deps w w' i (claim peer_id name request_id) s
      (find-find_id invite_id (λ j. j.token_hash == hash) w.invites i s.distinct found) (λ j. refl)
      (record {
        unasked = λ e. absurd (ground arith);
        sound = λ jwt h. let (is_approved, _) = row.sound jwt h in absurd (ground arith);
      })
      rows next
Change-IsSound deps w w' s (granted id i jwt found waits signature rows next) =
    update-IsSound deps w w' i (grant jwt) s
      (find-find_id invite_id (λ j. nat_eq j.id id) w.invites i s.distinct found) (λ j. refl)
      (record {
        unasked = λ e. absurd (ground arith);
        sound = λ other h. (
          refl,
          subst (IsSigned deps (grant jwt i)) (ground arith) (IsSigned-grant deps i jwt signature),
        );
      })
      rows next
Change-IsSound deps w w' s (refused id i found rows next) =
    update-IsSound deps w w' i refuse s
      (find-find_id invite_id (λ j. nat_eq j.id id) w.invites i s.distinct found) (λ j. refl)
      (record { unasked = λ e. absurd (ground arith); sound = λ jwt h. absurd (ground arith) }) rows
      next
Change-IsSound deps w w' s (handed request_id i found is_approved rows next) =
    update-IsSound deps w w' i deliver s
      (find-find_id invite_id (λ j. opt_eq j.request_id (some request_id)) w.invites i s.distinct
        found)
      (λ j. refl)
      (record { unasked = λ e. absurd (ground arith); sound = λ jwt h. absurd (ground arith) }) rows
      next
