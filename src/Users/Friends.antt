-- ===== src/Users/Friends.antt =====
-- Friend requests and blocks between two users.
use dawnchat_api.Prelude.{ℕ, Bool, true, false, [], ◌∷◌, ◌++◌, ◌≡◌, refl, inl, inr, leb, Bool-cases}
use dawnchat_api.Errors.{Result, ok, err}
use dawnchat_api.Models.{RelationshipStatus}
use dawnchat_api.Users.Relations.{relationship_with, outgoing_requests}
use dawnchat_api.Users.Scene.{
  Scene, Event, Action, friend_request_received, friend_request_accepted, apply_relationship,
  request_friend, accept_friend, add_friend_as, add_friend, remove_friend_as, remove_friend,
  block_user_as, block_user, unblock_remote, unblock_user_as, unblock_user,
}
use dawnchat_api.Users.Lookup.{stored}
use dawnchat_api.Users.Apply.{InSync, apply_relationship-Related}

-- The relationship of one user to the other fits the other's to the first.
abbrev pub mirrors : RelationshipStatus → RelationshipStatus → Bool
mirrors RelationshipStatus.none RelationshipStatus.none = true
mirrors RelationshipStatus.friend RelationshipStatus.friend = true
mirrors RelationshipStatus.outgoing RelationshipStatus.incoming = true
mirrors RelationshipStatus.incoming RelationshipStatus.outgoing = true
mirrors RelationshipStatus.blocked RelationshipStatus.blocked_other = true
mirrors RelationshipStatus.blocked_other RelationshipStatus.blocked = true
mirrors RelationshipStatus.blocked RelationshipStatus.blocked = true
mirrors _ _ = false

-- Two stored users whose relationships fit one another.
pub record IsPair (s : Scene) : Type 0 where
  pub in_sync : InSync s
  pub mirrored :
      mirrors (relationship_with s.self s.target.id) (relationship_with s.target s.self.id) ≡ true

-- A call that succeeds leaves a pair of the same users, and one that fails changes nothing.
abbrev pub Keeps : Scene → Result (Unit {0}) × Scene → Type 0
Keeps s (ok _, s') = IsPair s' × (s'.self.id ≡ s.self.id) × (s'.target.id ≡ s.target.id)
Keeps s (err e, s') = s' ≡ s

apply-Keeps :
    (s : Scene) (local remote : RelationshipStatus)
    → InSync s
    → mirrors (stored local) (stored remote) ≡ true
    → Keeps s (apply_relationship local remote s)
apply-Keeps s local remote h m =
    let (s', e, r, _) = apply_relationship-Related s local remote h in
    rw e (
      record { in_sync = r.in_sync; mirrored = rw (r.local_is, r.remote_is) m },
      r.same_self,
      r.same_target,
    )

-- The same after an event has been published.
announced : Scene → Event → Scene
announced s e = record s { events = s.events ++ e ∷ [] }

announced-Keeps :
    (s : Scene) (e : Event) (local remote : RelationshipStatus)
    → InSync s
    → mirrors (stored local) (stored remote) ≡ true
    → Keeps s (apply_relationship local remote (announced s e))
unfolding announced
announced-Keeps s e local remote h m =
    let s0 : Scene = announced s e in
    let (s', e, r, _) = apply_relationship-Related s0 local remote (record {
      distinct = h.distinct;
      self_stored = h.self_stored;
      target_stored = h.target_stored;
    }) in
    rw e (
      record { in_sync = r.in_sync; mirrored = rw (r.local_is, r.remote_is) m },
      r.same_self,
      r.same_target,
    )

add_friend_as-Keeps :
    (max : ℕ) (r : RelationshipStatus) (s : Scene) → InSync s → Keeps s (add_friend_as max r s)
unfolding add_friend_as request_friend accept_friend announced
add_friend_as-Keeps max RelationshipStatus.none s h =
    elim (Bool-cases (leb max (outgoing_requests s.self))) [
      | inl full ↦ rw full refl
      | inr free ↦ rw free (
          announced-Keeps s (friend_request_received s.target.id s.self.id)
            RelationshipStatus.outgoing RelationshipStatus.incoming h refl)
    ]
add_friend_as-Keeps max RelationshipStatus.incoming s h =
    announced-Keeps s (friend_request_accepted s.self.id s.target.id) RelationshipStatus.friend
      RelationshipStatus.friend h refl
add_friend_as-Keeps max RelationshipStatus.user s h = refl
add_friend_as-Keeps max RelationshipStatus.friend s h = refl
add_friend_as-Keeps max RelationshipStatus.outgoing s h = refl
add_friend_as-Keeps max RelationshipStatus.blocked s h = refl
add_friend_as-Keeps max RelationshipStatus.blocked_other s h = refl

remove_friend_as-Keeps :
    (r : RelationshipStatus) (s : Scene) → InSync s → Keeps s (remove_friend_as r s)
unfolding remove_friend_as
remove_friend_as-Keeps RelationshipStatus.friend s h = apply-Keeps s _ _ h refl
remove_friend_as-Keeps RelationshipStatus.outgoing s h = apply-Keeps s _ _ h refl
remove_friend_as-Keeps RelationshipStatus.incoming s h = apply-Keeps s _ _ h refl
remove_friend_as-Keeps _ s h = refl

block_user_as-Keeps : (r : RelationshipStatus) (s : Scene) → InSync s → Keeps s (block_user_as r s)
unfolding block_user_as
block_user_as-Keeps RelationshipStatus.user s h = refl
block_user_as-Keeps RelationshipStatus.blocked s h = refl
block_user_as-Keeps _ s h = apply-Keeps s _ _ h refl

unblock_user_as-Keeps :
    (l r : RelationshipStatus) (s : Scene) → InSync s → Keeps s (unblock_user_as l r s)
unfolding unblock_user_as unblock_remote
unblock_user_as-Keeps RelationshipStatus.blocked RelationshipStatus.blocked s h =
    apply-Keeps s _ _ h refl
unblock_user_as-Keeps RelationshipStatus.blocked RelationshipStatus.blocked_other s h =
    apply-Keeps s _ _ h refl
unblock_user_as-Keeps RelationshipStatus.blocked _ s h = refl
unblock_user_as-Keeps _ r s h = refl

-- The four calls.
pub data Request : Type 0 where
  add : ℕ → Request
  remove block unblock : Request

abbrev pub perform : Request → Action
perform (add max) = add_friend max
perform remove = remove_friend
perform block = block_user
perform unblock = unblock_user

-- On two different stored users, a call that adds, removes, blocks or unblocks either succeeds and
-- leaves them stored as they are in memory, with relationships that fit one another (none and none,
-- friends, a request sent and received, a block on one side or on both), or it fails and changes
-- neither the users nor the store and publishes nothing.
pub perform-Keeps : (q : Request) (s : Scene) → InSync s → Keeps s (perform q s)
unfolding add_friend remove_friend block_user unblock_user
perform-Keeps (add max) s h = add_friend_as-Keeps max _ s h
perform-Keeps remove s h = remove_friend_as-Keeps _ s h
perform-Keeps block s h = block_user_as-Keeps _ s h
perform-Keeps unblock s h = unblock_user_as-Keeps _ _ s h
