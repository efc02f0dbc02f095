-- ===== src/Users/Exchange.antt =====
-- What one user's call means for the other user's next call.
use dawnchat_api.Prelude.{
  ℕ, ◌<◌, true, false, List, [], ◌∷◌, ◌++◌, ◌≡◌, refl, ◌≢◌, ◌⊎◌, inl, inr, sym, ap, arith, leb,
}
use dawnchat_api.Errors.{ErrorType, Result, ok, err}
use dawnchat_api.Models.{RelationshipStatus}
use dawnchat_api.Users.Relations.{relationship_with, outgoing_requests}
use dawnchat_api.Users.Scene.{
  Scene, Event, friend_request_received, friend_request_accepted, request_friend, accept_friend,
  add_friend_as, add_friend, block_user_as, block_user, unblock_remote, unblock_user_as,
  unblock_user,
}
use dawnchat_api.Users.Apply.{InSync, Related, apply_relationship-Related}
use dawnchat_api.Users.Friends.{IsPair, mirrors}

-- The other user makes the next call.
abbrev pub swapped : Scene → Scene
swapped s = record s { self = s.target; target = s.self }

swapped-InSync : {s : Scene} → InSync s → InSync (swapped s)
swapped-InSync h = record {
  distinct = λ e. h.distinct (sym e);
  self_stored = h.target_stored;
  target_stored = h.self_stored;
}

announced-InSync : {s : Scene} (es : List Event) → InSync s → InSync (record s { events = es })
announced-InSync es h = record {
  distinct = h.distinct;
  self_stored = h.self_stored;
  target_stored = h.target_stored;
}

-- The call succeeds and leaves these relationships.
abbrev pub Leaves :
    Scene → Result (Unit {0}) × Scene → RelationshipStatus → RelationshipStatus → Type 0
Leaves s r local remote = (s' : Scene) × (r ≡ (ok tt, s')) × Related s s' local remote

requested :
    (max : ℕ) (s : Scene)
    → InSync s
    → relationship_with s.self s.target.id ≡ RelationshipStatus.none
    → outgoing_requests s.self < max
    → Leaves s (add_friend max s) RelationshipStatus.outgoing RelationshipStatus.incoming
unfolding add_friend add_friend_as request_friend
requested max s h unrelated free =
    let open_yet : leb max (outgoing_requests s.self) ≡ false = ground arith in
    let es : List Event = s.events ++ friend_request_received s.target.id s.self.id ∷ [] in
    let (s', e, r, _) =
      apply_relationship-Related (record s { events = es }) RelationshipStatus.outgoing
        RelationshipStatus.incoming (announced-InSync es h) in
    (
      s',
      rw unrelated (rw open_yet e),
      record {
        in_sync = r.in_sync;
        same_self = r.same_self;
        same_target = r.same_target;
        local_is = r.local_is;
        remote_is = r.remote_is;
      },
    )

accepted :
    (max : ℕ) (s : Scene)
    → InSync s
    → relationship_with s.self s.target.id ≡ RelationshipStatus.incoming
    → Leaves s (add_friend max s) RelationshipStatus.friend RelationshipStatus.friend
unfolding add_friend add_friend_as accept_friend
accepted max s h asked =
    let es : List Event = s.events ++ friend_request_accepted s.self.id s.target.id ∷ [] in
    let (s', e, r, _) =
      apply_relationship-Related (record s { events = es }) RelationshipStatus.friend
        RelationshipStatus.friend (announced-InSync es h) in
    (
      s',
      rw asked e,
      record {
        in_sync = r.in_sync;
        same_self = r.same_self;
        same_target = r.same_target;
        local_is = r.local_is;
        remote_is = r.remote_is;
      },
    )

-- Two unrelated users become friends by two calls: one asks while below the limit of outgoing
-- requests, then the other asks back, which accepts; neither call fails.
pub friends_by_two_calls :
    (max max' : ℕ) (s : Scene)
    → InSync s
    → relationship_with s.self s.target.id ≡ RelationshipStatus.none
    → outgoing_requests s.self < max
    → (s1 : Scene) × (s2 : Scene) × (add_friend max s ≡ (ok tt, s1))
      × (add_friend max' (swapped s1) ≡ (ok tt, s2))
      × (relationship_with s2.self s2.target.id ≡ RelationshipStatus.friend)
      × (relationship_with s2.target s2.self.id ≡ RelationshipStatus.friend)
friends_by_two_calls max max' s h unrelated free =
    let (s1, e1, r1) = requested max s h unrelated free in
    let (s2, e2, r2) = accepted max' (swapped s1) (swapped-InSync r1.in_sync) r1.remote_is in
    (s1, s2, e1, e2, r2.local_is, r2.remote_is)

blocks :
    (r : RelationshipStatus) (s : Scene)
    → InSync s
    → r ≢ RelationshipStatus.user
    → r ≢ RelationshipStatus.blocked
    → Leaves s (block_user_as r s) RelationshipStatus.blocked RelationshipStatus.blocked_other
      ⊎ Leaves s (block_user_as r s) RelationshipStatus.blocked RelationshipStatus.blocked
unfolding block_user_as
blocks RelationshipStatus.user s h known new = absurd (known refl)
blocks RelationshipStatus.blocked s h known new = absurd (new refl)
blocks RelationshipStatus.blocked_other s h known new =
    let (s', e, r, _) =
      apply_relationship-Related s RelationshipStatus.blocked RelationshipStatus.blocked h in
    inr (s', e, r)
blocks _ s h known new =
    let (s', e, r, _) =
      apply_relationship-Related s RelationshipStatus.blocked RelationshipStatus.blocked_other h in
    inl (s', e, r)

refused :
    (max : ℕ) (s : Scene)
    → ((relationship_with s.self s.target.id ≡ RelationshipStatus.blocked_other)
        → add_friend max s ≡ (err ErrorType.blocked_by_other, s))
      × ((relationship_with s.self s.target.id ≡ RelationshipStatus.blocked)
          → add_friend max s ≡ (err ErrorType.blocked, s))
unfolding add_friend add_friend_as
refused max s = (λ e. rw e, λ e. rw e)

-- A user whose relationship to the other is neither `User` nor `Blocked` can block the other, and the
-- blocked user's next friend request is then refused as blocked, and changes nothing.
pub blocked_cannot_request :
    (max : ℕ) (s : Scene)
    → InSync s
    → relationship_with s.self s.target.id ≢ RelationshipStatus.user
    → relationship_with s.self s.target.id ≢ RelationshipStatus.blocked
    → (s1 : Scene) × (e : ErrorType) × (block_user s ≡ (ok tt, s1))
      × (relationship_with s1.self s1.target.id ≡ RelationshipStatus.blocked)
      × (add_friend max (swapped s1) ≡ (err e, swapped s1))
      × ((e ≡ ErrorType.blocked) ⊎ (e ≡ ErrorType.blocked_by_other))
unfolding block_user
blocked_cannot_request max s h known new = elim (blocks _ s h known new) [
  | inl (s1, e, r) ↦ (
    s1,
    ErrorType.blocked_by_other,
    e,
    r.local_is,
    (refused max (swapped s1)).0 r.remote_is,
    inr refl,
  )
  | inr (s1, e, r) ↦
      (s1, ErrorType.blocked, e, r.local_is, (refused max (swapped s1)).1 r.remote_is, inl refl)
]

unblocks :
    (l r : RelationshipStatus) (s : Scene)
    → InSync s
    → mirrors l r ≡ true
    → (unblock_user_as l r s).0 ≢ err ErrorType.internal_error
unfolding unblock_user_as unblock_remote
unblocks RelationshipStatus.blocked RelationshipStatus.blocked s h m =
    let (s', e, _, _) =
      apply_relationship-Related s RelationshipStatus.blocked_other RelationshipStatus.blocked h in
    λ x. cc (ap (λ p. p.0) e)
unblocks RelationshipStatus.blocked RelationshipStatus.blocked_other s h m =
    let (s', e, _, _) =
      apply_relationship-Related s RelationshipStatus.none RelationshipStatus.none h in
    λ x. cc (ap (λ p. p.0) e)
unblocks RelationshipStatus.blocked _ s h m = cc
unblocks _ r s h m = λ x. cc

-- On two stored users whose relationships fit one another, lifting a block never ends in an internal
-- error.
pub unblock-ne-internal : (s : Scene) → IsPair s → (unblock_user s).0 ≢ err ErrorType.internal_error
unfolding unblock_user
unblock-ne-internal s h =
    unblocks (relationship_with s.self s.target.id) (relationship_with s.target s.self.id) s
      h.in_sync h.mirrored
