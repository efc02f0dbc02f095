-- ===== src/Users/Scene.antt =====
-- A call of one of the methods on relationships (crates/core/database/src/models/users/model.rs):
-- the user `self` and the user `target`, both in memory and changed in place, the store, and the
-- events that were published. A failed call keeps what was written before it failed.
use dawnchat_api.Prelude.{ℕ, List, [], ◌∷◌, ◌++◌, String, leb, if◌then◌else◌}
use dawnchat_api.Errors.{ErrorType, Result, ok, err}
use dawnchat_api.Models.{RelationshipStatus, User}
use dawnchat_api.Users.Relations.{
  Users, relationship_with, with_relation, store_relationship, outgoing_requests,
}

-- `EventV1::UserRelationship` sent to a private topic (topic, id, and the user before its conversion
-- to the API's form), and the two messages to the
-- push daemon (from, to).
pub data Event : Type 0 where
  user_relationship : String → String → User → Event
  friend_request_accepted friend_request_received : String → String → Event

pub record Scene : Type 0 where
  pub self : User
  pub target : User
  pub users : Users
  pub events : List Event

abbrev pub Action : Type 0
Action = Scene → Result (Unit {0}) × Scene

abbrev pub fail : ErrorType → Action
fail e s = (err e, s)

infixl 5 ◌>>◌
abbrev pub ◌>>◌ : Action → Action → Action
◌>>◌ m k s = let (r, s') = m s in elim r [ ok _ ↦ k s' | err e ↦ (err e, s') ]

-- `publish`: sending is not modelled further; its outcome is not looked at.
abbrev pub publish : (Scene → Event) → Action
publish f s = (ok tt, record s { events = s.events ++ f s ∷ [] })

-- `target.set_relationship(db, self, remote)`.
unfoldable pub set_remote : RelationshipStatus → Action
unfolding store_relationship with_relation
set_remote remote s = elim (store_relationship s.users s.target.id s.self.id remote) [
  | err e ↦ (err e, s)
  | ok users ↦ (ok tt, record s { users = users; target = with_relation s.target s.self.id remote })
]

-- `self.set_relationship(db, target, local)`.
unfoldable pub set_local : RelationshipStatus → Action
unfolding store_relationship with_relation
set_local local s = elim (store_relationship s.users s.self.id s.target.id local) [
  | err e ↦ (err e, s)
  | ok users ↦ (ok tt, record s { users = users; self = with_relation s.self s.target.id local })
]

-- `User::apply_relationship`.
unfoldable pub apply_relationship : RelationshipStatus → RelationshipStatus → Action
apply_relationship local remote =
    set_remote remote
    >> set_local local
    >> publish (λ s. user_relationship s.target.id s.target.id s.self)
    >> publish (λ s. user_relationship s.self.id s.self.id s.target)

-- The arm of `add_friend` for two unrelated users, at the limit on outgoing friend requests.
unfoldable pub request_friend : ℕ → Action
request_friend max s =
    if leb max (outgoing_requests s.self)
    then (err (ErrorType.too_many_pending_friend_requests max), s)
    else (publish (λ s. friend_request_received s.target.id s.self.id)
          >> apply_relationship RelationshipStatus.outgoing RelationshipStatus.incoming)
        s

unfoldable pub accept_friend : Action
accept_friend =
    publish (λ s. friend_request_accepted s.self.id s.target.id)
    >> apply_relationship RelationshipStatus.friend RelationshipStatus.friend

-- `User::add_friend`; the limit is `self.limits().outgoing_friend_requests`.
unfoldable pub add_friend_as : ℕ → RelationshipStatus → Action
add_friend_as max RelationshipStatus.user = fail ErrorType.no_effect
add_friend_as max RelationshipStatus.friend = fail ErrorType.already_friends
add_friend_as max RelationshipStatus.outgoing = fail ErrorType.already_sent_request
add_friend_as max RelationshipStatus.blocked = fail ErrorType.blocked
add_friend_as max RelationshipStatus.blocked_other = fail ErrorType.blocked_by_other
add_friend_as max RelationshipStatus.incoming = accept_friend
add_friend_as max RelationshipStatus.none = request_friend max

unfoldable pub add_friend : ℕ → Action
add_friend max s = add_friend_as max (relationship_with s.self s.target.id) s

-- `User::remove_friend`.
unfoldable pub remove_friend_as : RelationshipStatus → Action
remove_friend_as RelationshipStatus.friend =
    apply_relationship RelationshipStatus.none RelationshipStatus.none
remove_friend_as RelationshipStatus.outgoing =
    apply_relationship RelationshipStatus.none RelationshipStatus.none
remove_friend_as RelationshipStatus.incoming =
    apply_relationship RelationshipStatus.none RelationshipStatus.none
remove_friend_as _ = fail ErrorType.no_effect

unfoldable pub remove_friend : Action
remove_friend s = remove_friend_as (relationship_with s.self s.target.id) s

-- `User::block_user`.
unfoldable pub block_user_as : RelationshipStatus → Action
block_user_as RelationshipStatus.user = fail ErrorType.no_effect
block_user_as RelationshipStatus.blocked = fail ErrorType.no_effect
block_user_as RelationshipStatus.blocked_other =
    apply_relationship RelationshipStatus.blocked RelationshipStatus.blocked
block_user_as _ = apply_relationship RelationshipStatus.blocked RelationshipStatus.blocked_other

unfoldable pub block_user : Action
block_user s = block_user_as (relationship_with s.self s.target.id) s

-- `User::unblock_user`, by both relationships.
unfoldable pub unblock_remote : RelationshipStatus → Action
unblock_remote RelationshipStatus.blocked =
    apply_relationship RelationshipStatus.blocked_other RelationshipStatus.blocked
unblock_remote RelationshipStatus.blocked_other =
    apply_relationship RelationshipStatus.none RelationshipStatus.none
unblock_remote _ = fail ErrorType.internal_error

unfoldable pub unblock_user_as : RelationshipStatus → RelationshipStatus → Action
unblock_user_as RelationshipStatus.blocked remote = unblock_remote remote
unblock_user_as _ remote = fail ErrorType.no_effect

unfoldable pub unblock_user : Action
unblock_user s =
    unblock_user_as (relationship_with s.self s.target.id) (relationship_with s.target s.self.id) s
