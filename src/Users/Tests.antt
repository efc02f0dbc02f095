-- ===== src/Users/Tests.antt =====
-- Two users with an empty list of relationships each.
use dawnchat_api.Prelude.{
  false, none, some, [], String, ◌≡◌, refl, ◌≢◌, ◌⊎◌, arith, ne_of_test, ◌==◌, string_eq,
  if◌then◌else◌,
}
use dawnchat_api.Errors.{ErrorType, ok, err}
use dawnchat_api.Models.{RelationshipStatus, User}
use dawnchat_api.Users.Relations.{relationship_with, outgoing_requests}
use dawnchat_api.Users.Scene.{Scene, add_friend, block_user}
use dawnchat_api.Users.Lookup.{Stores, store_relationship-Stores}
use dawnchat_api.Users.Apply.{InSync}
use dawnchat_api.Users.Friends.{IsPair, Request, perform, Keeps, perform-Keeps}
use dawnchat_api.Users.Exchange.{swapped, friends_by_two_calls, blocked_cannot_request}

abbrev user_of : String → User
user_of id = record {
  id = id;
  username = id;
  discriminator = "0001";
  display_name = none;
  relations = some [];
  privileged = false;
  bot = none;
  suspended_until = none;
}

abbrev scene : Scene
scene = record {
  self = user_of "ada";
  target = user_of "bob";
  users = λ id.
      if id == "ada"
      then some (user_of "ada")
      else if id == "bob"
      then some (user_of "bob")
      else none;
  events = [];
}

apart : ◌≢◌ {A = String} "ada" "bob"
apart = ne_of_test "ada" "bob" refl

scene-InSync : InSync scene
scene-InSync = record { distinct = apart; self_stored = refl; target_stored = refl }

scene-IsPair : IsPair scene
unfolding relationship_with
scene-IsPair = record { in_sync = scene-InSync; mirrored = refl }

perform-Keeps_example : Keeps scene (perform Request.block scene)
perform-Keeps_example = perform-Keeps Request.block scene scene-InSync

friends_by_two_calls_example :
    (s1 : Scene) × (s2 : Scene) × (add_friend 5 scene ≡ (ok tt, s1))
    × (add_friend 6 (swapped s1) ≡ (ok tt, s2))
    × (relationship_with s2.self s2.target.id ≡ RelationshipStatus.friend)
    × (relationship_with s2.target s2.self.id ≡ RelationshipStatus.friend)
unfolding relationship_with outgoing_requests
friends_by_two_calls_example = friends_by_two_calls 5 6 scene scene-InSync refl (omega arith)

unrelated : relationship_with (user_of "ada") "bob" ≡ RelationshipStatus.none
unfolding relationship_with
unrelated = refl

blocked_cannot_request_example :
    (s1 : Scene) × (e : ErrorType) × (block_user scene ≡ (ok tt, s1))
    × (relationship_with s1.self s1.target.id ≡ RelationshipStatus.blocked)
    × (add_friend 5 (swapped s1) ≡ (err e, swapped s1))
    × ((e ≡ ErrorType.blocked) ⊎ (e ≡ ErrorType.blocked_by_other))
blocked_cannot_request_example =
    blocked_cannot_request 5 scene scene-InSync (λ e. cc unrelated) (λ e. cc unrelated)

store_relationship-Stores_example :
    Stores scene.users (user_of "ada") "bob" RelationshipStatus.blocked
store_relationship-Stores_example =
    store_relationship-Stores scene.users (user_of "ada") "bob" RelationshipStatus.blocked refl
