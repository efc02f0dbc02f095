-- ===== src/BulkPermissions/Tests.antt =====
-- The bulk calculation for the only member of a server.
use dawnchat_api.Prelude.{Option, some, [], ◌∷◌, String, Bool, ◌≡◌, refl, inl, inr}
use dawnchat_api.Models.{Channel}
use dawnchat_api.BulkPermissions.Query.{BulkQuery, new, with_channel, with_members}
use dawnchat_api.BulkPermissions.Calculate.{members_can_see_channel, member_of}
use dawnchat_api.BulkPermissions.Agreement.{IsOnlyOne, IsShown, members_can_see_channel-IsShown}
use dawnchat_api.BulkPermissions.Sample.{user_of, home, talk, bob_member, store, bulk_store}

bob_only : IsOnlyOne (user_of "bob") (user_of "bob" ∷ [])
bob_only w (inl e) same = e
bob_only w (inr e) same = absurd e

members_can_see_channel-IsShown_example :
    (seen : String → Option Bool) × (q : BulkQuery) × (members_can_see_channel bulk_store 5
        (with_members (with_channel (new home) (Channel.text_channel talk)) (bob_member ∷ []))
      ≡ some (seen, q))
    × IsShown store 5 talk home (user_of "bob") (member_of (bob_member ∷ []) "bob") (seen "bob")
members_can_see_channel-IsShown_example =
    members_can_see_channel-IsShown store 5 talk home (user_of "bob") bulk_store (bob_member ∷ [])
      (user_of "bob" ∷ []) refl refl (inl refl) bob_only
