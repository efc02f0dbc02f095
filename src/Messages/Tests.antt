-- ===== src/Messages/Tests.antt =====
-- A message to a channel of a small server, its deletion, and a reaction to it.
use dawnchat_api.Prelude.{
  ◌≤◌, max, ◌||◌, ◌==◌, ◌≢◌, ◌⊎◌, inl, string_eq, true, false, Option, none, some, List, [], ◌∷◌,
  String, ◌≡◌, refl,
}
use dawnchat_api.Errors.{ok}
use dawnchat_api.Bits.{bit}
use dawnchat_api.Models.{length, Channel, contains}
use dawnchat_api.BulkPermissions.Sample.{user_of, talk, store}
use dawnchat_api.Messages.Model.{Message, MessageAuthor}
use dawnchat_api.Messages.Mentions.{from_api}
use dawnchat_api.Messages.Flags.{has_suppressed_notifications}
use dawnchat_api.Models.{length, get}
use dawnchat_api.Permissions.Value.{has_channel_permission}
use dawnchat_api.Permissions.Calculate.{calculate_channel_permissions}
use dawnchat_api.Permissions.Flags.{ChannelPermission}
use dawnchat_api.Permissions.Value.{PermissionValue, has_channel_permission}
use dawnchat_api.Permissions.Calculate.{calculate_channel_permissions}
use dawnchat_api.DatabaseQuery.State
use dawnchat_api.DatabaseQuery.Methods.{database_query}
use dawnchat_api.Messages.Store.{remove_key}
use dawnchat_api.Messages.Outcome.{Outcome, create_from_api-Outcome}
use dawnchat_api.Messages.UserMentions.{MayBeMentioned, mentions-MayBeMentioned}
use dawnchat_api.Messages.MassMentions.{mass_mention_permitted}
use dawnchat_api.Messages.FlagBits.{never_suppressed}
use dawnchat_api.Messages.ReplyLists.{IsDistinct, replies-IsDistinct}
use dawnchat_api.Messages.Reactions.{can_use, add_reaction, remove_reaction}
use dawnchat_api.Messages.Reacting.{add_reaction_recorded, removal_of_last_wipes}
use dawnchat_api.Messages.Delete.{bulk_delete, delete_route}
use dawnchat_api.Messages.Deletion.{MayManage, delete_route_allowed, bulk_delete_clears_channel}
use dawnchat_api.Messages.Sample.{
  tokens, admin, context, hello, limits, earlier, world, sent_message, after, sent, emojis, routes,
  without_earlier, bulk_deleted, elsewhere, two_channels, reacted, with_heart, wiped,
  bulk_store-IsConsistent,
}

create_from_api-Outcome_example :
    Outcome
      (Channel.text_channel talk)
      (MessageAuthor.user admin)
      false
      world
      (ok sent_message)
      after
create_from_api-Outcome_example =
    create_from_api-Outcome context (Channel.text_channel talk) (MessageAuthor.user admin) false
      tokens "m1" hello (some admin) limits "key" true world (ok sent_message) after sent

mentions-MayBeMentioned_example : MayBeMentioned context (Channel.text_channel talk) "bob"
unfolding contains
mentions-MayBeMentioned_example =
    mentions-MayBeMentioned context (Channel.text_channel talk) (MessageAuthor.user admin) tokens
      "m1" hello (some admin) limits "key" false true world sent_message after sent
      bulk_store-IsConsistent ("bob" ∷ []) "bob" refl refl

mass_mention_permitted_example :
    (context.mass_mentions_enabled ≡ true)
    × (perms : PermissionValue) × (q : State.State) × (calculate_channel_permissions
          (database_query store 5)
          (State.with_channel (State.new (from_api admin)) (Channel.text_channel talk))
        ≡ some (perms, q))
    × ((bit 6 2 || bit 6 3) ≡ true
        → has_channel_permission perms ChannelPermission.mention_everyone ≡ true)
    × (◌≢◌ {A = Option (List String)} none none
        → has_channel_permission perms ChannelPermission.mention_roles ≡ true)
unfolding bit
mass_mention_permitted_example =
    mass_mention_permitted context (Channel.text_channel talk) admin tokens "m1" hello (some admin)
      limits "key" false true world sent_message after sent 6 refl (inl refl)

never_suppressed_example : has_suppressed_notifications sent_message ≡ false
never_suppressed_example =
    never_suppressed context (Channel.text_channel talk) (MessageAuthor.user admin) tokens "m1"
      hello (some admin) limits "key" false true world sent_message after sent

replies-IsDistinct_example : IsDistinct ("m0" ∷ []) × (length {A = String} ("m0" ∷ []) ≤ 5)
replies-IsDistinct_example =
    replies-IsDistinct context (Channel.text_channel talk) (MessageAuthor.user admin) tokens "m1"
      hello (some admin) limits "key" false true world sent_message after sent ("m0" ∷ []) refl

delete_route_allowed_example :
    (m : Message) × (get world.messages "m0" ≡ some m)
    × (m.channel ≡ "talk")
    × ((m.author ≡ "bob") ⊎ MayManage routes (user_of "bob") "talk")
    × (without_earlier.messages ≡ remove_key m.id world.messages)
unfolding delete_route
delete_route_allowed_example =
    delete_route_allowed routes (user_of "bob") "talk" "m0" world without_earlier refl

-- One of the two messages of the channel is named; only the message of the other channel is left.
bulk_delete_clears_channel_example : (elsewhere.channel == "talk") ≡ false
unfolding bulk_delete get
bulk_delete_clears_channel_example =
    bulk_delete_clears_channel "talk" ("m0" ∷ []) two_channels bulk_deleted refl "m9" elsewhere refl

add_reaction_recorded_example :
    (can_use earlier.interactions "heart" ≡ true)
    × (m : Message) × (users : List String) × (get with_heart.messages "m0" ≡ some m)
    × (get m.reactions "heart" ≡ some users)
    × (contains users "bob" ≡ true)
    × (length m.reactions ≤ max 20 (length earlier.reactions))
unfolding add_reaction get
add_reaction_recorded_example =
    add_reaction_recorded emojis earlier "bob" "heart" world with_heart refl refl

removal_of_last_wipes_example :
    (m : Message) × (get wiped.messages "m0" ≡ some m) × (get m.reactions "heart" ≡ none)
unfolding remove_reaction get
removal_of_last_wipes_example =
    removal_of_last_wipes earlier reacted "ann" "heart" with_heart wiped refl refl (refl, tt) refl
