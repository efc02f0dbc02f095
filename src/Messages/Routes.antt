-- ===== src/Messages/Routes.antt =====
-- The routes that react to a message, take reactions back or delete a message
-- (crates/delta/src/routes/channels/message_react.rs, message_unreact.rs and message_delete.rs), with
-- `Message::delete` (crates/core/database/src/models/messages/model.rs) and
-- `Reference::as_message_in_channel` (crates/core/database/src/util/reference.rs).
use dawnchat_api.Prelude.{ℕ, Bool, ◌||◌, Option, none, some, String, ◌==◌, string_eq, if◌then◌else◌}
use dawnchat_api.Errors.{ErrorType, Result, ok, err}
use dawnchat_api.Permissions.Flags.{ChannelPermission}
use dawnchat_api.Permissions.Value.{PermissionValue, throw_if_lacking_channel_permission}
use dawnchat_api.Permissions.Calculate.{calculate_channel_permissions}
use dawnchat_api.Models.{User, Channel, Database}
use dawnchat_api.DatabaseQuery.State
use dawnchat_api.DatabaseQuery.Methods.{database_query}
use dawnchat_api.Messages.Model.{Message}
use dawnchat_api.Messages.Flags.{is_some}
use dawnchat_api.Messages.World.{Action, pure, lift, ◌>>=◌, ◌>>◌}
use dawnchat_api.Messages.Store.{fetch_message}
use dawnchat_api.Messages.Mentions.{or_false}
use dawnchat_api.Messages.Build.{channel_id}
use dawnchat_api.Messages.Reactions.{Emojis, add_reaction, remove_reaction, clear_reaction}

-- What the routes read and do not change.
pub record Routes : Type 0 where
  pub now : ℕ
  pub database : Database
  pub fetch_channel : String → Result Channel
  pub emojis : Emojis

-- `options.user_id.as_ref().unwrap_or(&user.id)`.
abbrev pub or_self : Option String → String → String
or_self none id = id
or_self (some other) id = other

module _ {C : Type 0} where
  -- `Reference::as_message_in_channel`.
  unfoldable pub as_message_in_channel : String → String → Action C Message
  unfolding fetch_message
  as_message_in_channel id channel w = elim (fetch_message w.messages id) [
    | err e ↦ some (err e, w)
    | ok message ↦
        if message.channel == channel
        then some (ok message, w)
        else some (err ErrorType.not_found, w)
  ]

  -- The permissions of the user in the channel.
  unfoldable pub permissions_in : Routes → User → Channel → Action C PermissionValue
  unfolding calculate_channel_permissions State.with_channel State.new
  permissions_in ctx user channel w =
      elim (calculate_channel_permissions (database_query ctx.database ctx.now)
        (State.with_channel (State.new user) channel)) [
          | none ↦ none
          | some (permissions, query) ↦ some (ok permissions, w)
        ]

  -- `throw_if_lacking_channel_permission`.
  abbrev require : PermissionValue → ChannelPermission → Action C (Unit {0})
  require permissions p = lift (throw_if_lacking_channel_permission permissions p)

  -- `react_message`.
  unfoldable pub react_message : Routes → User → String → String → String → Action C (Unit {0})
  unfolding permissions_in throw_if_lacking_channel_permission as_message_in_channel channel_id
      add_reaction
  react_message ctx user target msg emoji = do
    channel ← lift (ctx.fetch_channel target)
    permissions ← permissions_in ctx user channel
    require permissions ChannelPermission.react
    message ← as_message_in_channel msg (channel_id channel)
    add_reaction ctx.emojis message user.id emoji

  -- `unreact_message`, with the options `user_id` and `remove_all`.
  unfoldable pub unreact_message :
      Routes → User → String → String → String → Option String → Option Bool → Action C (Unit {0})
  unfolding permissions_in throw_if_lacking_channel_permission as_message_in_channel channel_id
      clear_reaction remove_reaction
  unreact_message ctx user target msg emoji user_id remove_all = do
    channel ← lift (ctx.fetch_channel target)
    permissions ← permissions_in ctx user channel
    require permissions ChannelPermission.react
    if is_some user_id || or_false remove_all
        then require permissions ChannelPermission.manage_messages
        else pure tt
    message ← as_message_in_channel msg (channel_id channel)
    if or_false remove_all
        then clear_reaction message emoji
        else remove_reaction message (or_self user_id user.id) emoji
