-- ===== src/Messages/Delete.antt =====
-- Deleting messages: `Message::delete` and `Message::bulk_delete`
-- (crates/core/database/src/models/messages/model.rs) and the route
-- crates/delta/src/routes/channels/message_delete.rs.
use dawnchat_api.Prelude.{
  not, some, List, [], ◌∷◌, ◌++◌, map, String, ◌==◌, string_eq, if◌then◌else◌,
}
use dawnchat_api.Errors.{ok, err}
use dawnchat_api.Permissions.Flags.{ChannelPermission}
use dawnchat_api.Permissions.Value.{throw_if_lacking_channel_permission}
use dawnchat_api.Models.{User, is_empty}
use dawnchat_api.Messages.Model.{Message}
use dawnchat_api.Messages.World.{Action, Event, pure, lift, publish, ◌>>=◌, ◌>>◌}
use dawnchat_api.Messages.Store.{
  mark_attachments_as_deleted, delete_message, delete_messages, fetch_messages_by_id,
}
use dawnchat_api.Messages.Checks.{or_empty}
use dawnchat_api.Messages.Reactions.{write}
use dawnchat_api.Messages.Routes.{Routes, as_message_in_channel, permissions_in}

-- The messages of the channel.
unfoldable pub ids_in : String → List Message → List String
ids_in channel [] = []
ids_in channel (m ∷ ms) =
    if m.channel == channel then m.id ∷ ids_in channel ms else ids_in channel ms

module _ {C : Type 0} where
  -- The attachments are marked, if there are any.
  unfoldable pub mark_attachments : List String → Action C (Unit {0})
  unfolding mark_attachments_as_deleted
  mark_attachments ids w =
      if is_empty ids then some (ok tt, w) else elim (mark_attachments_as_deleted w.files ids) [
        | err e ↦ some (err e, w)
        | ok files ↦ some (ok tt, record w { files = files })
      ]

  -- `Message::delete`.
  unfoldable pub delete : Message → Action C (Unit {0})
  unfolding mark_attachments delete_message write
  delete self =
      mark_attachments (map (λ file. file.id) (or_empty self.attachments))
      >> write (λ messages. delete_message messages self.id)
      >> publish (Event.message_delete self.channel self.id self.channel)

  -- `Message::bulk_delete`.
  unfoldable pub bulk_delete : String → List String → Action C (Unit {0})
  unfolding fetch_messages_by_id ids_in delete_messages
  bulk_delete channel ids w = elim (fetch_messages_by_id w.messages ids) [
    | err e ↦ some (err e, w)
    | ok messages ↦
        let valid = ids_in channel messages in
        some (
          ok tt,
          record w {
            messages = delete_messages w.messages channel valid;
            events = w.events ++ Event.bulk_message_delete channel channel valid ∷ [];
          },
        )
  ]

  -- Another's message needs `ManageMessages`.
  unfoldable pub check_author : Routes → User → String → Message → Action C (Unit {0})
  unfolding permissions_in throw_if_lacking_channel_permission
  check_author ctx user target message =
      if not (message.author == user.id)
      then (do
        channel ← lift (ctx.fetch_channel target)
        permissions ← permissions_in ctx user channel
        lift (throw_if_lacking_channel_permission permissions ChannelPermission.manage_messages))
      else pure tt

  -- `delete`, the route.
  unfoldable pub delete_route : Routes → User → String → String → Action C (Unit {0})
  unfolding as_message_in_channel check_author delete
  delete_route ctx user target msg = do
    message ← as_message_in_channel msg target
    check_author ctx user target message
    delete message
