-- ===== src/Messages/Send.antt =====
-- `Message::send`, `Message::send_without_notifications` and the attachments of a new message
-- (crates/core/database/src/models/messages/model.rs), on the reference database.
use dawnchat_api.Prelude.{
  Bool, not, ◌&&◌, ◌||◌, Option, none, some, List, [], ◌∷◌, ◌++◌, String, if◌then◌else◌,
}
use dawnchat_api.Errors.{ok, err}
use dawnchat_api.Models.{Channel}
use dawnchat_api.Messages.Model.{Message, SendableEmbed, Embed, File, MessageAuthor}
use dawnchat_api.Messages.Flags.{has_suppressed_notifications, contains_mass_push_mention, is_some}
use dawnchat_api.Messages.World.{Action, Event, pure, publish, ◌>>=◌, ◌>>◌}
use dawnchat_api.Messages.Checks.{or_empty}
use dawnchat_api.Messages.Build.{push_recipients, is_dm, is_dm_or_group}
use dawnchat_api.Messages.Store
use dawnchat_api.Messages.Store.{insert_message}

module _ {C : Type 0} where
  -- `db.insert_message`.
  unfoldable pub store_message : Message → Action C (Unit {0})
  unfolding insert_message
  store_message message w = elim (insert_message w.messages message) [
    | err e ↦ some (err e, w)
    | ok messages ↦ some (ok tt, record w { messages = messages })
  ]

  -- `File::use_attachment`.
  unfoldable pub use_attachment : String → String → String → Action C File
  unfolding Store.use_attachment
  use_attachment id parent uploader_id w =
      elim (Store.use_attachment w.files id parent uploader_id) [
        | err e ↦ some (err e, w)
        | ok (file, files) ↦ some (ok file, record w { files = files })
      ]

  -- The loop over the attachments.
  unfoldable pub use_attachments : List String → String → String → Action C (List File)
  unfolding use_attachment
  use_attachments [] parent uploader_id = pure []
  use_attachments (id ∷ ids) parent uploader_id = do
    file ← use_attachment id parent uploader_id
    files ← use_attachments ids parent uploader_id
    pure (file ∷ files)

  unfoldable pub use_media : Option String → Message → Action C (Option File)
  unfolding use_attachment
  use_media none self = pure none
  use_media (some id) self = do file ← use_attachment id self.id self.author; pure (some file)

  -- `Message::attach_sendable_embed`.
  unfoldable pub attach_sendable_embed : Message → SendableEmbed → Action C Message
  unfolding use_media
  attach_sendable_embed self embed = do
    media ← use_media embed.media self
    pure (record self {
      embeds = some (
          or_empty self.embeds
          ++ Embed.text (record {
            icon_url = embed.icon_url;
            url = embed.url;
            title = embed.title;
            description = embed.description;
            media = media;
            colour = embed.colour;
          })
            ∷ []);
    })

  -- The loop over the embeds.
  unfoldable pub attach_embeds : Message → List SendableEmbed → Action C Message
  unfolding attach_sendable_embed
  attach_embeds self [] = pure self
  attach_embeds self (embed ∷ embeds) = do
    self' ← attach_sendable_embed self embed
    attach_embeds self' embeds

  -- The embeds of the content are generated if it has any and that is asked for.
  unfoldable pub queue_embeds : Bool → Message → Action C (Unit {0})
  queue_embeds generate_embeds self = elim self.content [
    | none ↦ pure tt
    | some content ↦
        if generate_embeds
        then publish (Event.process_embeds self.channel self.id content)
        else pure tt
  ]

  -- `Message::send_without_notifications`, where the mentions are queued elsewhere.
  unfoldable pub send_without_notifications : Message → Bool → Bool → Action C (Unit {0})
  unfolding store_message queue_embeds
  send_without_notifications self is_direct generate_embeds =
      store_message self
      >> publish (Event.message self.channel self)
      >> publish (Event.last_message_id self.channel self.id is_direct)
      >> queue_embeds generate_embeds self

  unfoldable pub notify : MessageAuthor → Channel → Message → Action C (Unit {0})
  unfolding has_suppressed_notifications contains_mass_push_mention push_recipients
  notify author channel self =
      if not (has_suppressed_notifications self)
        && (is_dm_or_group channel || is_some self.mentions || contains_mass_push_mention self)
      then publish (Event.push_message self.channel self (push_recipients author channel self))
      else pure tt

  -- `Message::send`.
  unfoldable pub send : Message → MessageAuthor → Channel → Bool → Action C (Unit {0})
  unfolding send_without_notifications notify
  send self author channel generate_embeds =
      send_without_notifications self (is_dm channel) generate_embeds >> notify author channel self
