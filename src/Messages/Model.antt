-- ===== src/Messages/Model.antt =====
-- The records of messages (crates/core/database/src/models/messages/model.rs) and what they carry
-- (crates/core/database/src/models/files/model.rs, crates/core/models/src/v0/messages.rs and
-- embeds.rs; `Embed::None` is `no_embed`). Of a file the hash, the name and the metadata are left out, and so is what only the
-- service that generates embeds writes; no modelled operation reads it.
use dawnchat_api.Prelude.{ℕ, Bool, false, String, Option, none, some, List, []}
use dawnchat_api.Models.{BotInformation}

-- `FileUsedForType`.
pub data FileUsedForType : Type 0 where
  message server_banner emoji user_avatar webhook_avatar user_profile_background : FileUsedForType
  legacy_group_icon channel_icon server_icon : FileUsedForType

pub record FileUsedFor : Type 0 where
  pub object_type : FileUsedForType
  pub id : String

pub record File : Type 0 where
  pub id : String
  pub tag : String
  pub uploader_id : Option String
  pub used_for : Option FileUsedFor
  pub deleted : Option Bool
  pub reported : Option Bool

-- The embed `Text`.
pub record Text : Type 0 where
  pub icon_url : Option String
  pub url : Option String
  pub title : Option String
  pub description : Option String
  pub media : Option File
  pub colour : Option String

pub data Embed : Type 0 where
  website image video : Embed
  text : Text → Embed
  no_embed : Embed

pub record Interactions : Type 0 where
  pub reactions : Option (List String)
  pub restrict_reactions : Bool

pub record Masquerade : Type 0 where
  pub name : Option String
  pub avatar : Option String
  pub colour : Option String

pub record MessageWebhook : Type 0 where
  pub name : String
  pub avatar : Option String

pub data SystemMessage : Type 0 where
  -- content
  text : String → SystemMessage
  -- id, by
  user_added user_remove : String → String → SystemMessage
  -- id
  user_joined user_left user_kicked user_banned : String → SystemMessage
  -- name, by
  channel_renamed : String → String → SystemMessage
  -- by
  channel_description_changed channel_icon_changed : String → SystemMessage
  -- from, to
  channel_ownership_changed : String → String → SystemMessage
  -- id, by
  message_pinned message_unpinned : String → String → SystemMessage
  -- by, finished_at
  call_started : String → Option ℕ → SystemMessage

-- An `IndexMap<String, IndexSet<String>>`: emojis with the users who reacted, in their order.
abbrev pub Reactions : Type 0
Reactions = List (String × List String)

pub record Message : Type 0 where
  pub id : String
  pub nonce : Option String
  pub channel : String
  pub author : String
  pub webhook : Option MessageWebhook
  pub content : Option String
  pub system : Option SystemMessage
  pub attachments : Option (List File)
  pub edited : Option ℕ
  pub embeds : Option (List Embed)
  pub mentions : Option (List String)
  pub role_mentions : Option (List String)
  pub replies : Option (List String)
  pub reactions : Reactions
  pub interactions : Interactions
  pub masquerade : Option Masquerade
  pub pinned : Option Bool
  pub flags : Option ℕ

-- `Default` of `Interactions`.
abbrev pub default_interactions : Interactions
default_interactions = record { reactions = none; restrict_reactions = false }

-- `Default` of `Message`.
abbrev pub default_message : Message
default_message = record {
  id = "";
  nonce = none;
  channel = "";
  author = "";
  webhook = none;
  content = none;
  system = none;
  attachments = none;
  edited = none;
  embeds = none;
  mentions = none;
  role_mentions = none;
  replies = none;
  reactions = [];
  interactions = default_interactions;
  masquerade = none;
  pinned = none;
  flags = none;
}

-- `SendableEmbed`.
pub record SendableEmbed : Type 0 where
  pub icon_url : Option String
  pub url : Option String
  pub title : Option String
  pub description : Option String
  pub media : Option String
  pub colour : Option String

-- `ReplyIntent`.
pub record ReplyIntent : Type 0 where
  pub id : String
  pub mention : Bool
  pub fail_if_not_exists : Option Bool

-- `DataMessageSend`.
pub record DataMessageSend : Type 0 where
  pub nonce : Option String
  pub content : Option String
  pub attachments : Option (List String)
  pub replies : Option (List ReplyIntent)
  pub embeds : Option (List SendableEmbed)
  pub masquerade : Option Masquerade
  pub interactions : Option Interactions
  pub flags : Option ℕ

-- `User` of the API's models, as far as it is read back into a `User` of the database.
pub record ApiUser : Type 0 where
  pub id : String
  pub username : String
  pub discriminator : String
  pub display_name : Option String
  pub privileged : Bool
  pub bot : Option BotInformation

-- `Webhook` of the API's models, as far as a message needs it.
pub record Webhook : Type 0 where
  pub id : String
  pub name : String
  pub avatar : Option String

-- `MessageAuthor`.
pub data MessageAuthor : Type 0 where
  user : ApiUser → MessageAuthor
  webhook : Webhook → MessageAuthor
  -- username, avatar
  system : String → Option String → MessageAuthor

-- `MessageAuthor::id`.
unfoldable pub author_id : MessageAuthor → String
author_id (MessageAuthor.user u) = u.id
author_id (MessageAuthor.webhook w) = w.id
author_id (MessageAuthor.system username avatar) = "00000000000000000000000000"

-- `SystemMessage::into_message`, with the new id.
unfoldable pub into_message : String → SystemMessage → String → Message
into_message id self channel = record default_message {
  id = id;
  channel = channel;
  author = "00000000000000000000000000";
  system = some self;
}
