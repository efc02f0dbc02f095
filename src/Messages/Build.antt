-- ===== src/Messages/Build.antt =====
-- The message that `Message::create_from_api` builds from what it has checked, and whom it is pushed to
-- (crates/core/database/src/models/messages/model.rs).
use dawnchat_api.Prelude.{
  ℕ, Bool, true, false, not, Option, none, some, List, [], ◌∷◌, String, ◌==◌, string_eq,
}
use dawnchat_api.Models.{Channel}
use dawnchat_api.Parser.Tokens.{MessageResults}
use dawnchat_api.Messages.Model.{
  Message, default_message, default_interactions, DataMessageSend, MessageAuthor, MessageWebhook,
  Interactions, author_id,
}
use dawnchat_api.Messages.Flags.{MessageFlags, set_flag}
use dawnchat_api.Messages.Checks.{Requested, or_empty}
use dawnchat_api.Messages.Mentions.{retain}

-- `Channel::id`.
unfoldable pub channel_id : Channel → String
channel_id (Channel.saved_messages id user) = id
channel_id (Channel.direct_message c) = c.id
channel_id (Channel.group c) = c.id
channel_id (Channel.text_channel c) = c.id

unfoldable pub author_webhook : MessageAuthor → Option MessageWebhook
author_webhook (MessageAuthor.webhook w) = some (record { name = w.name; avatar = w.avatar })
author_webhook (MessageAuthor.user u) = none
author_webhook (MessageAuthor.system username avatar) = none

-- `unwrap_or_default()` of the interactions.
abbrev interactions_or_default : Option Interactions → Interactions
interactions_or_default none = default_interactions
interactions_or_default (some interactions) = interactions

-- `Some(xs)` unless it is empty.
abbrev pub non_empty {ℓ} : {A : Type ℓ} → List A → Option (List A)
non_empty [] = none
non_empty (x ∷ xs) = some (x ∷ xs)

-- The final flags.
unfoldable pub final_flags : Requested → MessageResults → ℕ
unfolding set_flag
final_flags requested found =
    set_flag
      (set_flag (set_flag 0 MessageFlags.suppress_notifications requested.suppress_notifications)
        MessageFlags.mentions_everyone found.mentions_everyone)
      MessageFlags.mentions_online found.mentions_online

-- The message before its attachments, its embeds and its content are set.
unfoldable pub build_message :
    String
    → Channel
    → DataMessageSend
    → MessageAuthor
    → Requested
    → MessageResults
    → List String
    → Message
unfolding channel_id author_id author_webhook final_flags
build_message id channel request author requested found replies = record default_message {
  id = id;
  channel = channel_id channel;
  masquerade = request.masquerade;
  interactions = interactions_or_default request.interactions;
  author = author_id author;
  webhook = author_webhook author;
  mentions = non_empty found.user_mentions;
  role_mentions = non_empty found.role_mentions;
  replies = non_empty replies;
  flags = some (final_flags requested found);
}

-- The author and the channel of the push notification, and whom it goes to.
unfoldable pub push_recipients : MessageAuthor → Channel → Message → List String
unfolding retain author_id
push_recipients author (Channel.direct_message c) self =
    retain (λ uid. not (uid == author_id author)) c.recipients
push_recipients author (Channel.group c) self =
    retain (λ uid. not (uid == author_id author)) c.recipients
push_recipients author (Channel.text_channel c) self = or_empty self.mentions
push_recipients author (Channel.saved_messages id user) self = []

abbrev pub is_dm : Channel → Bool
is_dm (Channel.direct_message c) = true
is_dm _ = false

abbrev pub is_dm_or_group : Channel → Bool
is_dm_or_group (Channel.direct_message c) = true
is_dm_or_group (Channel.group c) = true
is_dm_or_group _ = false
