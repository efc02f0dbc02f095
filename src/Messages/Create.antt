-- ===== src/Messages/Create.antt =====
-- `Message::create_from_api` (crates/core/database/src/models/messages/model.rs), in its parts.
use dawnchat_api.Prelude.{ℕ, Bool, ◌&&◌, Option, none, some, List, String, ltb, if◌then◌else◌}
use dawnchat_api.Errors.{ErrorType, Result, ok, err}
use dawnchat_api.Models.{Channel, length}
use dawnchat_api.Parser.Tokens.{MessageResults}
use dawnchat_api.Messages.Model.{Message, DataMessageSend, ApiUser, MessageAuthor, author_id}
use dawnchat_api.Messages.World.{Action, TokenCache, pure, lift, attempt, ◌>>=◌, ◌>>◌}
use dawnchat_api.Messages.Checks.{
  Requested, validate_sum, consume_nonce, as_invalid_operation, check_not_empty, request_flags,
  check_interactions, or_empty,
}
use dawnchat_api.Messages.Context.{Context}
use dawnchat_api.Messages.Mentions.{parse_mentions, known_roles, mass_mentions, valid_mentions}
use dawnchat_api.Messages.Replies.{Replies, resolve_replies}
use dawnchat_api.Messages.Build.{build_message, non_empty}
use dawnchat_api.Messages.Send.{use_attachments, attach_embeds, send}

-- `FeaturesLimits`, as far as it is read here.
pub record FeaturesLimits : Type 0 where
  pub message_length : ℕ
  pub message_attachments : ℕ

-- An optional value that must be there.
abbrev pub expect : {A : Type 0} → Option A → Option (Result A)
expect none = none
expect (some a) = some (ok a)

-- The limits on attachments and embeds.
unfoldable pub check_counts : ℕ → ℕ → DataMessageSend → Result (Unit {0})
check_counts attachments embeds request =
    if ltb attachments (length (or_empty request.attachments))
    then err (ErrorType.too_many_attachments attachments)
    else if ltb embeds (length (or_empty request.embeds))
    then err (ErrorType.too_many_embeds embeds)
    else ok tt

module _ {C : Type 0} (ctx : Context) (channel : Channel) (author : MessageAuthor) where
  -- The replies are looked up in the stored messages.
  unfoldable pub find_replies : DataMessageSend → Bool → List String → Action C Replies
  unfolding resolve_replies
  find_replies request allow_mentions users w =
      some (resolve_replies ctx w.messages allow_mentions request.replies users, w)

  -- From the parser to the mentions and replies of the message.
  unfoldable pub resolve :
      DataMessageSend → Bool → Requested → Action C (MessageResults × List String)
  unfolding parse_mentions known_roles mass_mentions find_replies valid_mentions
  resolve request allow_mentions requested = do
    parsed ← attempt (expect (parse_mentions ctx request.content requested))
    known ←
        attempt
          (expect (known_roles ctx (allow_mentions && ctx.mass_mentions_enabled) channel parsed))
    allowed ← attempt (mass_mentions ctx author channel known)
    found ← find_replies request allow_mentions allowed.user_mentions
    valid ← attempt (valid_mentions ctx channel (record allowed { user_mentions = found.0 }))
    pure (valid, found.1)

  -- From the message without its content to the one that is sent.
  unfoldable pub complete : DataMessageSend → String → Message → Action C Message
  unfolding use_attachments attach_embeds
  complete request nonce message = do
    files ← use_attachments (or_empty request.attachments) message.id (author_id author)
    embedded ←
        attach_embeds (record message { attachments = non_empty files }) (or_empty request.embeds)
    pure (record embedded { content = request.content; nonce = some nonce })

  -- From the message without its content to its sending.
  unfoldable pub finish :
      DataMessageSend → FeaturesLimits → String → Bool → Message → Action C Message
  unfolding check_counts complete send
  finish request limits nonce generate_embeds built = do
    lift (check_counts limits.message_attachments ctx.message_embeds request)
    message ← complete request nonce built
    send message author channel generate_embeds
    pure message

  -- `Message::create_from_api`; the new id is an argument.
  unfoldable pub create_from_api :
      TokenCache C
      → String
      → DataMessageSend
      → Option ApiUser
      → FeaturesLimits
      → String
      → Bool
      → Bool
      → Action C Message
  unfolding validate_sum consume_nonce as_invalid_operation check_not_empty request_flags
      check_interactions resolve build_message finish
  create_from_api tokens id request user limits key generate_embeds allow_mentions = do
    lift (validate_sum ctx.byte_len request.content (or_empty request.embeds) limits.message_length)
    nonce ← as_invalid_operation (consume_nonce tokens key request.nonce)
    lift (check_not_empty request)
    requested ← lift (request_flags request.flags user allow_mentions)
    lift (check_interactions request.interactions)
    resolved ← resolve request allow_mentions requested
    finish request limits nonce generate_embeds
        (build_message id channel request author requested resolved.0 resolved.1)
