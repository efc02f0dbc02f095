-- ===== src/Messages/Replies.antt =====
-- The replies of a new message: the loop over `data.replies` in `Message::create_from_api`
-- (crates/core/database/src/models/messages/model.rs).
use dawnchat_api.Prelude.{
  Bool, true, false, not, ◌||◌, Option, none, some, List, [], ◌∷◌, ◌++◌, String, ltb, ◌&&◌,
  if◌then◌else◌,
}
use dawnchat_api.Errors.{ErrorType, Result, ok, err, ◌>>=◌}
use dawnchat_api.Models.{contains, length}
use dawnchat_api.Parser.Tokens.{insert}
use dawnchat_api.Messages.Model.{ReplyIntent}
use dawnchat_api.Messages.Context.{Context}
use dawnchat_api.Messages.Store.{Messages, fetch_message}

-- `unwrap_or(true)`.
abbrev pub or_true : Option Bool → Bool
or_true none = true
or_true (some b) = b

-- `matches!(e.error_type, ErrorType::NotFound)`.
abbrev pub is_not_found : ErrorType → Bool
is_not_found ErrorType.not_found = true
is_not_found _ = false

-- The mentioned users and the replies so far.
abbrev pub Replies : Type 0
Replies = List String × List String

-- The body of the loop over the replies.
unfoldable pub add_reply : Messages → Bool → ReplyIntent → Replies → Result Replies
unfolding fetch_message insert contains
add_reply messages allow_mentions entry (users, replies) = elim (fetch_message messages entry.id) [
  | ok message ↦ ok (
    (if entry.mention && allow_mentions then insert message.author users else users),
    (if contains replies message.id then replies else replies ++ message.id ∷ []),
  )
  | err e ↦
      if not (is_not_found e) || or_true entry.fail_if_not_exists
      then err e
      else ok (users, replies)
]

unfoldable pub add_replies : Messages → Bool → List ReplyIntent → Replies → Result Replies
unfolding add_reply
add_replies messages allow_mentions [] acc = ok acc
add_replies messages allow_mentions (entry ∷ entries) acc =
    add_reply messages allow_mentions entry acc >>= add_replies messages allow_mentions entries

-- `if let Some(entries) = data.replies`.
unfoldable pub resolve_replies :
    Context → Messages → Bool → Option (List ReplyIntent) → List String → Result Replies
unfolding add_replies
resolve_replies ctx messages allow_mentions none users = ok (users, [])
resolve_replies ctx messages allow_mentions (some entries) users =
    if ltb ctx.message_replies (length entries)
    then err (ErrorType.too_many_replies ctx.message_replies)
    else add_replies messages allow_mentions entries (users, [])
