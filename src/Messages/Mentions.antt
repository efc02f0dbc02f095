-- ===== src/Messages/Mentions.antt =====
-- The mentions of a new message: the middle part of `Message::create_from_api`
-- (crates/core/database/src/models/messages/model.rs). `none` is a panic. A `HashSet` is a list
-- without repetition; its order is not used.
use dawnchat_api.Prelude.{
  Bool, false, not, ◌&&◌, ◌||◌, Option, none, some, List, [], ◌∷◌, map, String, if◌then◌else◌,
}
use dawnchat_api.Errors.{ErrorType, Result, ok, err}
use dawnchat_api.Permissions.Flags.{ChannelPermission, channel_name}
use dawnchat_api.Permissions.Value.{PermissionValue, has_channel_permission}
use dawnchat_api.Permissions.Calculate.{calculate_channel_permissions}
use dawnchat_api.Models.{User, Channel, contains, get, is_empty}
use dawnchat_api.DatabaseQuery.State
use dawnchat_api.DatabaseQuery.Methods.{database_query}
use dawnchat_api.BulkPermissions.Query.{from_server_id, with_channel, with_members}
use dawnchat_api.BulkPermissions.Calculate.{members_can_see_channel}
use dawnchat_api.Parser.Tokens.{MessageResults, parse_message, default}
use dawnchat_api.Messages.Model.{ApiUser, MessageAuthor}
use dawnchat_api.Messages.Flags.{is_some}
use dawnchat_api.Messages.Checks.{Requested}
use dawnchat_api.Messages.Context.{Context}

-- `retain` of a `HashSet`.
unfoldable pub retain : (String → Bool) → List String → List String
retain p [] = []
retain p (x ∷ xs) = if p x then x ∷ retain p xs else retain p xs

-- `From<v0::User> for User`.
unfoldable pub from_api : ApiUser → User
from_api value = record {
  id = value.id;
  username = value.username;
  discriminator = value.discriminator;
  display_name = value.display_name;
  relations = none;
  privileged = value.privileged;
  bot = value.bot;
  suspended_until = none;
}

-- The server of a text channel.
unfoldable pub server_id : Channel → Option String
server_id (Channel.text_channel c) = some c.server
server_id (Channel.saved_messages id user) = none
server_id (Channel.direct_message c) = none
server_id (Channel.group c) = none

unfoldable pub parse_content : Context → Option String → Option MessageResults
unfolding parse_message
parse_content ctx none = some default
parse_content ctx (some raw) = parse_message (ctx.tokens raw)

-- The mentions of the content, and those that the flags ask for.
unfoldable pub parse_mentions : Context → Option String → Requested → Option MessageResults
unfolding parse_content
parse_mentions ctx content requested = elim (parse_content ctx content) [
  | none ↦ none
  | some found ↦ some (record found {
    mentions_everyone = found.mentions_everyone || requested.mentions_everyone;
    mentions_online = found.mentions_online || requested.mentions_online;
  })
]

-- Only roles of the server are kept, if mass mentions are allowed.
unfoldable pub known_roles : Context → Bool → Channel → MessageResults → Option MessageResults
unfolding retain get server_id
known_roles ctx allow_mass_mentions channel found =
    if allow_mass_mentions && not (is_empty found.role_mentions)
    then elim (server_id channel) [
      | none ↦ some found
      | some id ↦ elim (ctx.database.fetch_server id) [
        | err e ↦ none
        | ok server ↦ some (record found {
          role_mentions = retain (λ role. is_some (get server.roles role)) found.role_mentions;
        })
      ]
    ]
    else some found

abbrev pub is_mass_mention : MessageResults → Bool
is_mass_mention found =
    found.mentions_everyone || found.mentions_online || not (is_empty found.role_mentions)

-- The permissions of a user who makes a mass mention.
unfoldable pub check_mass_mention : PermissionValue → MessageResults → Result MessageResults
unfolding has_channel_permission channel_name
check_mass_mention perms found =
    if (found.mentions_everyone || found.mentions_online)
      && not (has_channel_permission perms ChannelPermission.mention_everyone)
    then err (ErrorType.missing_permission (channel_name ChannelPermission.mention_everyone))
    else if not (is_empty found.role_mentions)
        && not (has_channel_permission perms ChannelPermission.mention_roles)
    then err (ErrorType.missing_permission (channel_name ChannelPermission.mention_roles))
    else ok found

-- `match author`.
unfoldable pub by_author :
    Context → MessageAuthor → Channel → MessageResults → Option (Result MessageResults)
unfolding check_mass_mention calculate_channel_permissions from_api State.with_channel State.new
by_author ctx (MessageAuthor.system username avatar) channel found =
    some (err ErrorType.invalid_property)
by_author ctx (MessageAuthor.webhook webhook) channel found = some (ok found)
by_author ctx (MessageAuthor.user user) channel found =
    elim (calculate_channel_permissions (database_query ctx.database ctx.now)
      (State.with_channel (State.new (from_api user)) channel)) [
        | none ↦ none
        | some (perms, query) ↦ some (check_mass_mention perms found)
      ]

-- Mass mentions are dropped if they are disabled; otherwise the author must be permitted to make them.
unfoldable pub mass_mentions :
    Context → MessageAuthor → Channel → MessageResults → Option (Result MessageResults)
unfolding by_author
mass_mentions ctx author channel found =
    if not ctx.mass_mentions_enabled && is_mass_mention found
    then some (
        ok
          (record found { mentions_everyone = false; mentions_online = false; role_mentions = [] }))
    else if is_mass_mention found
    then by_author ctx author channel found
    else some (ok found)

-- `*member_channel_view_perms.get(m).unwrap_or(&false)`.
abbrev pub or_false : Option Bool → Bool
or_false none = false
or_false (some b) = b

-- The mentioned users of a text channel's message: those who can view the channel. The members that
-- were found for the mentioned users are given to the bulk calculation.
unfoldable pub visible_mentions :
    Context → Channel → String → List String → Option (Result (List String))
unfolding retain contains from_server_id with_channel with_members members_can_see_channel
visible_mentions ctx channel server users = elim (ctx.bulk.fetch_members server users) [
  | err e ↦ some (err ErrorType.internal_error)
  | ok members ↦
      let valid = retain (contains (map (λ m. m.id.user) members)) users in
      if is_empty valid then some (ok valid) else elim (from_server_id ctx.bulk server) [
        | none ↦ none
        | some query ↦
            elim (members_can_see_channel ctx.bulk ctx.now
              (with_members (with_channel query channel) members)) [
                | none ↦ none
                | some (seen, query') ↦ some (ok (retain (λ m. or_false (seen m)) valid))
              ]
      ]
]

-- `match channel`: the mentioned users and roles that are kept.
unfoldable pub mentions_in : Context → Channel → MessageResults → Option (Result MessageResults)
unfolding retain contains visible_mentions
mentions_in ctx (Channel.direct_message c) found = some (
    ok (record found {
      user_mentions = retain (contains c.recipients) found.user_mentions;
      role_mentions = [];
    }))
mentions_in ctx (Channel.group c) found = some (
    ok (record found {
      user_mentions = retain (contains c.recipients) found.user_mentions;
      role_mentions = [];
    }))
mentions_in ctx (Channel.text_channel c) found =
    elim (visible_mentions ctx (Channel.text_channel c) c.server found.user_mentions) [
      | none ↦ none
      | some (err e) ↦ some (err e)
      | some (ok users) ↦ some (ok (record found { user_mentions = users }))
    ]
mentions_in ctx (Channel.saved_messages id user) found =
    some (ok (record found { user_mentions = [] }))

-- `if !user_mentions.is_empty()`.
unfoldable pub valid_mentions : Context → Channel → MessageResults → Option (Result MessageResults)
unfolding mentions_in
valid_mentions ctx channel found =
    if is_empty found.user_mentions then some (ok found) else mentions_in ctx channel found
