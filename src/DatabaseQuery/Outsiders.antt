-- ===== src/DatabaseQuery/Outsiders.antt =====
-- Who gets nothing: users outside a server, and the owner of a bot against the bot.
use dawnchat_api.Prelude.{ℕ, false, some, ◌≡◌, refl, ◌≢◌, arith, ==_iff, ==_ne, string_eq}
use dawnchat_api.Errors.{ErrorType, ok, err}
use dawnchat_api.Permissions.Flags
use dawnchat_api.Permissions.Calculate.{
  calculate_channel_permissions, by_channel_type, calculate_user_permissions, by_relationship,
  with_mutual_connection,
}
use dawnchat_api.Models.{Database, Server, Channel, TextChannel, User, BotInformation}
use dawnchat_api.DatabaseQuery.State.{State, new, with_channel}
use dawnchat_api.DatabaseQuery.Methods.{
  database_query, are_we_a_member, are_we_server_owner, set_server_from_channel, get_channel_type,
  user_relationship, owns, are_the_users_same,
}
use dawnchat_api.DatabaseQuery.Users.{is_connected, asked, have_mutual_connection-asked}

module _ (db : Database) (now : ℕ) where
  -- A user who neither is privileged nor owns the server, and whom the database does not know as a
  -- member of it, holds nothing in its text channels: the query that starts from the user and the
  -- channel fetches the server, finds no member, and returns 0.
  pub outsider_holds_nothing :
      (u : User) (c : TextChannel) (sv : Server) (e : ErrorType)
      → u.privileged ≡ false
      → db.fetch_server c.server ≡ ok sv
      → sv.owner ≢ u.id
      → db.fetch_member sv.id u.id ≡ err e
      → (s : State) × (calculate_channel_permissions
            (database_query db now)
            (with_channel (new u) (Channel.text_channel c))
          ≡ some (0, s))
        × (s.server ≡ some sv)
  unfolding calculate_channel_permissions by_channel_type get_channel_type set_server_from_channel
      are_we_server_owner are_we_a_member new with_channel
  outsider_holds_nothing u c sv e p fetched other unknown = (
    record (with_channel (new u) (Channel.text_channel c)) { server = some sv },
    ground (arith, ==_ne sv.owner u.id other),
    refl,
  )

  -- The owner of a bot is related to it as to oneself, and yet holds no permission against it unless
  -- the two share a server or a group: the calculation returns 0.
  pub bot_owner_holds_nothing :
      (s : State) (other : User) (b : BotInformation)
      → s.user ≡ some other
      → other.bot ≡ some b
      → s.perspective.id ≡ b.owner
      → s.perspective.id ≢ other.id
      → s.perspective.privileged ≡ false
      → is_connected db s ≡ false
      → (user_relationship s ≡ Flags.RelationshipStatus.user)
        × (calculate_user_permissions (database_query db now) s ≡ some (0, asked db s))
  unfolding calculate_user_permissions by_relationship user_relationship are_the_users_same owns
      with_mutual_connection
  bot_owner_holds_nothing s other b user bot owner different p apart = (
    ground (arith, ==_ne s.perspective.id other.id different, ==_iff s.perspective.id b.owner),
    ground (
      arith,
      ==_ne s.perspective.id other.id different,
      ==_iff s.perspective.id b.owner,
      have_mutual_connection-asked db s,
    ),
  )
