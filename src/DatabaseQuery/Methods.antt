-- ===== src/DatabaseQuery/Methods.antt =====
-- The methods of `PermissionQuery` for `DatabasePermissionQuery`, and `calc_user`
-- (crates/core/database/src/util/permissions.rs), over a database and the time of the calculation.
mod Reads
unfoldable pub use Reads.*
use dawnchat_api.Prelude.{
  ℕ, Bool, true, false, not, Option, none, some, List, [], ◌∷◌, String, ◌==◌, string_eq,
  if◌then◌else◌,
}
use dawnchat_api.Errors.{ok, err}
use dawnchat_api.Permissions.Flags
use dawnchat_api.Permissions.Flags.{ChannelType, default_permission_direct_message}
use dawnchat_api.Permissions.Value.{Override, as_i64, as_u64, from_field, default_override}
use dawnchat_api.Permissions.Query.{PermissionQuery, Action, gets}
use dawnchat_api.Permissions.Calculate.{calculate_user_permissions}
use dawnchat_api.Models.{
  RelationshipStatus, Relationship, User, Server, Member, Channel, Database, contains, in_timeout,
  has_mutual_connection,
}
use dawnchat_api.DatabaseQuery.State.{State}
use dawnchat_api.DatabaseQuery.Roles.{server_overrides, channel_overrides}

-- `calc`; the value is not calculated.
unfoldable pub calc : State → State
calc self = elim self.cached_permission [ none ↦ self | some value ↦ self ]

module _ (db : Database) where
  unfoldable pub have_mutual_connection : Action State Bool
  unfolding has_mutual_connection
  have_mutual_connection self = elim self.cached_mutual_connection [
    | some value ↦ some (value, self)
    | none ↦ elim self.user [
      | none ↦ some (false, self)
      | some user ↦
          let value : Bool = elim (has_mutual_connection db self.perspective user.id) [
            | ok b ↦ b
            | err e ↦ false
          ] in
          some (value, record self { cached_mutual_connection = some value })
    ]
  ]

  unfoldable pub are_we_a_member : Action State Bool
  are_we_a_member self = elim self.server [
    | none ↦ some (false, self)
    | some server ↦ elim self.member [
      | some member ↦ some (true, self)
      | none ↦ elim (db.fetch_member server.id self.perspective.id) [
        | ok member ↦ some (true, record self { member = some member })
        | err e ↦ some (false, self)
      ]
    ]
  ]

  -- The `expect` of a recipient other than oneself, and the `unimplemented!` of other channels,
  -- are panics.
  unfoldable pub recipient_of : Channel → Action State (Unit {0})
  unfolding find_other
  recipient_of (Channel.direct_message c) self =
      elim (find_other self.perspective.id c.recipients) [
        | none ↦ none
        | some recipient ↦ elim (db.fetch_user recipient) [
          | ok user ↦ some (tt, record self { user = some user })
          | err e ↦ some (tt, self)
        ]
      ]
  recipient_of (Channel.saved_messages id user) self = none
  recipient_of (Channel.group c) self = none
  recipient_of (Channel.text_channel c) self = none

  unfoldable pub set_recipient_as_user : Action State (Unit {0})
  unfolding recipient_of
  set_recipient_as_user self = elim self.channel [
    | none ↦ some (tt, self)
    | some channel ↦ recipient_of channel self
  ]

  unfoldable pub knows_server : String → Option Server → Bool
  knows_server id none = false
  knows_server id (some known) = id == known.id

  unfoldable pub server_of : Channel → Action State (Unit {0})
  unfolding knows_server
  server_of (Channel.text_channel c) self =
      if knows_server c.server self.server
      then some (tt, self)
      else elim (db.fetch_server c.server) [
        | ok server ↦ some (tt, record self { server = some server })
        | err e ↦ some (tt, self)
      ]
  server_of (Channel.saved_messages id user) self = none
  server_of (Channel.direct_message c) self = none
  server_of (Channel.group c) self = none

  unfoldable pub set_server_from_channel : Action State (Unit {0})
  unfolding server_of
  set_server_from_channel self = elim self.channel [
    | none ↦ some (tt, self)
    | some channel ↦ server_of channel self
  ]

  -- `impl PermissionQuery for DatabasePermissionQuery`.
  abbrev pub database_query : ℕ → PermissionQuery State
  database_query now = record {
    are_we_privileged = gets (λ s. s.perspective.privileged);
    are_we_a_bot = gets (λ s. is_bot s.perspective);
    are_the_users_same = gets are_the_users_same;
    user_relationship = gets user_relationship;
    user_is_bot = gets user_is_bot;
    have_mutual_connection = have_mutual_connection;
    are_we_server_owner = gets are_we_server_owner;
    are_we_a_member = are_we_a_member;
    get_default_server_permissions = gets get_default_server_permissions;
    get_our_server_role_overrides = gets get_our_server_role_overrides;
    are_we_timed_out = gets (are_we_timed_out now);
    do_we_have_publish_overwrites = gets do_we_have_publish_overwrites;
    do_we_have_receive_overwrites = gets do_we_have_receive_overwrites;
    get_channel_type = gets get_channel_type;
    get_default_channel_permissions = gets get_default_channel_permissions;
    get_our_channel_role_overrides = gets get_our_channel_role_overrides;
    do_we_own_the_channel = gets do_we_own_the_channel;
    are_we_part_of_the_channel = gets are_we_part_of_the_channel;
    set_recipient_as_user = set_recipient_as_user;
    set_server_from_channel = set_server_from_channel;
  }

  -- `calc_user`; a missing user is a panic.
  unfoldable pub calc_user : ℕ → State → Option State
  unfolding calculate_user_permissions
  calc_user now self = elim self.cached_user_permission [
    | some value ↦ some self
    | none ↦ elim self.user [
      | none ↦ none
      | some user ↦ elim (calculate_user_permissions (database_query now) self) [
        | none ↦ none
        | some (value, self') ↦ some (record self' { cached_user_permission = some value })
      ]
    ]
  ]
