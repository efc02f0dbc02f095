-- ===== src/BulkPermissions/Calculate.antt =====
-- `calculate_members_permissions`, `calculate_server_permissions` and `members_can_see_channel`
-- (crates/core/database/src/util/bulk_permissions.rs), at the time `now`. `none` is a panic.
use dawnchat_api.Prelude.{
  ℕ, Bool, String, Option, none, some, List, [], ◌∷◌, map, ◌==◌, string_eq, ◌||◌, if◌then◌else◌,
}
use dawnchat_api.Errors.{ok, err}
use dawnchat_api.Permissions.Flags.{ChannelPermission, channel_value, allow_in_timeout}
use dawnchat_api.Permissions.Value.{
  PermissionValue, OverrideField, as_u64, from_field, apply, restrict, has_channel_permission,
}
use dawnchat_api.Permissions.Calculate.{apply_all}
use dawnchat_api.Models.{User, Server, Member, Channel, TextChannel, in_timeout}
use dawnchat_api.DatabaseQuery.Roles.{server_overrides, channel_overrides}
use dawnchat_api.BulkPermissions.Query.{BulkQuery, BulkDatabase, Values}

-- The members by their users: of two members with one user the later one is kept.
unfoldable pub member_of : List Member → String → Option Member
member_of [] id = none
member_of (m ∷ ms) id = elim (member_of ms id) [
  | some later ↦ some later
  | none ↦ if m.id.user == id then some m else none
]

-- `calculate_server_permissions` of the bulk query.
unfoldable pub calculate_server_permissions : ℕ → Server → User → Member → PermissionValue
unfolding apply_all server_overrides in_timeout channel_value as_u64 restrict
calculate_server_permissions now server user member =
    if user.privileged || server.owner == user.id
    then channel_value ChannelPermission.grant_all_safe
    else (let permissions =
          apply_all (as_u64 server.default_permissions) (server_overrides server (some member)) in
        if in_timeout now member then restrict permissions allow_in_timeout else permissions)

-- `if let Some(defaults) = channel_default_permissions`.
unfoldable pub apply_default : PermissionValue → Option OverrideField → PermissionValue
unfolding apply from_field
apply_default p none = p
apply_default p (some field) = apply p (from_field field)

-- The body of the loop over the users: the value that is inserted.
unfoldable pub member_value : ℕ → Server → TextChannel → User → Option Member → PermissionValue
unfolding calculate_server_permissions apply_default apply_all channel_overrides channel_value
member_value now server c user none = 0
member_value now server c user (some member) =
    if user.privileged
    then channel_value ChannelPermission.grant_all_safe
    else if user.id == server.owner
    then channel_value ChannelPermission.grant_all_safe
    else apply_all
        (apply_default (calculate_server_permissions now server user member) c.default_permissions)
        (channel_overrides c.role_permissions server (some member))

abbrev pub insert : Values → String → PermissionValue → Values
insert resp id v k = if k == id then some v else resp k

-- `for user in users`.
unfoldable pub insert_values : ℕ → Server → TextChannel → List Member → List User → Values → Values
unfolding member_value member_of
insert_values now server c members [] resp = resp
insert_values now server c members (user ∷ users) resp =
    insert_values now server c members users
      (insert resp user.id (member_value now server c user (member_of members user.id)))

-- `HashMap<String, bool>`, from the values.
unfoldable pub can_see : Values → String → Option Bool
unfolding has_channel_permission
can_see values k = elim (values k) [
  | none ↦ none
  | some p ↦ some (has_channel_permission p ChannelPermission.view_channel)
]

module _ (db : BulkDatabase) where
  -- The users are fetched for the members, if there are none.
  unfoldable pub ensure_users : BulkQuery → Option (List User × BulkQuery)
  ensure_users query = elim query.users [
    | some users ↦ some (users, query)
    | none ↦ elim query.members [
      | none ↦ none
      | some members ↦ elim (db.fetch_users (map (λ m. m.id.user) members)) [
        | err e ↦ none
        | ok users ↦ some (users, record query { cached_users = some users; users = some users })
      ]
    ]
  ]

  -- The members are fetched for the users, if there are none.
  unfoldable pub ensure_members : List User → BulkQuery → Option (List Member × BulkQuery)
  ensure_members users query = elim query.members [
    | some members ↦ some (members, query)
    | none ↦ elim (db.fetch_members query.server.id (map (λ u. u.id) users)) [
      | err e ↦ none
      | ok members ↦
          some (members, record query { cached_members = some members; members = some members })
    ]
  ]

  unfoldable pub calculate_for : ℕ → TextChannel → BulkQuery → Option (Values × BulkQuery)
  unfolding ensure_users ensure_members insert_values
  calculate_for now c query = elim (ensure_users query) [
    | none ↦ none
    | some (users, q) ↦ elim (ensure_members users q) [
      | none ↦ none
      | some (members, q') ↦ some (insert_values now q'.server c members users (λ k. none), q')
    ]
  ]

  -- `calculate_members_permissions`: only for a text channel.
  unfoldable pub calculate_members_permissions : ℕ → BulkQuery → Option (Values × BulkQuery)
  unfolding calculate_for
  calculate_members_permissions now query = elim query.channel [
    | none ↦ none
    | some (Channel.text_channel c) ↦ calculate_for now c query
    | some _ ↦ none
  ]

  -- `members_can_see_channel`.
  unfoldable pub members_can_see_channel :
      ℕ → BulkQuery → Option ((String → Option Bool) × BulkQuery)
  unfolding calculate_members_permissions can_see
  members_can_see_channel now self = elim self.cached_member_perms [
    | some perms ↦ some (can_see perms, self)
    | none ↦ elim (calculate_members_permissions now self) [
      | none ↦ none
      | some (values, self') ↦ some (can_see values, self')
    ]
  ]
