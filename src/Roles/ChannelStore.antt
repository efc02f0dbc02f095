-- ===== src/Roles/ChannelStore.antt =====
-- The overrides of roles in channels, in the reference database and in memory
-- (crates/core/database/src/models/channels/ops/reference.rs and model.rs), and the route that sets them
-- (crates/delta/src/routes/channels/permissions_set.rs). `none` is a panic.
use dawnchat_api.Prelude.{Option, none, some, List, [], ◌∷◌, ◌++◌, String, if◌then◌else◌}
use dawnchat_api.Errors.{ErrorType, Result, ok, err}
use dawnchat_api.Permissions.Flags.{ChannelPermission}
use dawnchat_api.Permissions.Value.{
  Override, OverrideField, to_field, from_field, throw_if_lacking_channel_permission,
  throw_permission_override,
}
use dawnchat_api.Permissions.Calculate.{calculate_channel_permissions}
use dawnchat_api.Models.{User, Server, Channel, get}
use dawnchat_api.DatabaseQuery.State
use dawnchat_api.DatabaseQuery.Methods.{database_query}
use dawnchat_api.Messages.Store.{modify, remove_key}
use dawnchat_api.Roles.Routes.{Context, le_i64, or_min, synced}

pub data ChannelEvent : Type 0 where
  -- `ChannelUpdate`: channel, server, the overrides of roles
  channel_update : String → String → List (String × OverrideField) → ChannelEvent

pub record ChannelWorld : Type 0 where
  pub channels : List (String × Channel)
  pub events : List ChannelEvent

-- `insert` of a `HashMap`.
abbrev pub insert_key {ℓ} : {V : Type ℓ} → String → V → List (String × V) → List (String × V)
insert_key k v m = (k, v) ∷ remove_key k m

-- The channel with the override of the role.
unfoldable pub with_override : String → OverrideField → Channel → Channel
unfolding remove_key
with_override role_id permissions (Channel.text_channel c) =
    Channel.text_channel
      (record c { role_permissions = insert_key role_id permissions c.role_permissions })
with_override role_id permissions channel = channel

-- `set_channel_role_permission` of the reference database.
unfoldable pub set_channel_role_permission :
    List (String × Channel) → String → String → OverrideField → Result (List (String × Channel))
unfolding get modify with_override
set_channel_role_permission channels channel_id role_id permissions =
    elim (get channels channel_id) [
      | some (Channel.text_channel c) ↦ elim (get c.role_permissions role_id) [
        | none ↦ err ErrorType.not_found
        | some old ↦ ok (modify (with_override role_id permissions) channel_id channels)
      ]
      | _ ↦ err ErrorType.not_found
    ]

-- `Channel::set_role_permission`: the channel afterwards, and the world.
unfoldable pub set_override :
    Channel → String → OverrideField → ChannelWorld → Result Channel × ChannelWorld
unfolding set_channel_role_permission remove_key
set_override (Channel.text_channel c) role_id permissions w =
    elim (set_channel_role_permission w.channels c.id role_id permissions) [
      | err e ↦ (err e, w)
      | ok channels ↦
          let overrides = insert_key role_id permissions c.role_permissions in
          (
            ok (Channel.text_channel (record c { role_permissions = overrides })),
            record w {
              channels = channels;
              events = w.events ++ ChannelEvent.channel_update c.id c.server overrides ∷ [];
            },
          )
    ]
set_override channel role_id permissions w = (err ErrorType.invalid_operation, w)

-- The answer after the override was set.
unfoldable pub after_override :
    Context
    → Server
    → String
    → Result Channel × ChannelWorld
    → Option (Result Channel × ChannelWorld)
unfolding synced
after_override ctx server role_id (err e, w) = some (err e, w)
after_override ctx server role_id (ok channel, w) = synced ctx server (some role_id) channel w

-- `set_role_permissions`, the route, from the fetched channel on. The current value is that of the
-- role in the server.
unfoldable pub set_channel_permission_of :
    Context
    → User
    → Channel
    → String
    → Override
    → ChannelWorld
    → Option (Result Channel × ChannelWorld)
unfolding calculate_channel_permissions throw_if_lacking_channel_permission State.with_channel
    State.new State.get_member_rank get to_field from_field throw_permission_override set_override
    after_override
set_channel_permission_of ctx user channel role_id permissions w =
    elim (calculate_channel_permissions (database_query ctx.database ctx.now)
      (State.with_channel (State.new user) channel)) [
        | none ↦ none
        | some (held, query) ↦
            elim (throw_if_lacking_channel_permission held ChannelPermission.manage_permissions) [
              | err e ↦ some (err e, w)
              | ok _ ↦ elim query.server [
                | none ↦ some (err ErrorType.invalid_operation, w)
                | some server ↦ elim (get server.roles role_id) [
                  | none ↦ some (err ErrorType.not_found, w)
                  | some role ↦ elim (State.get_member_rank query) [
                    | none ↦ none
                    | some rank ↦
                        if le_i64 role.rank (or_min rank)
                        then some (err ErrorType.not_elevated, w)
                        else elim (throw_permission_override held
                            (some (from_field role.permissions)) permissions) [
                              | err e ↦ some (err e, w)
                              | ok _ ↦
                                  after_override ctx server role_id
                                    (set_override channel role_id (to_field permissions) w)
                            ]
                  ]
                ]
              ]
            ]
      ]
