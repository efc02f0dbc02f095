-- ===== src/Permissions/Calculate.antt =====
-- The three calculations (crates/core/permissions/src/impl.rs), over any `PermissionQuery`.
use dawnchat_api.Prelude.{◌+◌, bit_or, Bool, not, List, [], ◌∷◌, if◌then◌else◌}
use dawnchat_api.Permissions.Flags.{
  ChannelPermission, UserPermission, ChannelType, RelationshipStatus, u64_max, channel_value,
  user_value, allow_in_timeout, default_permission_view_only, default_permission_saved_messages,
  default_permission_direct_message,
}
use dawnchat_api.Permissions.Value.{
  PermissionValue, Override, apply, revoke, revoke_all, restrict, has_user_permission,
  has_channel_permission,
}
use dawnchat_api.Permissions.Query.{PermissionQuery, Action, pure, or_else, ◌>>=◌, ◌>>◌}

-- `for role_override in overrides { permissions.apply(role_override); }`.
unfoldable pub apply_all : PermissionValue → List Override → PermissionValue
apply_all p [] = p
apply_all p (o ∷ os) = apply_all (apply p o) os

-- The steps that follow the loops, each with its test.
unfoldable pub unless_publishing : Bool → PermissionValue → PermissionValue
unfolding channel_value
unless_publishing publish p =
    if not publish
    then revoke (revoke p (channel_value ChannelPermission.speak))
        (channel_value ChannelPermission.video)
    else p

unfoldable pub unless_receiving : Bool → PermissionValue → PermissionValue
unfolding channel_value
unless_receiving receive p =
    if not receive then revoke p (channel_value ChannelPermission.listen) else p

unfoldable pub if_timed_out : Bool → PermissionValue → PermissionValue
if_timed_out timed_out p = if timed_out then restrict p allow_in_timeout else p

unfoldable pub unless_visible : PermissionValue → PermissionValue
unless_visible p =
    if not (has_channel_permission p ChannelPermission.view_channel) then revoke_all p else p

module _ {S : Type 0} (query : PermissionQuery S) where
  open query use {
    are_we_privileged, are_we_a_bot, are_the_users_same, user_relationship, user_is_bot,
    have_mutual_connection, are_we_server_owner, are_we_a_member, get_default_server_permissions,
    get_our_server_role_overrides, are_we_timed_out, do_we_have_publish_overwrites,
    do_we_have_receive_overwrites, get_channel_type, get_default_channel_permissions,
    get_our_channel_role_overrides, do_we_own_the_channel, are_we_part_of_the_channel,
    set_recipient_as_user, set_server_from_channel,
  }

  -- The part of `calculate_user_permissions` after the match on the relationship.
  unfoldable pub with_mutual_connection : PermissionValue → Action S PermissionValue
  unfolding user_value
  with_mutual_connection permissions = do
    connected ← have_mutual_connection
    if connected
        then (do
          bot ← or_else user_is_bot are_we_a_bot
          let p = user_value UserPermission.access + user_value UserPermission.view_profile
          pure (if bot then p + user_value UserPermission.send_message else p))
        else pure permissions

  -- `match query.user_relationship()`.
  unfoldable pub by_relationship : RelationshipStatus → Action S PermissionValue
  unfolding with_mutual_connection
  by_relationship RelationshipStatus.friend = pure u64_max
  by_relationship RelationshipStatus.blocked = pure (user_value UserPermission.access)
  by_relationship RelationshipStatus.blocked_other = pure (user_value UserPermission.access)
  by_relationship RelationshipStatus.incoming =
      with_mutual_connection (user_value UserPermission.access)
  by_relationship RelationshipStatus.outgoing =
      with_mutual_connection (user_value UserPermission.access)
  by_relationship RelationshipStatus.none = with_mutual_connection 0
  by_relationship RelationshipStatus.user = with_mutual_connection 0

  -- `calculate_user_permissions`.
  unfoldable pub calculate_user_permissions : Action S PermissionValue
  unfolding by_relationship
  calculate_user_permissions = do
    privileged ← are_we_privileged
    if privileged then pure u64_max else do
      same ← are_the_users_same
      if same then pure u64_max else user_relationship >>= by_relationship

  -- `calculate_server_permissions` for a member.
  unfoldable pub calculate_member_permissions : Action S PermissionValue
  calculate_member_permissions = do
    default ← get_default_server_permissions
    overrides ← get_our_server_role_overrides
    publish ← do_we_have_publish_overwrites
    receive ← do_we_have_receive_overwrites
    timed_out ← are_we_timed_out
    pure (
        if_timed_out timed_out
          (unless_receiving receive (unless_publishing publish (apply_all default overrides))))

  -- `calculate_server_permissions`.
  unfoldable pub calculate_server_permissions : Action S PermissionValue
  unfolding calculate_member_permissions channel_value
  calculate_server_permissions = do
    all ← or_else are_we_privileged are_we_server_owner
    if all then pure (channel_value ChannelPermission.grant_all_safe) else do
      member ← are_we_a_member
      if not member then pure 0 else calculate_member_permissions

  -- The arm of `calculate_channel_permissions` for a member of the channel's server.
  unfoldable pub calculate_member_channel_permissions : Action S PermissionValue
  calculate_member_channel_permissions = do
    server ← calculate_server_permissions
    default ← get_default_channel_permissions
    overrides ← get_our_channel_role_overrides
    timed_out ← are_we_timed_out
    pure (unless_visible (if_timed_out timed_out (apply_all (apply server default) overrides)))

  -- `match query.get_channel_type()`.
  unfoldable pub by_channel_type : ChannelType → Action S PermissionValue
  unfolding calculate_member_channel_permissions channel_value
  by_channel_type ChannelType.saved_messages = do
    own ← do_we_own_the_channel
    pure (if own then default_permission_saved_messages else 0)
  by_channel_type ChannelType.direct_message = do
    part ← are_we_part_of_the_channel
    if part
        then (do
          set_recipient_as_user
          permissions ← calculate_user_permissions
          pure (
              if has_user_permission permissions UserPermission.send_message
              then default_permission_direct_message
              else default_permission_view_only))
        else pure 0
  by_channel_type ChannelType.group = do
    own ← do_we_own_the_channel
    if own then pure (channel_value ChannelPermission.grant_all_safe) else do
      part ← are_we_part_of_the_channel
      if part
          then (do
            default ← get_default_channel_permissions
            pure (bit_or default_permission_view_only default.allow))
          else pure 0
  by_channel_type ChannelType.server_channel = do
    set_server_from_channel
    owner ← are_we_server_owner
    if owner then pure (channel_value ChannelPermission.grant_all_safe) else do
      member ← are_we_a_member
      if member then calculate_member_channel_permissions else pure 0
  by_channel_type ChannelType.unknown = pure 0

  -- `calculate_channel_permissions`.
  unfoldable pub calculate_channel_permissions : Action S PermissionValue
  unfolding by_channel_type
  calculate_channel_permissions = do
    privileged ← are_we_privileged
    if privileged
        then pure (channel_value ChannelPermission.grant_all_safe)
        else get_channel_type >>= by_channel_type
