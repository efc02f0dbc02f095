-- ===== src/Permissions/Visible.antt =====
-- Whoever holds any permission in a channel can view it.
use dawnchat_api.Prelude.{
  ℕ, bit_or, Bool, true, false, some, ◌≡◌, refl, ◌⊎◌, inl, inr, arith, if◌then◌else◌,
}
use dawnchat_api.Bits.{bit, bit-or}
use dawnchat_api.Permissions.Flags.{
  ChannelPermission, UserPermission, ChannelType, channel_value, default_permission_view_only,
  default_permission_direct_message, default_permission_saved_messages,
}
use dawnchat_api.Permissions.Value.{
  PermissionValue, has, has_channel_permission, has_user_permission, revoke_all,
}
use dawnchat_api.Permissions.Bitwise.{has_iff}
use dawnchat_api.Permissions.Query.{PermissionQuery}
use dawnchat_api.Permissions.Calculate.{
  unless_visible, by_channel_type, calculate_channel_permissions,
  calculate_member_channel_permissions, calculate_user_permissions, calculate_server_permissions,
}
use dawnchat_api.Permissions.Ensures.{Ensures, pure-Ensures, >>=-Ensures, if-Ensures}

-- No permission at all, or at least the permission to view the channel.
abbrev pub IsVisible : PermissionValue → Type 0
IsVisible v = (v ≡ 0) ⊎ (has_channel_permission v ChannelPermission.view_channel ≡ true)

unless_visible-IsVisible : (p : PermissionValue) → IsVisible (unless_visible p)
unfolding unless_visible revoke_all
unless_visible-IsVisible p = ground arith

fixed_sets-IsVisible :
    IsVisible (channel_value ChannelPermission.grant_all_safe)
    × IsVisible default_permission_direct_message
    × IsVisible default_permission_view_only
    × IsVisible default_permission_saved_messages
unfolding has_channel_permission channel_value default_permission_direct_message
    default_permission_saved_messages
fixed_sets-IsVisible = (inr refl, inr refl, inr refl, inr refl)

view_only-Includes :
    (i : ℕ)
    → bit (channel_value ChannelPermission.view_channel) i ≡ true
    → bit default_permission_view_only i ≡ true
unfolding has channel_value default_permission_view_only
view_only-Includes = (has_iff _ _).0 refl

view_only-or : (x : ℕ) → IsVisible (bit_or default_permission_view_only x)
unfolding has_channel_permission
view_only-or x = inr (
    (has_iff _ _).1
      (λ i b. ground (arith, bit-or i default_permission_view_only x, view_only-Includes i b)))

if-IsVisible :
    (c : Bool) (v w : PermissionValue) → IsVisible v → IsVisible w → IsVisible (if c then v else w)
if-IsVisible true v w h k = h
if-IsVisible false v w h k = k

module _ {S : Type 0} (query : PermissionQuery S) where
  open query use {
    are_we_privileged, are_we_server_owner, are_we_a_member, are_we_timed_out, get_channel_type,
    get_default_channel_permissions, get_our_channel_role_overrides, do_we_own_the_channel,
    are_we_part_of_the_channel, set_recipient_as_user, set_server_from_channel,
  }

  by_channel_type-IsVisible : (t : ChannelType) → Ensures IsVisible (by_channel_type query t)
  unfolding by_channel_type calculate_member_channel_permissions
  by_channel_type-IsVisible ChannelType.saved_messages =
      >>=-Ensures IsVisible do_we_own_the_channel _
        (λ own. pure-Ensures IsVisible _ (if-IsVisible own _ 0 fixed_sets-IsVisible.3 (inl refl)))
  by_channel_type-IsVisible ChannelType.direct_message =
      >>=-Ensures IsVisible are_we_part_of_the_channel _ (λ part.
        if-Ensures IsVisible part _ _
          (>>=-Ensures IsVisible set_recipient_as_user _ (λ _.
            >>=-Ensures IsVisible (calculate_user_permissions query) _ (λ p.
              pure-Ensures IsVisible _ (
                if-IsVisible (has_user_permission p UserPermission.send_message) _ _
                  fixed_sets-IsVisible.1 fixed_sets-IsVisible.2))))
          (pure-Ensures IsVisible _ (inl refl)))
  by_channel_type-IsVisible ChannelType.group =
      >>=-Ensures IsVisible do_we_own_the_channel _ (λ own.
        if-Ensures IsVisible own _ _ (pure-Ensures IsVisible _ fixed_sets-IsVisible.0) (
          >>=-Ensures IsVisible are_we_part_of_the_channel _ (λ part.
            if-Ensures IsVisible part _ _
              (>>=-Ensures IsVisible get_default_channel_permissions _
                (λ o. pure-Ensures IsVisible _ (view_only-or o.allow)))
              (pure-Ensures IsVisible _ (inl refl)))))
  by_channel_type-IsVisible ChannelType.server_channel =
      >>=-Ensures IsVisible set_server_from_channel _ (λ _.
        >>=-Ensures IsVisible are_we_server_owner _ (λ owner.
          if-Ensures IsVisible owner _ _ (pure-Ensures IsVisible _ fixed_sets-IsVisible.0) (
            >>=-Ensures IsVisible are_we_a_member _ (λ member.
              if-Ensures IsVisible member _ _
                (>>=-Ensures IsVisible (calculate_server_permissions query) _ (λ server.
                  >>=-Ensures IsVisible get_default_channel_permissions _ (λ default.
                    >>=-Ensures IsVisible get_our_channel_role_overrides _ (λ overrides.
                      >>=-Ensures IsVisible are_we_timed_out _
                        (λ timed_out. pure-Ensures IsVisible _ (unless_visible-IsVisible _))))))
                (pure-Ensures IsVisible _ (inl refl))))))
  by_channel_type-IsVisible ChannelType.unknown = pure-Ensures IsVisible _ (inl refl)

  -- For every implementation of the query and every kind of channel: a channel permission value that
  -- is calculated is 0 or includes `ViewChannel`.
  pub calculate_channel_permissions-IsVisible :
      (s : S) (v : PermissionValue) (s' : S)
      → calculate_channel_permissions query s ≡ some (v, s')
      → IsVisible v
  unfolding calculate_channel_permissions
  calculate_channel_permissions-IsVisible = >>=-Ensures IsVisible are_we_privileged _ (λ privileged.
      if-Ensures IsVisible privileged _ _ (pure-Ensures IsVisible _ fixed_sets-IsVisible.0)
        (>>=-Ensures IsVisible get_channel_type _ by_channel_type-IsVisible))
