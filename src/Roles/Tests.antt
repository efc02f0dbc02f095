-- ===== src/Roles/Tests.antt =====
-- A moderator sets the permissions of a role, and orders the roles below the own one.
use dawnchat_api.Prelude.{true, false, string_eq, some, ◌≡◌, refl, arith, ℕ, Option, ne_of_test}
use dawnchat_api.Bits.{bit}
use dawnchat_api.Models.{get, contains}
use dawnchat_api.Permissions.Flags.{ChannelPermission}
use dawnchat_api.Permissions.Value.{PermissionValue, ℤ, pos, from_field}
use dawnchat_api.Permissions.Override.{Raises}
use dawnchat_api.BulkPermissions.Sample.{user_of}
use dawnchat_api.Roles.Store.{ordered_roles}
use dawnchat_api.Roles.Routes.{position, ids_of, le_i64, or_min}
use dawnchat_api.Roles.Authority.{Holds, StandsAbove}
use dawnchat_api.Roles.Guards.{Keeps, set_permission_allowed}
use dawnchat_api.Roles.Ordering.{KeepsRank}
use dawnchat_api.Roles.Reordering.{superiors_keep_place}
use dawnchat_api.Models.{Channel, TextChannel}
use dawnchat_api.Roles.ChannelGuards.{MaySet, KeepsOverride, set_channel_permission_allowed}
use dawnchat_api.Roles.Sample.{
  quiet, lifting, nothing, lifted, channels, after_lifting, role_of, no_override, moderator, server,
  context, world, known, new_order, reordered, after_reordering, reordering, allowing, allowed,
  after_setting, setting,
}

set_permission_allowed_example :
    (held : PermissionValue) × (rank : Option ℤ) × Holds context
      (user_of "bob")
      server
      ChannelPermission.manage_permissions
      held
      rank
    × (le_i64 (pos 2) (or_min rank) ≡ false)
    × StandsAbove context (user_of "bob") server (role_of "first" (pos 2) no_override)
    × ((i : ℕ) → Raises (some (from_field no_override)) allowing i → bit held i ≡ true)
    × Keeps after_setting "home" "first" allowing
unfolding get
set_permission_allowed_example =
    set_permission_allowed context (user_of "bob") server allowed
      (role_of "first" (pos 2) no_override) "first" allowing world after_setting refl (omega arith)
      (omega arith) (omega arith) setting

superiors_keep_place_example :
    (n : ℕ) × (position (ids_of (ordered_roles server.roles)) "mod" ≡ some n)
    × KeepsRank after_reordering "home" "mod" n
unfolding get contains
superiors_keep_place_example =
    superiors_keep_place context (user_of "bob") server reordered new_order world after_reordering
      "mod" (role_of "mod" (pos 1) moderator) 1048589 (some (pos 1))
      (refl, (refl, (refl, (refl, tt)))) reordering (ne_of_test "owner" "bob" refl) refl known refl

set_channel_permission_allowed_example :
    MaySet context (user_of "bob") (Channel.text_channel quiet) "first" nothing
    × (c : TextChannel) × (Channel.text_channel quiet ≡ Channel.text_channel c)
    × KeepsOverride after_lifting c.id "first" nothing
set_channel_permission_allowed_example =
    set_channel_permission_allowed context (user_of "bob") (Channel.text_channel quiet)
      (Channel.text_channel lifted) "first" nothing channels after_lifting lifting
