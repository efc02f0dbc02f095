-- ===== src/Roles/Sample.antt =====
-- For the tests: a moderator of a small server sets the permissions of a role below the own one, and
-- orders such roles.
use dawnchat_api.Prelude.{string_eq, false, none, some, List, [], ◌∷◌, String, ◌≡◌, refl}
use dawnchat_api.Errors.{ok, err, ErrorType}
use dawnchat_api.Bits.{complement}
use dawnchat_api.Permissions.Flags.{ChannelPermission}
use dawnchat_api.Permissions.Value.{ℤ, pos, Override, OverrideField}
use dawnchat_api.Models.{Server, Role}
use dawnchat_api.BulkPermissions.Sample.{user_of, home, bob_member, store}
use dawnchat_api.DatabaseQuery.Methods.{
  get_channel_type, set_server_from_channel, get_our_channel_role_overrides,
  get_default_channel_permissions,
}
use dawnchat_api.Permissions.Calculate.{calculate_server_permissions, unless_visible}
use dawnchat_api.Roles.ChannelStore.{ChannelWorld, ChannelEvent, set_channel_permission_of}
use dawnchat_api.BulkPermissions.Sample.{talk}
use dawnchat_api.Models.{Channel, TextChannel}
use dawnchat_api.Roles.Store.{World, role_ranks_update, role_update, empty_partial}
use dawnchat_api.Permissions.Value.{apply}
use dawnchat_api.Permissions.Calculate.{
  if_timed_out, unless_receiving, unless_publishing, apply_all,
}
use dawnchat_api.DatabaseQuery.Methods.{
  are_we_server_owner, are_we_a_member, are_we_timed_out, do_we_have_receive_overwrites,
  do_we_have_publish_overwrites, get_our_server_role_overrides, get_default_server_permissions,
}
use dawnchat_api.Roles.Routes.{Context, authorise, set_permission_of, edit_role_ranks_of}

abbrev pub role_of : String → ℤ → OverrideField → Role
role_of id rank permissions = record {
  id = id;
  name = id;
  permissions = permissions;
  colour = none;
  hoist = false;
  rank = rank;
}

abbrev pub no_override : OverrideField
no_override = record { a = pos 0; d = pos 0 }

-- `ManageChannel`, `ManagePermissions` and `ManageRole`.
abbrev pub moderator : OverrideField
moderator = record { a = pos 13; d = pos 0 }

abbrev pub server : Server
server = record home {
  roles =
      ("admin", role_of "admin" (pos 0) no_override)
      ∷ ("mod", role_of "mod" (pos 1) moderator)
      ∷ ("first", role_of "first" (pos 2) no_override)
      ∷ ("second", role_of "second" (pos 3) no_override)
      ∷ [];
}

abbrev pub context : Context
context = record {
  now = 5;
  server_roles = 5;
  database = record store {
    fetch_server = λ id. ok server;
    fetch_member = λ server_id user_id. ok (record bob_member { roles = "mod" ∷ [] });
  };
  sync = λ server role. ok tt;
}

abbrev pub world : World
world = record { servers = ("home", server) ∷ []; events = [] }

pub known :
    authorise context (user_of "bob") server ChannelPermission.manage_role
    ≡ some (ok (1048589, some (pos 1)))
unfolding authorise are_we_server_owner are_we_a_member if_timed_out are_we_timed_out
    unless_receiving do_we_have_receive_overwrites unless_publishing do_we_have_publish_overwrites
    apply_all get_our_server_role_overrides apply get_default_server_permissions complement
known = refl

abbrev pub new_order : List String
new_order = "admin" ∷ "mod" ∷ "second" ∷ "first" ∷ []

abbrev pub reordered : Server
reordered = record home {
  roles =
      ("admin", role_of "admin" (pos 0) no_override)
      ∷ ("mod", role_of "mod" (pos 1) moderator)
      ∷ ("first", role_of "first" (pos 3) no_override)
      ∷ ("second", role_of "second" (pos 2) no_override)
      ∷ [];
}

abbrev pub after_reordering : World
after_reordering = record {
  servers = ("home", reordered) ∷ [];
  events = role_ranks_update "home" new_order ∷ [];
}

pub reordering :
    edit_role_ranks_of context (user_of "bob") server new_order world
    ≡ some (ok reordered, after_reordering)
unfolding edit_role_ranks_of are_we_server_owner are_we_a_member if_timed_out are_we_timed_out
    unless_receiving do_we_have_receive_overwrites unless_publishing do_we_have_publish_overwrites
    apply_all get_our_server_role_overrides apply get_default_server_permissions complement
reordering = refl

reordering_above :
    edit_role_ranks_of context
      (user_of "bob")
      server
      ("mod" ∷ "admin" ∷ "second" ∷ "first" ∷ [])
      world
    ≡ some (err ErrorType.not_elevated, world)
unfolding edit_role_ranks_of are_we_server_owner are_we_a_member if_timed_out are_we_timed_out
    unless_receiving do_we_have_receive_overwrites unless_publishing do_we_have_publish_overwrites
    apply_all get_our_server_role_overrides apply get_default_server_permissions complement
reordering_above = refl

-- `ManageChannel`.
abbrev pub allowing : Override
allowing = record { allow = 1; deny = 0 }

abbrev pub allowing_role : Role
allowing_role = role_of "first" (pos 2) (record { a = pos 1; d = pos 0 })

abbrev pub allowed : Server
allowed = record home {
  roles =
      ("admin", role_of "admin" (pos 0) no_override)
      ∷ ("mod", role_of "mod" (pos 1) moderator)
      ∷ ("first", allowing_role)
      ∷ ("second", role_of "second" (pos 3) no_override)
      ∷ [];
}

abbrev pub after_setting : World
after_setting = record {
  servers = ("home", allowed) ∷ [];
  events =
      role_update "home" "first"
        (record empty_partial { permissions = some (record { a = pos 1; d = pos 0 }) }) []
      ∷ [];
}

pub setting :
    set_permission_of context (user_of "bob") server "first" allowing world
    ≡ some (ok allowed, after_setting)
unfolding set_permission_of are_we_server_owner are_we_a_member if_timed_out are_we_timed_out
    unless_receiving do_we_have_receive_overwrites unless_publishing do_we_have_publish_overwrites
    apply_all get_our_server_role_overrides apply get_default_server_permissions complement
setting = refl

-- A channel that denies the role `SendMessage`, which the moderator lacks.
abbrev pub quiet : TextChannel
quiet = record talk { role_permissions = ("first", record { a = pos 0; d = pos 4194304 }) ∷ [] }

abbrev pub lifted : TextChannel
lifted = record talk { role_permissions = ("first", no_override) ∷ [] }

abbrev pub nothing : Override
nothing = record { allow = 0; deny = 0 }

abbrev pub channels : ChannelWorld
channels = record { channels = ("talk", Channel.text_channel quiet) ∷ []; events = [] }

abbrev pub after_lifting : ChannelWorld
after_lifting = record {
  channels = ("talk", Channel.text_channel lifted) ∷ [];
  events = ChannelEvent.channel_update "talk" "home" lifted.role_permissions ∷ [];
}

pub lifting :
    set_channel_permission_of context
      (user_of "bob")
      (Channel.text_channel quiet)
      "first"
      nothing
      channels
    ≡ some (ok (Channel.text_channel lifted), after_lifting)
unfolding set_channel_permission_of are_we_server_owner are_we_a_member if_timed_out
    are_we_timed_out unless_receiving do_we_have_receive_overwrites unless_publishing
    do_we_have_publish_overwrites apply_all get_our_server_role_overrides apply
    get_default_server_permissions complement get_channel_type set_server_from_channel
    calculate_server_permissions unless_visible get_our_channel_role_overrides
    get_default_channel_permissions
lifting = refl
