-- ===== src/DatabaseQuery/Methods/Reads.antt =====
-- The methods that only read the query (crates/core/database/src/util/permissions.rs).
use dawnchat_api.Prelude.{
  ℕ, Bool, true, false, not, Option, none, some, List, [], ◌∷◌, String, ◌==◌, string_eq,
  if◌then◌else◌,
}
use dawnchat_api.Permissions.Flags
use dawnchat_api.Permissions.Flags.{ChannelType, default_permission_direct_message}
use dawnchat_api.Permissions.Value.{Override, as_i64, as_u64, from_field, default_override}
use dawnchat_api.Models.{
  RelationshipStatus, Relationship, User, Server, Member, Channel, contains, in_timeout,
}
use dawnchat_api.DatabaseQuery.State.{State}
use dawnchat_api.DatabaseQuery.Roles.{server_overrides, channel_overrides}

-- The match on `entry.status`.
unfoldable pub convert_status : RelationshipStatus → Flags.RelationshipStatus
convert_status RelationshipStatus.none = Flags.RelationshipStatus.none
convert_status RelationshipStatus.user = Flags.RelationshipStatus.user
convert_status RelationshipStatus.friend = Flags.RelationshipStatus.friend
convert_status RelationshipStatus.outgoing = Flags.RelationshipStatus.outgoing
convert_status RelationshipStatus.incoming = Flags.RelationshipStatus.incoming
convert_status RelationshipStatus.blocked = Flags.RelationshipStatus.blocked
convert_status RelationshipStatus.blocked_other = Flags.RelationshipStatus.blocked_other

-- `for entry in relations`.
unfoldable pub find_status : String → List Relationship → Flags.RelationshipStatus
unfolding convert_status
find_status other [] = Flags.RelationshipStatus.none
find_status other (entry ∷ rest) =
    if entry.id == other then convert_status entry.status else find_status other rest

unfoldable pub owns : User → User → Bool
owns perspective other = elim other.bot [ none ↦ false | some bot ↦ perspective.id == bot.owner ]

-- `user_relationship`.
unfoldable pub user_relationship : State → Flags.RelationshipStatus
unfolding find_status owns
user_relationship self = elim self.user [
  | none ↦ Flags.RelationshipStatus.none
  | some other ↦
      if self.perspective.id == other.id
      then Flags.RelationshipStatus.user
      else if owns self.perspective other
      then Flags.RelationshipStatus.user
      else elim self.perspective.relations [
        | none ↦ Flags.RelationshipStatus.none
        | some relations ↦ find_status other.id relations
      ]
]

unfoldable pub is_bot : User → Bool
is_bot user = elim user.bot [ none ↦ false | some _ ↦ true ]

unfoldable pub are_the_users_same : State → Bool
are_the_users_same self = elim self.user [
  | none ↦ false
  | some other ↦ self.perspective.id == other.id
]

unfoldable pub user_is_bot : State → Bool
unfolding is_bot
user_is_bot self = elim self.user [ none ↦ false | some other ↦ is_bot other ]

unfoldable pub are_we_server_owner : State → Bool
are_we_server_owner self = elim self.server [
  | none ↦ false
  | some server ↦ server.owner == self.perspective.id
]

unfoldable pub get_default_server_permissions : State → ℕ
unfolding as_u64
get_default_server_permissions self = elim self.server [
  | none ↦ 0
  | some server ↦ as_u64 server.default_permissions
]

unfoldable pub get_our_server_role_overrides : State → List Override
unfolding server_overrides
get_our_server_role_overrides self = elim self.server [
  | none ↦ []
  | some server ↦ server_overrides server self.member
]

unfoldable pub are_we_timed_out : ℕ → State → Bool
unfolding in_timeout
are_we_timed_out now self = elim self.member [ none ↦ false | some member ↦ in_timeout now member ]

unfoldable pub do_we_have_publish_overwrites : State → Bool
do_we_have_publish_overwrites self = elim self.member [
  | none ↦ true
  | some member ↦ member.can_publish
]

unfoldable pub do_we_have_receive_overwrites : State → Bool
do_we_have_receive_overwrites self = elim self.member [
  | none ↦ true
  | some member ↦ member.can_receive
]

unfoldable pub channel_type : Channel → ChannelType
channel_type (Channel.saved_messages id user) = ChannelType.saved_messages
channel_type (Channel.direct_message c) = ChannelType.direct_message
channel_type (Channel.group c) = ChannelType.group
channel_type (Channel.text_channel c) = ChannelType.server_channel

unfoldable pub get_channel_type : State → ChannelType
unfolding channel_type
get_channel_type self = elim self.channel [
  | none ↦ ChannelType.unknown
  | some channel ↦ channel_type channel
]

unfoldable pub channel_defaults : Channel → Override
unfolding as_u64 as_i64 from_field default_permission_direct_message
channel_defaults (Channel.group c) = record {
  allow = as_u64 (elim c.permissions [
    | none ↦ as_i64 default_permission_direct_message
    | some permissions ↦ permissions
  ]);
  deny = 0;
}
channel_defaults (Channel.text_channel c) = elim c.default_permissions [
  | none ↦ default_override
  | some field ↦ from_field field
]
channel_defaults (Channel.saved_messages id user) = default_override
channel_defaults (Channel.direct_message c) = default_override

unfoldable pub get_default_channel_permissions : State → Override
unfolding channel_defaults
get_default_channel_permissions self = elim self.channel [
  | none ↦ default_override
  | some channel ↦ channel_defaults channel
]

unfoldable pub channel_roles : Channel → Option Server → Option Member → List Override
unfolding channel_overrides
channel_roles (Channel.text_channel c) (some server) member =
    channel_overrides c.role_permissions server member
channel_roles (Channel.text_channel c) none member = []
channel_roles (Channel.saved_messages id user) server member = []
channel_roles (Channel.direct_message c) server member = []
channel_roles (Channel.group c) server member = []

unfoldable pub get_our_channel_role_overrides : State → List Override
unfolding channel_roles
get_our_channel_role_overrides self = elim self.channel [
  | none ↦ []
  | some channel ↦ channel_roles channel self.server self.member
]

unfoldable pub owns_channel : String → Channel → Bool
owns_channel me (Channel.group c) = c.owner == me
owns_channel me (Channel.saved_messages id user) = user == me
owns_channel me (Channel.direct_message c) = false
owns_channel me (Channel.text_channel c) = false

unfoldable pub do_we_own_the_channel : State → Bool
unfolding owns_channel
do_we_own_the_channel self = elim self.channel [
  | none ↦ false
  | some channel ↦ owns_channel self.perspective.id channel
]

unfoldable pub takes_part : String → Channel → Bool
unfolding contains
takes_part me (Channel.direct_message c) = contains c.recipients me
takes_part me (Channel.group c) = contains c.recipients me
takes_part me (Channel.saved_messages id user) = false
takes_part me (Channel.text_channel c) = false

unfoldable pub are_we_part_of_the_channel : State → Bool
unfolding takes_part
are_we_part_of_the_channel self = elim self.channel [
  | none ↦ false
  | some channel ↦ takes_part self.perspective.id channel
]

-- `recipients.iter().find(|recipient| recipient != &&self.perspective.id)`.
unfoldable pub find_other : String → List String → Option String
find_other me [] = none
find_other me (r ∷ rs) = if not (r == me) then some r else find_other me rs
