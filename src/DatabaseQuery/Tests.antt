-- ===== src/DatabaseQuery/Tests.antt =====
-- Queries on a small database: a server with one channel, its owner, two members and a bot.
use dawnchat_api.Prelude.{
  ℕ, true, false, Option, none, some, List, [], ◌∷◌, String, ◌≡◌, refl, ◌≢◌, ◌↔◌, arith, ne_of_test,
  string_eq,
}
use dawnchat_api.Bits.{bit, complement}
use dawnchat_api.Errors.{ok, err, ErrorType}
use dawnchat_api.Permissions.Flags
use dawnchat_api.Permissions.Flags.{UserPermission, allow_in_timeout}
use dawnchat_api.Permissions.Value.{
  apply, PermissionValue, ℤ, pos, has_user_permission, has_channel_permission,
}
use dawnchat_api.Permissions.Calculate.{
  if_timed_out, apply_all, unless_receiving, unless_publishing, calculate_user_permissions,
  calculate_channel_permissions,
}
use dawnchat_api.Permissions.Visible.{IsVisible}
use dawnchat_api.Models.{
  User, Server, Role, Member, Channel, TextChannel, BotInformation, Database, RelationshipStatus,
  in_timeout, has_mutual_connection,
}
use dawnchat_api.DatabaseQuery.State.{
  State, new, with_user, with_channel, with_server, with_member, get_member_rank,
}
use dawnchat_api.DatabaseQuery.Roles.{Ranked, sort_ranked, channel_overrides, server_overrides}
use dawnchat_api.DatabaseQuery.Methods.{database_query, user_relationship, channel_defaults}
use dawnchat_api.DatabaseQuery.Order.{highest, as_highest}
use dawnchat_api.DatabaseQuery.Highest.{chosen, of_member, known_of_member, highest_role_decides}
use dawnchat_api.Models.{contains, get}
use dawnchat_api.Permissions.Value.{OverrideField, from_field}
use dawnchat_api.DatabaseQuery.Users.{MaySend, is_connected, asked, send_message_iff}
use dawnchat_api.DatabaseQuery.Total.{calculate_channel_permissions_returns}
use dawnchat_api.DatabaseQuery.Channels.{
  IsMemberQuery, in_channel, in_server, timed_out_limited, muted_may_speak,
}
use dawnchat_api.DatabaseQuery.Outsiders.{outsider_holds_nothing, bot_owner_holds_nothing}

abbrev user_of : String → Option BotInformation → User
user_of id bot = record {
  id = id;
  username = id;
  discriminator = "0001";
  display_name = none;
  relations = some (record { id = "friend"; status = RelationshipStatus.friend } ∷ []);
  privileged = false;
  bot = bot;
  suspended_until = none;
}

abbrev alice : User
alice = user_of "alice" none

abbrev friend : User
friend = user_of "friend" none

abbrev helper : User
helper = user_of "helper" (some (record { owner = "alice" }))

abbrev role : ℤ → Role
role rank = record {
  id = "r";
  name = "r";
  permissions = record { a = pos 0; d = pos 0 };
  colour = none;
  hoist = false;
  rank = rank;
}

abbrev home : Server
home = record {
  id = "home";
  owner = "owner";
  name = "Home";
  description = none;
  channels = "talk" ∷ [];
  roles = ("high", role (pos 1)) ∷ ("low", role (pos 5)) ∷ [];
  default_permissions = pos 1048576;
  nsfw = false;
  analytics = false;
  discoverable = false;
}

-- The channel allows `Speak` by default.
abbrev talk : TextChannel
talk = record {
  id = "talk";
  server = "home";
  name = "talk";
  description = none;
  last_message_id = none;
  default_permissions = some (record { a = pos 2147483648; d = pos 0 });
  role_permissions = [];
  nsfw = false;
  slowmode = none;
}

abbrev alice_member : Option ℕ → Member
alice_member timeout = record {
  id = record { server = "home"; user = "alice" };
  joined_at = 0;
  nickname = none;
  roles = "low" ∷ "high" ∷ [];
  timeout = timeout;
  can_publish = false;
  can_receive = true;
}

abbrev store : Database
store = record {
  fetch_user = λ id. ok friend;
  fetch_server = λ id. ok home;
  fetch_member = λ server user. err ErrorType.not_found;
  fetch_mutual_server_ids = λ a b. ok [];
  fetch_mutual_channel_ids = λ a b. ok [];
}

abbrev as_member : Option ℕ → State
as_member timeout =
    with_member (with_server (with_channel (new alice) (Channel.text_channel talk)) home)
      (alice_member timeout)

not_owner : ◌≢◌ {A = String} "owner" "alice"
not_owner = ne_of_test "owner" "alice" refl

as_member-IsMemberQuery :
    (timeout : Option ℕ) → IsMemberQuery (as_member timeout) talk home (alice_member timeout)
unfolding new with_channel with_server with_member
as_member-IsMemberQuery timeout = record {
  channel = refl;
  server = refl;
  same_server = refl;
  member = refl;
  unprivileged = refl;
  not_owner = not_owner;
}

-- The database knows Alice as a member who is timed out.
abbrev with_alice : Database
with_alice = record store { fetch_member = λ server user. ok (alice_member (some 9)) }

timed_out_limited_example :
    (v : PermissionValue) × (s : State) × (calculate_channel_permissions
        (database_query with_alice 5)
        (with_channel (new alice) (Channel.text_channel talk))
      ≡ some (v, s))
    × ((i : ℕ) → bit v i ≡ true → bit allow_in_timeout i ≡ true)
unfolding in_timeout
timed_out_limited_example =
    timed_out_limited 5 talk home (alice_member (some 9)) with_alice alice refl refl not_owner refl
      refl

muted_may_speak_example :
    (v : PermissionValue) × (calculate_channel_permissions (database_query store 5) (as_member none)
      ≡ some (v, as_member none))
    × (bit v 31 ≡ true)
unfolding in_timeout channel_overrides channel_defaults bit in_channel has_channel_permission
    if_timed_out apply_all apply in_server unless_receiving unless_publishing server_overrides
    complement
muted_may_speak_example =
    muted_may_speak 5 talk home (alice_member none) store {s = as_member none}
      (as_member-IsMemberQuery none) refl refl refl refl refl (omega arith) refl

calculate_channel_permissions_returns_example :
    (v : PermissionValue) × (s : State) × (calculate_channel_permissions
        (database_query store 5)
        (as_member none)
      ≡ some (v, s))
    × IsVisible v
unfolding new with_channel with_server with_member
calculate_channel_permissions_returns_example =
    calculate_channel_permissions_returns store 5 (as_member none) (λ c e. cc)

outsider_holds_nothing_example :
    (s : State) × (calculate_channel_permissions
        (database_query store 5)
        (with_channel (new alice) (Channel.text_channel talk))
      ≡ some (0, s))
    × (s.server ≡ some home)
outsider_holds_nothing_example =
    outsider_holds_nothing store 5 alice talk home ErrorType.not_found refl refl not_owner refl

others : ◌≢◌ {A = String} "alice" "helper"
others = ne_of_test "alice" "helper" refl

abbrev about_helper : State
about_helper = with_user (new alice) helper

bot_owner_holds_nothing_example :
    (user_relationship about_helper ≡ Flags.RelationshipStatus.user)
    × (calculate_user_permissions (database_query store 5) about_helper
        ≡ some (0, asked store about_helper))
unfolding is_connected new with_user has_mutual_connection
bot_owner_holds_nothing_example =
    bot_owner_holds_nothing store 5 about_helper helper (record { owner = "alice" }) refl refl refl
      others refl refl

abbrev about_friend : State
about_friend = with_user (new alice) friend

send_message_iff_example :
    (v : PermissionValue) × (s : State) × (calculate_user_permissions
        (database_query store 5)
        about_friend
      ≡ some (v, s))
    × ((has_user_permission v UserPermission.send_message ≡ true) ↔ MaySend store 5 about_friend)
send_message_iff_example = send_message_iff store 5 about_friend

abbrev ranked : List Ranked
ranked = (pos 1, record { allow = 1; deny = 0 }) ∷ (pos 5, record { allow = 0; deny = 1 }) ∷ []

-- The lower role of Alice denies the lowest permission in the channel, the higher one allows it.
abbrev overrides : List (String × OverrideField)
overrides =
    ("low", record { a = pos 0; d = pos 1 }) ∷ ("high", record { a = pos 1; d = pos 0 }) ∷ []

highest_role_decides_example :
    (bit (apply_all 6 (server_overrides home (some (alice_member none)))) 0
      ≡ as_highest (highest (chosen (of_member (alice_member none)) home.roles) 0) 0 (bit 6 0))
    × (bit (apply_all 6 (channel_overrides overrides home (some (alice_member none)))) 0
        ≡ as_highest
            (highest (chosen (known_of_member home (alice_member none)) overrides) 0)
            0
            (bit 6 0))
highest_role_decides_example =
    highest_role_decides home (alice_member none) overrides 6 0 (omega arith)
      (((omega arith, omega arith), ((omega arith, omega arith), tt)))
      (((omega arith, omega arith), ((omega arith, omega arith), tt)))

high_decides :
    as_highest (highest (chosen (known_of_member home (alice_member none)) overrides) 0) 0 false
    ≡ true
unfolding contains get bit from_field
high_decides = refl

highest_last :
    sort_ranked ranked
    ≡ (pos 5, record { allow = 0; deny = 1 }) ∷ (pos 1, record { allow = 1; deny = 0 }) ∷ []
unfolding sort_ranked
highest_last = refl

rank_of_alice : get_member_rank (as_member none) ≡ some (some (pos 1))
unfolding get_member_rank new with_channel with_server with_member
rank_of_alice = refl
