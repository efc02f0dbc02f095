-- ===== src/BulkPermissions/Sample.antt =====
-- A small server for the tests: one channel, and Bob, who is a member of it.
use dawnchat_api.Prelude.{true, false, none, [], ◌∷◌, String}
use dawnchat_api.Errors.{ok, err, ErrorType}
use dawnchat_api.Permissions.Value.{pos}
use dawnchat_api.Models.{User, Server, Member, Channel, TextChannel, Database}
use dawnchat_api.BulkPermissions.Query.{BulkDatabase}

abbrev pub user_of : String → User
user_of id = record {
  id = id;
  username = id;
  discriminator = "0001";
  display_name = none;
  relations = none;
  privileged = false;
  bot = none;
  suspended_until = none;
}

-- Every member may view the channels.
abbrev pub home : Server
home = record {
  id = "home";
  owner = "owner";
  name = "Home";
  description = none;
  channels = "talk" ∷ [];
  roles = [];
  default_permissions = pos 1048576;
  nsfw = false;
  analytics = false;
  discoverable = false;
}

abbrev pub talk : TextChannel
talk = record {
  id = "talk";
  server = "home";
  name = "talk";
  description = none;
  last_message_id = none;
  default_permissions = none;
  role_permissions = [];
  nsfw = false;
  slowmode = none;
}

abbrev pub bob_member : Member
bob_member = record {
  id = record { server = "home"; user = "bob" };
  joined_at = 0;
  nickname = none;
  roles = [];
  timeout = none;
  can_publish = true;
  can_receive = true;
}

abbrev pub store : Database
store = record {
  fetch_user = λ id. ok (user_of id);
  fetch_server = λ id. ok home;
  fetch_member = λ server user. err ErrorType.not_found;
  fetch_mutual_server_ids = λ a b. ok [];
  fetch_mutual_channel_ids = λ a b. ok [];
}

abbrev pub bulk_store : BulkDatabase
bulk_store = record {
  fetch_server = λ id. ok (record home { id = id });
  fetch_channel = λ id. ok (Channel.text_channel talk);
  fetch_users = λ ids. ok (user_of "bob" ∷ []);
  fetch_members = λ server ids. ok (bob_member ∷ []);
}
