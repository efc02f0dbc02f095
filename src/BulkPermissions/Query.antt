-- ===== src/BulkPermissions/Query.antt =====
-- `BulkDatabasePermissionQuery` and its builder (crates/core/database/src/util/bulk_permissions.rs).
use dawnchat_api.Prelude.{String, Option, none, some, List}
use dawnchat_api.Errors.{Result, ok, err}
use dawnchat_api.Permissions.Value.{PermissionValue}
use dawnchat_api.Models.{User, Server, Member, Channel}

-- `HashMap<String, PermissionValue>`.
abbrev pub Values : Type 0
Values = String → Option PermissionValue

-- `BulkDatabasePermissionQuery`; the database is a parameter of the operations.
pub record BulkQuery : Type 0 where
  pub server : Server
  pub channel : Option Channel
  pub users : Option (List User)
  pub members : Option (List Member)
  pub cached_users : Option (List User)
  pub cached_members : Option (List Member)
  pub cached_member_perms : Option Values

-- What the query reads from the database.
pub record BulkDatabase : Type 0 where
  pub fetch_server : String → Result Server
  pub fetch_channel : String → Result Channel
  pub fetch_users : List String → Result (List User)
  -- server id, user ids
  pub fetch_members : String → List String → Result (List Member)

-- `BulkDatabasePermissionQuery::new`.
unfoldable pub new : Server → BulkQuery
new server = record {
  server = server;
  channel = none;
  users = none;
  members = none;
  cached_users = none;
  cached_members = none;
  cached_member_perms = none;
}

-- `from_server_id`; `none` is the panic of the `unwrap`.
unfoldable pub from_server_id : BulkDatabase → String → Option BulkQuery
unfolding new
from_server_id db server = elim (db.fetch_server server) [
  | err e ↦ none
  | ok found ↦ some (new found)
]

-- `channel`.
unfoldable pub with_channel : BulkQuery → Channel → BulkQuery
with_channel self channel = record self { channel = some channel }

-- `from_channel_id`; `none` is the panic of the `expect`.
unfoldable pub from_channel_id : BulkDatabase → BulkQuery → String → Option BulkQuery
unfolding with_channel
from_channel_id db self channel_id = elim (db.fetch_channel channel_id) [
  | err e ↦ none
  | ok channel ↦ some (with_channel self channel)
]

-- `members`.
unfoldable pub with_members : BulkQuery → List Member → BulkQuery
with_members self members = record self {
  users = none;
  members = some members;
  cached_users = none;
  cached_members = none;
  cached_member_perms = none;
}

-- `users`.
unfoldable pub with_users : BulkQuery → List User → BulkQuery
with_users self users = record self {
  users = some users;
  members = none;
  cached_users = none;
  cached_members = none;
  cached_member_perms = none;
}
