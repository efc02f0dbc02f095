-- ===== src/DatabaseQuery/State.antt =====
-- The state of a permission query, its builder methods and its accessors
-- (crates/core/database/src/util/permissions.rs).
use dawnchat_api.Prelude.{ℕ, Bool, Option, none, some, List, [], ◌∷◌, String, if◌then◌else◌}
use dawnchat_api.Permissions.Value.{PermissionValue, ℤ, pos}
use dawnchat_api.Models.{User, Server, Member, Channel, Role, lt_i64, get}

-- `DatabasePermissionQuery`; the database is a parameter of the methods.
pub record State : Type 0 where
  pub perspective : User
  pub user : Option User
  pub channel : Option Channel
  pub server : Option Server
  pub member : Option Member
  pub cached_user_permission : Option PermissionValue
  pub cached_mutual_connection : Option Bool
  pub cached_permission : Option ℕ

-- `DatabasePermissionQuery::new`, and its short-hand `perms`.
unfoldable pub new : User → State
new perspective = record {
  perspective = perspective;
  user = none;
  channel = none;
  server = none;
  member = none;
  cached_user_permission = none;
  cached_mutual_connection = none;
  cached_permission = none;
}

unfoldable pub with_user : State → User → State
with_user self user = record self { user = some user }

unfoldable pub with_channel : State → Channel → State
with_channel self channel = record self { channel = some channel }

unfoldable pub with_server : State → Server → State
with_server self server = record self { server = some server }

unfoldable pub with_member : State → Member → State
with_member self member = record self { member = some member }

-- The loop of `Member::get_ranking`.
unfoldable pub lowest_rank : List (String × Role) → ℤ → List String → ℤ
unfolding get
lowest_rank roles value [] = value
lowest_rank roles value (id ∷ ids) =
    lowest_rank roles
      (elim (get roles id) [
        | none ↦ value
        | some role ↦ if lt_i64 role.rank value then role.rank else value
      ])
      ids

-- `i64::MAX`.
abbrev pub i64_max : ℤ
i64_max = pos 9223372036854775807

-- `Member::get_ranking`.
unfoldable pub get_ranking : Member → Server → ℤ
unfolding lowest_rank
get_ranking self server = lowest_rank server.roles i64_max self.roles

-- `get_member_rank`; the outer `none` is the panic of the `unwrap`.
unfoldable pub get_member_rank : State → Option (Option ℤ)
unfolding get_ranking
get_member_rank self = elim self.member [
  | none ↦ some none
  | some member ↦ elim self.server [
    | none ↦ none
    | some server ↦ some (some (get_ranking member server))
  ]
]
