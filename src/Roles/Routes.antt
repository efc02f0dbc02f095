-- ===== src/Roles/Routes.antt =====
-- The routes that set the permissions of a role, edit, delete and order roles
-- (crates/delta/src/routes/servers/permissions_set.rs, roles_edit.rs, roles_delete.rs, roles_create.rs
-- and roles_edit_positions.rs). `none` is a panic. What a route does with the voice server after its
-- change is the parameter `sync`: it can only turn the answer into an error.
use dawnchat_api.Prelude.{
  ℕ, suc, Bool, true, false, not, ◌&&◌, ◌||◌, Option, none, some, List, [], ◌∷◌, map, String, ◌==◌,
  string_eq, nat_eq, leb, if◌then◌else◌,
}
use mathlib.Core.Option
use dawnchat_api.Errors.{ErrorType, Result, ok, err}
use dawnchat_api.Permissions.Flags.{ChannelPermission}
use dawnchat_api.Permissions.Value.{
  PermissionValue, ℤ, negsuc, Override, to_field, from_field, throw_if_lacking_channel_permission,
  throw_permission_override,
}
use dawnchat_api.Permissions.Calculate.{calculate_server_permissions}
use dawnchat_api.Models.{User, Server, Role, Database, lt_i64, get, contains, length}
use dawnchat_api.DatabaseQuery.State.{State, with_server, get_member_rank}
use dawnchat_api.DatabaseQuery.State
use dawnchat_api.DatabaseQuery.Methods.{database_query}
use dawnchat_api.Messages.Store.{remove_key}
use dawnchat_api.Roles.Store.{
  World, PartialRole, FieldsRole, empty_partial, fetch_server, update, delete, create,
  set_role_permission, set_role_ordering, ordered_roles,
}

-- What the routes read and do not change.
pub record Context : Type 0 where
  pub now : ℕ
  pub database : Database
  -- `config.features.limits.global.server_roles`
  pub server_roles : ℕ
  -- server, role
  pub sync : Server → Option String → Result (Unit {0})

-- `i64::MIN`.
abbrev pub i64_min : ℤ
i64_min = negsuc 9223372036854775807

-- `<=` of `i64`.
abbrev pub le_i64 : ℤ → ℤ → Bool
le_i64 a b = not (lt_i64 b a)

abbrev pub or_min : Option ℤ → ℤ
or_min none = i64_min
or_min (some rank) = rank

-- The permissions of the user in the server and the rank of the user's highest role, if the
-- permissions include `p`.
unfoldable pub authorise :
    Context → User → Server → ChannelPermission → Option (Result (PermissionValue × Option ℤ))
unfolding calculate_server_permissions throw_if_lacking_channel_permission with_server State.new
    get_member_rank
authorise ctx user server p =
    elim (calculate_server_permissions (database_query ctx.database ctx.now)
      (with_server (State.new user) server)) [
        | none ↦ none
        | some (permissions, query) ↦ elim (throw_if_lacking_channel_permission permissions p) [
          | err e ↦ some (err e)
          | ok _ ↦ elim (get_member_rank query) [
            | none ↦ none
            | some rank ↦ some (ok (permissions, rank))
          ]
        ]
      ]

-- The answer of a route after its change.
unfoldable pub synced {ℓ} :
    {A : Type ℓ} {W : Type 0} → Context → Server → Option String → A → W → Option (Result A × W)
synced ctx server role_id answer w = elim (ctx.sync server role_id) [
  | err e ↦ some (err e, w)
  | ok _ ↦ some (ok answer, w)
]

-- The answer after the permissions were set.
unfoldable pub after_set : Context → String → Result Server × World → Option (Result Server × World)
unfolding synced
after_set ctx role_id (err e, w) = some (err e, w)
after_set ctx role_id (ok server, w) = synced ctx server (some role_id) server w

-- `set_role_permission`, the route, from the fetched server on.
unfoldable pub set_permission_of :
    Context → User → Server → String → Override → World → Option (Result Server × World)
unfolding get authorise to_field from_field throw_permission_override set_role_permission after_set
set_permission_of ctx user server role_id permissions w = elim (get server.roles role_id) [
  | none ↦ some (err ErrorType.not_found, w)
  | some role ↦ elim (authorise ctx user server ChannelPermission.manage_permissions) [
    | none ↦ none
    | some (err e) ↦ some (err e, w)
    | some (ok (held, rank)) ↦
        if le_i64 role.rank (or_min rank)
        then some (err ErrorType.not_elevated, w)
        else elim (throw_permission_override held (some (from_field role.permissions))
            permissions) [
              | err e ↦ some (err e, w)
              | ok _ ↦
                  after_set ctx role_id
                    (set_role_permission server role_id (to_field permissions) w)
            ]
  ]
]

-- `set_role_permission`, the route.
unfoldable pub set_role_permission_route :
    Context → User → String → String → Override → World → Option (Result Server × World)
unfolding fetch_server set_permission_of
set_role_permission_route ctx user target role_id permissions w = elim (fetch_server w target) [
  | err e ↦ some (err e, w)
  | ok server ↦ set_permission_of ctx user server role_id permissions w
]

-- `edit`, the route, from the fetched server on; the request is valid.
unfoldable pub edit_role_of :
    Context
    → User
    → Server
    → String
    → Option String
    → Option String
    → Option Bool
    → List FieldsRole
    → World
    → Option (Result Role × World)
unfolding get authorise update remove_key synced
edit_role_of ctx user server role_id name colour hoist remove w =
    elim (authorise ctx user server ChannelPermission.manage_role) [
      | none ↦ none
      | some (err e) ↦ some (err e, w)
      | some (ok (held, rank)) ↦ elim (get server.roles role_id) [
        | none ↦ some (err ErrorType.not_found, w)
        | some role ↦
            if le_i64 role.rank (or_min rank)
            then some (err ErrorType.not_elevated, w)
            else (let partial : PartialRole = record empty_partial {
              name = name;
              colour = colour;
              hoist = hoist;
            } in
                let (r, w') = update role server.id partial remove w in
                elim r [
                  | err e ↦ some (err e, w')
                  | ok role' ↦
                      synced ctx (record server { roles = remove_key role_id server.roles })
                        (some role_id) role' w'
                ])
      ]
    ]

-- `delete`, the route, from the fetched server on.
unfoldable pub delete_role_of :
    Context → User → Server → String → World → Option (Result (Unit {0}) × World)
unfolding get authorise delete remove_key synced
delete_role_of ctx user server role_id w =
    elim (authorise ctx user server ChannelPermission.manage_role) [
      | none ↦ none
      | some (err e) ↦ some (err e, w)
      | some (ok (held, rank)) ↦ elim (get server.roles role_id) [
        | none ↦ some (err ErrorType.not_found, w)
        | some role ↦
            if le_i64 role.rank (or_min rank)
            then some (err ErrorType.not_elevated, w)
            else (let (r, w') = delete role server.id w in
                elim r [
                  | err e ↦ some (err e, w')
                  | ok _ ↦
                      synced ctx (record server { roles = remove_key role_id server.roles })
                        (some role_id) tt w'
                ])
      ]
    ]

-- `create`, the route, from the fetched server on; the request is valid.
unfoldable pub create_role_of :
    Context → User → Server → String → String → World → Option (Result Role × World)
unfolding authorise create
create_role_of ctx user server new_id name w =
    elim (authorise ctx user server ChannelPermission.manage_role) [
      | none ↦ none
      | some (err e) ↦ some (err e, w)
      | some (ok (held, rank)) ↦
          if leb ctx.server_roles (length server.roles)
          then some (err (ErrorType.too_many_roles ctx.server_roles), w)
          else some (create server new_id name w)
    ]

-- `position`.
unfoldable pub position : List String → String → Option ℕ
position [] x = none
position (y ∷ ys) x = if x == y then some 0 else Option.map suc (position ys x)

abbrev pub same_position : Option ℕ → Option ℕ → Bool
same_position none none = true
same_position none (some b) = false
same_position (some a) none = false
same_position (some a) (some b) = a == b

abbrev pub is_superior : Option ℤ → Role → Bool
is_superior none role = true
is_superior (some top_rank) role = le_i64 role.rank top_rank

-- Whether some role that is not below the member changes its position.
unfoldable pub moves_superior : Option ℤ → List String → List String → List (String × Role) → Bool
unfolding position
moves_superior rank existing_order new_order [] = false
moves_superior rank existing_order new_order ((id, role) ∷ roles) =
    is_superior rank role
      && not (same_position (position existing_order id) (position new_order id))
    || moves_superior rank existing_order new_order roles

unfoldable pub all_ranked : List (String × Role) → List String → Bool
unfolding contains
all_ranked [] ranks = true
all_ranked ((id, role) ∷ roles) ranks = contains ranks id && all_ranked roles ranks

abbrev pub ids_of : List (String × Role) → List String
ids_of roles = map (λ entry. entry.0) roles

-- The answer after the roles were ordered.
unfoldable pub after_ordering :
    Context → Option (Result Server × World) → Option (Result Server × World)
unfolding synced
after_ordering ctx none = none
after_ordering ctx (some (err e, w)) = some (err e, w)
after_ordering ctx (some (ok server, w)) = synced ctx server none server w

-- `edit_role_ranks`, the route, from the fetched server on.
unfoldable pub edit_role_ranks_of :
    Context → User → Server → List String → World → Option (Result Server × World)
unfolding authorise ordered_roles all_ranked moves_superior set_role_ordering after_ordering
edit_role_ranks_of ctx user server ranks w =
    elim (authorise ctx user server ChannelPermission.manage_role) [
      | none ↦ none
      | some (err e) ↦ some (err e, w)
      | some (ok (held, rank)) ↦
          if not (length ranks == length server.roles) || not (all_ranked server.roles ranks)
          then some (err ErrorType.invalid_operation, w)
          else if not (server.owner == user.id)
              && moves_superior rank (ids_of (ordered_roles server.roles)) ranks server.roles
          then some (err ErrorType.not_elevated, w)
          else after_ordering ctx (set_role_ordering server ranks w)
    ]
