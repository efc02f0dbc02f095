-- ===== src/DatabaseQuery/Roles.antt =====
-- The overrides of a member's roles, ordered from the lowest role to the highest
-- (crates/core/database/src/util/permissions.rs). The highest role has the smallest rank.
use dawnchat_api.Prelude.{Option, none, some, List, [], ◌∷◌, map, String, if◌then◌else◌}
use dawnchat_api.Permissions.Value.{ℤ, Override, OverrideField, from_field}
use dawnchat_api.Models.{Role, Server, Member, lt_i64, contains, get}

abbrev pub Ranked : Type 0
Ranked = ℤ × Override

-- `sort_by(|a, b| b.0.cmp(&a.0))`: stable, by falling rank. `x` came before all of the list.
unfoldable pub insert_ranked : Ranked → List Ranked → List Ranked
insert_ranked x [] = x ∷ []
insert_ranked x (y ∷ ys) = if lt_i64 x.0 y.0 then y ∷ insert_ranked x ys else x ∷ y ∷ ys

unfoldable pub sort_ranked : List Ranked → List Ranked
unfolding insert_ranked
sort_ranked [] = []
sort_ranked (x ∷ xs) = insert_ranked x (sort_ranked xs)

-- `member.roles`, or no roles if no member is known.
unfoldable pub member_roles : Option Member → List String
member_roles none = []
member_roles (some member) = member.roles

-- The roles of the server that the member has, with their ranks and their overrides.
unfoldable pub ranked_roles : List String → List (String × Role) → List Ranked
unfolding contains from_field
ranked_roles mine [] = []
ranked_roles mine ((id, role) ∷ roles) =
    if contains mine id
    then (role.rank, from_field role.permissions) ∷ ranked_roles mine roles
    else ranked_roles mine roles

-- The overrides of a channel for roles that the member has and the server knows.
unfoldable pub ranked_permissions :
    List String → List (String × Role) → List (String × OverrideField) → List Ranked
unfolding contains from_field get
ranked_permissions mine roles [] = []
ranked_permissions mine roles ((id, permission) ∷ rest) =
    if contains mine id
    then elim (get roles id) [
      | none ↦ ranked_permissions mine roles rest
      | some role ↦ (role.rank, from_field permission) ∷ ranked_permissions mine roles rest
    ]
    else ranked_permissions mine roles rest

-- `get_our_server_role_overrides`, for a known server.
unfoldable pub server_overrides : Server → Option Member → List Override
unfolding sort_ranked ranked_roles member_roles
server_overrides server member =
    map (λ r. r.1) (sort_ranked (ranked_roles (member_roles member) server.roles))

-- `get_our_channel_role_overrides`, for a text channel of a known server.
unfoldable pub channel_overrides :
    List (String × OverrideField) → Server → Option Member → List Override
unfolding sort_ranked ranked_permissions member_roles
channel_overrides permissions server member =
    map (λ r. r.1) (sort_ranked (ranked_permissions (member_roles member) server.roles permissions))
