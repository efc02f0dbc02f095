-- ===== src/Roles/Store.antt =====
-- Roles and servers in the reference database and in memory
-- (crates/core/database/src/models/servers/model.rs and ops/reference.rs). `none` is a panic. What is
-- published is a list of events.
use dawnchat_api.Prelude.{
  ℕ, suc, Bool, false, Option, none, some, List, [], ◌∷◌, ◌++◌, String, string_eq, if◌then◌else◌,
}
use dawnchat_api.Errors.{ErrorType, Result, ok, err}
use dawnchat_api.Permissions.Value.{ℤ, pos, OverrideField}
use dawnchat_api.Models.{Server, Role, get, length, lt_i64}
use dawnchat_api.Messages.Store.{modify, remove_key}

-- `FieldsRole`.
pub data FieldsRole : Type 0 where
  colour : FieldsRole

-- `PartialRole`.
pub record PartialRole : Type 0 where
  pub id : Option String
  pub name : Option String
  pub permissions : Option OverrideField
  pub colour : Option String
  pub hoist : Option Bool
  pub rank : Option ℤ

abbrev pub empty_partial : PartialRole
empty_partial = record {
  id = none;
  name = none;
  permissions = none;
  colour = none;
  hoist = none;
  rank = none;
}

-- A field of a partial record, if it is set.
abbrev pub or_keep {ℓ} : {A : Type ℓ} → Option A → A → A
or_keep none old = old
or_keep (some new) old = new

abbrev pub or_keep_option {ℓ} : {A : Type ℓ} → Option A → Option A → Option A
or_keep_option none old = old
or_keep_option (some new) old = some new

-- `apply_options` of a role.
unfoldable pub apply_options : PartialRole → Role → Role
apply_options partial role = record role {
  id = or_keep partial.id role.id;
  name = or_keep partial.name role.name;
  permissions = or_keep partial.permissions role.permissions;
  colour = or_keep_option partial.colour role.colour;
  hoist = or_keep partial.hoist role.hoist;
  rank = or_keep partial.rank role.rank;
}

-- `Role::remove_field`.
unfoldable pub remove_field : FieldsRole → Role → Role
remove_field FieldsRole.colour role = record role { colour = none }

-- The loop over the fields, and the options.
unfoldable pub changed_role : PartialRole → List FieldsRole → Role → Role
unfolding apply_options remove_field
changed_role partial [] role = apply_options partial role
changed_role partial (field ∷ fields) role = changed_role partial fields (remove_field field role)

pub data Event : Type 0 where
  -- `ServerRoleUpdate`: server, role, data, clear
  role_update : String → String → PartialRole → List FieldsRole → Event
  -- `ServerRoleDelete`: server, role
  role_delete : String → String → Event
  -- `ServerRoleRanksUpdate`: server, ranks
  role_ranks_update : String → List String → Event

pub record World : Type 0 where
  pub servers : List (String × Server)
  pub events : List Event

-- `fetch_server`.
unfoldable pub fetch_server : World → String → Result Server
unfolding get
fetch_server w id = elim (get w.servers id) [
  | none ↦ err ErrorType.not_found
  | some server ↦ ok server
]

-- `update_role` of the reference database.
unfoldable pub update_role :
    List (String × Server)
    → String
    → String
    → PartialRole
    → List FieldsRole
    → Result (List (String × Server))
unfolding get modify changed_role
update_role servers server_id role_id partial remove = elim (get servers server_id) [
  | none ↦ err ErrorType.not_found
  | some server ↦ elim (get server.roles role_id) [
    | none ↦ err ErrorType.not_found
    | some role ↦ ok (
        modify (λ s. record s { roles = modify (changed_role partial remove) role_id s.roles })
          server_id servers)
  ]
]

-- `delete_role` of the reference database.
unfoldable pub delete_role :
    List (String × Server) → String → String → Result (List (String × Server))
unfolding get modify remove_key
delete_role servers server_id role_id = elim (get servers server_id) [
  | none ↦ err ErrorType.not_found
  | some server ↦ elim (get server.roles role_id) [
    | none ↦ err ErrorType.not_found
    | some role ↦
        ok (modify (λ s. record s { roles = remove_key role_id s.roles }) server_id servers)
  ]
]

-- `Role::update`: the role afterwards, and the world.
unfoldable pub update : Role → String → PartialRole → List FieldsRole → World → Result Role × World
unfolding update_role changed_role
update self server_id partial remove w =
    elim (update_role w.servers server_id self.id partial remove) [
      | err e ↦ (err e, w)
      | ok servers ↦ (
        ok (changed_role partial remove self),
        record w {
          servers = servers;
          events = w.events ++ role_update server_id self.id partial remove ∷ [];
        },
      )
    ]

-- `Role::into_optional`.
abbrev pub into_optional : Role → PartialRole
into_optional self = record {
  id = some self.id;
  name = some self.name;
  permissions = some self.permissions;
  colour = self.colour;
  hoist = some self.hoist;
  rank = some self.rank;
}

-- `insert_role` of the reference database.
unfoldable pub insert_role :
    List (String × Server) → String → Role → Result (List (String × Server))
unfolding get modify remove_key
insert_role servers server_id role = elim (get servers server_id) [
  | none ↦ err ErrorType.not_found
  | some server ↦ ok (
      modify (λ s. record s { roles = (role.id, role) ∷ remove_key role.id s.roles }) server_id
        servers)
]

-- `Role::create`, with the new id.
unfoldable pub create : Server → String → String → World → Result Role × World
unfolding insert_role
create server new_id name w =
    let role : Role = record {
      id = new_id;
      name = name;
      permissions = record { a = pos 0; d = pos 0 };
      colour = none;
      hoist = false;
      rank = pos (length server.roles);
    } in
    elim (insert_role w.servers server.id role) [
      | err e ↦ (err e, w)
      | ok servers ↦ (
        ok role,
        record {
          servers = servers;
          events = w.events ++ role_update server.id role.id (into_optional role) [] ∷ [];
        },
      )
    ]

-- `Role::delete`: the event is published before the write.
unfoldable pub delete : Role → String → World → Result (Unit {0}) × World
unfolding delete_role
delete self server_id w =
    let events = w.events ++ role_delete server_id self.id ∷ [] in
    elim (delete_role w.servers server_id self.id) [
      | err e ↦ (err e, record w { events = events })
      | ok servers ↦ (ok tt, record { servers = servers; events = events })
    ]

-- `Server::set_role_permission`: the server afterwards, and the world.
unfoldable pub set_role_permission : Server → String → OverrideField → World → Result Server × World
unfolding get modify update
set_role_permission self role_id permissions w = elim (get self.roles role_id) [
  | none ↦ (err ErrorType.not_found, w)
  | some role ↦
      let (r, w') =
        update role self.id (record empty_partial { permissions = some permissions }) [] w in
      elim r [
        | err e ↦ (err e, w')
        | ok role' ↦ (ok (record self { roles = modify (λ old. role') role_id self.roles }), w')
      ]
]

-- The order by rank of `Server::ordered_roles`: a stable sort.
unfoldable pub insert_ordered : String × Role → List (String × Role) → List (String × Role)
insert_ordered x [] = x ∷ []
insert_ordered x (y ∷ ys) = if lt_i64 y.1.rank x.1.rank then y ∷ insert_ordered x ys else x ∷ y ∷ ys

-- `Server::ordered_roles`.
unfoldable pub ordered_roles : List (String × Role) → List (String × Role)
unfolding insert_ordered
ordered_roles [] = []
ordered_roles (x ∷ xs) = insert_ordered x (ordered_roles xs)

-- The loop of `Server::set_role_ordering`; an unknown role is a panic.
unfoldable pub set_ranks : ℕ → List String → List (String × Role) → Option (List (String × Role))
unfolding get modify
set_ranks rank [] roles = some roles
set_ranks rank (id ∷ ids) roles = elim (get roles id) [
  | none ↦ none
  | some role ↦ set_ranks (suc rank) ids (modify (λ r. record r { rank = pos rank }) id roles)
]

-- `Server::set_role_ordering`: the server afterwards, and the world.
unfoldable pub set_role_ordering : Server → List String → World → Option (Result Server × World)
unfolding set_ranks get modify
set_role_ordering self new_order w = elim (set_ranks 0 new_order self.roles) [
  | none ↦ none
  | some roles ↦ elim (get w.servers self.id) [
    | none ↦ some (err ErrorType.not_found, w)
    | some stored ↦ some (
      ok (record self { roles = roles }),
      record {
        servers = modify (λ s. record s { roles = roles }) self.id w.servers;
        events = w.events ++ role_ranks_update self.id new_order ∷ [];
      },
    )
  ]
]
