-- ===== src/Roles/Guards.antt =====
-- Who sets the permissions of a role, and to what.
use dawnchat_api.Prelude.{
  ℕ, true, false, Option, some, [], String, ◌≡◌, refl, ap, ◌∙◌, inl, inr, arith, Bool-cases,
  Option-cases, string_eq,
}
use dawnchat_api.Errors.{ok, Result-cases}
use dawnchat_api.Permissions.Flags.{ChannelPermission}
use dawnchat_api.Permissions.Value.{
  PermissionValue, ℤ, Override, from_field, to_field, OverrideField, throw_permission_override,
}
use dawnchat_api.Bits.{bit}
use dawnchat_api.Permissions.Bitwise.{IsOverride}
use dawnchat_api.Permissions.Override.{
  IsI64, from_field-IsOverride, Raises, throw_permission_override_iff,
}
use dawnchat_api.Models.{User, Server, Role, get}
use dawnchat_api.Messages.Store.{modify}
use dawnchat_api.Messages.Reacting.{get-modify}
use dawnchat_api.Roles.Store.{
  World, PartialRole, empty_partial, update_role, update, set_role_permission, changed_role,
  apply_options,
}
use dawnchat_api.Roles.Authority.{Holds, StandsAbove, authorise-Holds, StandsAbove-of_rank}
use dawnchat_api.Roles.Routes.{
  Context, authorise, le_i64, or_min, set_permission_of, synced, after_set,
}

-- The role that the server of the world keeps under an id has these permissions.
abbrev pub Keeps : World → String → String → Override → Type 0
Keeps w server_id role_id permissions =
    (server : Server) × (role : Role) × (get w.servers server_id ≡ some server)
    × (get server.roles role_id ≡ some role)
    × (role.permissions ≡ to_field permissions)

pub synced_world :
    {A W : Type 0} (ctx : Context) (server : Server) (role_id : Option String) (answer : A)
    (w w' : W) (a : A)
    → synced ctx server role_id answer w ≡ some (ok a, w')
    → (a ≡ answer) × (w' ≡ w)
unfolding synced
synced_world ctx server role_id answer w w' a e = elim (Result-cases (ctx.sync server role_id)) [
  | inl (_, failed) ↦ ground arith
  | inr (_, done) ↦ ground arith
]

changed-permissions :
    (field : OverrideField) (role : Role)
    → (changed_role (record empty_partial { permissions = some field }) [] role).permissions ≡ field
unfolding changed_role apply_options
changed-permissions field role = refl

update-Keeps :
    (role role' : Role) (server_id : String) (permissions : Override) (w w' : World)
    → update role server_id
        (record empty_partial { permissions = some (to_field permissions) })
        []
        w
      ≡ (ok role', w')
    → Keeps w' server_id role.id permissions
unfolding update update_role
update-Keeps role role' server_id permissions w w' e =
    let partial : PartialRole = record empty_partial {
      permissions = some (to_field permissions);
    } in
    let change = changed_role partial [] in
    elim (Option-cases (get w.servers server_id)) [
      | inl lost ↦ ground arith
      | inr (server, found) ↦ elim (Option-cases (get server.roles role.id)) [
        | inl lost ↦ ground arith
        | inr (stored, present) ↦
            let servers : w'.servers
                ≡ modify (λ s. record s { roles = modify change role.id s.roles }) server_id
                    w.servers =
              ground arith in
            (
              record server { roles = modify change role.id server.roles },
              change stored,
              ap (λ m. get m server_id) servers
                  ∙ get-modify (λ s. record s { roles = modify change role.id s.roles }) server_id
                      w.servers server found,
              get-modify change role.id server.roles stored present,
              changed-permissions (to_field permissions) stored,
            )
      ]
    ]

set_role_permission-Keeps :
    (server server' : Server) (role : Role) (role_id : String) (permissions : Override)
    (w w' : World)
    → get server.roles role_id ≡ some role
    → set_role_permission server role_id (to_field permissions) w ≡ (ok server', w')
    → Keeps w' server.id role.id permissions
unfolding set_role_permission
set_role_permission-Keeps server server' role role_id permissions w w' found e =
    let partial : PartialRole = record empty_partial {
      permissions = some (to_field permissions);
    } in
    let done = update role server.id partial [] w in
    elim (Result-cases done.0) [
      | inl (_, failed) ↦ ground arith
      | inr (role', written) ↦
          let same : done.1 ≡ w' = ground arith in
          update-Keeps role role' server.id permissions w w' (ground arith)
    ]

-- What the route does once the change is permitted.
written :
    (ctx : Context) (server server' : Server) (role : Role) (role_id : String)
    (permissions : Override) (w w' : World)
    → get server.roles role_id ≡ some role
    → after_set ctx role_id (set_role_permission server role_id (to_field permissions) w)
      ≡ some (ok server', w')
    → Keeps w' server.id role.id permissions
unfolding after_set
written ctx server server' role role_id permissions w w' found e =
    let done = set_role_permission server role_id (to_field permissions) w in
    elim (Result-cases done.0) [
      | inl (_, failed) ↦ ground arith
      | inr (changed, set) ↦
          let (_, same) =
            synced_world ctx changed (some role_id) changed done.1 w' server' (ground arith) in
          set_role_permission-Keeps server changed role role_id permissions w w' found
            (ground arith)
    ]

-- If the route sets the permissions of a role, all words being in range, then the user holds
-- `ManagePermissions` in the server; the user is privileged, owns the server, or is a member of it
-- whose highest role is above the role (and where the calculation did not look for a member, the role
-- is at least not at the least rank); each permission that the change allows anew or denies no
-- longer is held by the user; and the stored role then has the new permissions.
pub set_permission_allowed :
    (ctx : Context) (user : User) (server server' : Server) (role : Role) (role_id : String)
    (permissions : Override) (w w' : World)
    → get server.roles role_id ≡ some role
    → IsI64 role.permissions.a
    → IsI64 role.permissions.d
    → IsOverride permissions
    → set_permission_of ctx user server role_id permissions w ≡ some (ok server', w')
    → (held : PermissionValue) × (rank : Option ℤ) × Holds ctx user server
        ChannelPermission.manage_permissions held rank
      × (le_i64 role.rank (or_min rank) ≡ false)
      × StandsAbove ctx user server role
      × ((i : ℕ) → Raises (some (from_field role.permissions)) permissions i → bit held i ≡ true)
      × Keeps w' server.id role.id permissions
unfolding set_permission_of
set_permission_allowed ctx user server server' role role_id permissions w w' found ha hd hp e =
    let auth = authorise ctx user server ChannelPermission.manage_permissions in
    elim (Option-cases auth) [
      | inl stuck ↦ ground arith
      | inr (answer, asked) ↦ elim (Result-cases answer) [
        | inl (_, refused) ↦ ground arith
        | inr ((held, rank), granted) ↦ elim (Bool-cases (le_i64 role.rank (or_min rank))) [
          | inl below ↦ ground arith
          | inr above ↦
              let current = from_field role.permissions in
              elim (Result-cases (throw_permission_override held (some current) permissions)) [
                | inl (_, denied) ↦ ground arith
                | inr (_, permitted) ↦
                    let holds =
                      authorise-Holds ctx user server ChannelPermission.manage_permissions held rank
                        (asked ∙ ap some granted) in
                    (
                      held,
                      rank,
                      holds,
                      above,
                      StandsAbove-of_rank ctx user server role held rank holds above,
                      (throw_permission_override_iff held permissions (some current)
                            (from_field-IsOverride role.permissions ha hd, hp)).0
                          permitted,
                      written ctx server server' role role_id permissions w w' found (ground arith),
                    )
              ]
        ]
      ]
    ]
