-- ===== src/Roles/Authority.antt =====
-- What a user whom a route authorises holds in the server, and above which roles the user stands.
use dawnchat_api.Prelude.{
  sym, true, false, Option, some, ◌≡◌, refl, ap, ◌∙◌, inl, inr, arith, Bool-cases, ◌⊎◌, ◌==◌,
  ==_iff, Option-cases, string_eq,
}
use dawnchat_api.Errors.{ok, Result-cases}
use dawnchat_api.Permissions.Flags.{ChannelPermission}
use dawnchat_api.Permissions.Value.{
  PermissionValue, ℤ, throw_if_lacking_channel_permission, has_channel_permission,
}
use dawnchat_api.Permissions.Calculate.{calculate_server_permissions}
use dawnchat_api.DatabaseQuery.State
use dawnchat_api.DatabaseQuery.Methods.{database_query, are_we_server_owner, are_we_a_member}
use dawnchat_api.Models.{User, Server, Role, Member, lt_i64}
use dawnchat_api.Roles.Routes.{Context, authorise, le_i64, or_min}

-- The user has these permissions in the server and this highest rank; the permissions include `p`.
abbrev pub Holds : Context → User → Server → ChannelPermission → PermissionValue → Option ℤ → Type 0
Holds ctx user server p held rank =
    (q : State.State) × (calculate_server_permissions (database_query ctx.database ctx.now)
        (State.with_server (State.new user) server)
      ≡ some (held, q))
    × (has_channel_permission held p ≡ true)
    × (State.get_member_rank q ≡ some rank)

pub authorise-Holds :
    (ctx : Context) (user : User) (server : Server) (p : ChannelPermission) (held : PermissionValue)
    (rank : Option ℤ)
    → authorise ctx user server p ≡ some (ok (held, rank))
    → Holds ctx user server p held rank
unfolding authorise throw_if_lacking_channel_permission
authorise-Holds ctx user server p held rank e =
    elim (Option-cases (
      calculate_server_permissions (database_query ctx.database ctx.now)
        (State.with_server (State.new user) server))) [
          | inl stuck ↦ ground arith
          | inr ((permissions, q), done) ↦
              elim (Bool-cases (has_channel_permission permissions p)) [
                | inr lacking ↦ ground arith
                | inl has ↦ elim (Option-cases (State.get_member_rank q)) [
                  | inl panic ↦ ground arith
                  | inr (r, ranked) ↦
                      let same : permissions ≡ held = ground arith in
                      let same_rank : r ≡ rank = ground arith in
                      (
                        q,
                        done ∙ ap (λ v. some (v, q)) same,
                        ap (λ v. has_channel_permission v p) (sym same) ∙ has,
                        ranked ∙ ap some same_rank,
                      )
                ]
              ]
        ]

-- The user owns the server, or is a member of it whose highest role is above the role.
abbrev pub OwnsOrOutranks : Context → User → Server → Role → Type 0
OwnsOrOutranks ctx user server role =
    (server.owner ≡ user.id)
    ⊎ ((m : Member) × (ctx.database.fetch_member server.id user.id ≡ ok m)
        × (lt_i64 (State.get_ranking m server) role.rank ≡ true))

-- Or the user is privileged.
abbrev pub StandsAbove : Context → User → Server → Role → Type 0
StandsAbove ctx user server role = (user.privileged ≡ true) ⊎ OwnsOrOutranks ctx user server role

pub lacks_all : has_channel_permission 0 ChannelPermission.manage_permissions ≡ false
unfolding has_channel_permission
lacks_all = refl

pub StandsAbove-of_rank :
    (ctx : Context) (user : User) (server : Server) (role : Role) (held : PermissionValue)
    (rank : Option ℤ)
    → Holds ctx user server ChannelPermission.manage_permissions held rank
    → le_i64 role.rank (or_min rank) ≡ false
    → StandsAbove ctx user server role
unfolding calculate_server_permissions are_we_server_owner are_we_a_member State.with_server
    State.new State.get_member_rank
StandsAbove-of_rank ctx user server role held rank (q, done, may, ranked) above =
    elim (Bool-cases user.privileged) [
      | inl privileged ↦ inl privileged
      | inr p ↦ elim (Bool-cases (server.owner == user.id)) [
        | inl owner ↦ inr (inl ((==_iff server.owner user.id).0 owner))
        | inr other ↦ elim (Result-cases (ctx.database.fetch_member server.id user.id)) [
          | inl (_, unknown) ↦ ground (arith, lacks_all)
          | inr (m, known) ↦ inr (inr (m, known, ground arith))
        ]
      ]
    ]
