-- ===== src/Roles/ChannelGuards.antt =====
-- Who sets the override of a role in a channel, and to what.
use dawnchat_api.Prelude.{
  true, false, Option, some, List, String, ◌≡◌, refl, ap, ◌∙◌, inl, inr, arith, Bool-cases,
  Option-cases, ==_refl, ◌==◌, ==_iff, sym, string_eq,
}
use dawnchat_api.Errors.{ok, Result-cases}
use dawnchat_api.Permissions.Flags.{ChannelPermission}
use dawnchat_api.Permissions.Value.{
  PermissionValue, ℤ, Override, from_field, to_field, throw_permission_override,
  throw_if_lacking_channel_permission, has_channel_permission,
}
use dawnchat_api.Permissions.Calculate.{
  calculate_channel_permissions, by_channel_type, calculate_member_channel_permissions,
  calculate_server_permissions,
}
use dawnchat_api.Models.{User, Server, Role, Channel, TextChannel, get, lt_i64}
use dawnchat_api.DatabaseQuery.State
use dawnchat_api.DatabaseQuery.Methods.{
  database_query, set_server_from_channel, get_channel_type, are_we_server_owner, are_we_a_member,
}
use dawnchat_api.Messages.Store.{modify}
use dawnchat_api.Messages.Reacting.{get-modify}
use dawnchat_api.Roles.Routes.{Context, le_i64, or_min}
use dawnchat_api.Roles.Authority.{OwnsOrOutranks, lacks_all}
use dawnchat_api.Roles.Guards.{synced_world}
use dawnchat_api.Roles.ChannelStore.{
  ChannelWorld, with_override, insert_key, set_channel_role_permission, set_override,
  after_override, set_channel_permission_of,
}

-- The text channel that the world keeps under an id has this override of the role.
abbrev pub KeepsOverride : ChannelWorld → String → String → Override → Type 0
KeepsOverride w channel_id role_id permissions =
    (c : TextChannel) × (get w.channels channel_id ≡ some (Channel.text_channel c))
    × (get c.role_permissions role_id ≡ some (to_field permissions))

get-insert_key :
    {V : Type 0} (k : String) (v : V) (m : List (String × V)) → get (insert_key k v m) k ≡ some v
unfolding get
get-insert_key k v m = ground (arith, ==_refl k)

with_override-text :
    (role_id : String) (permissions : Override) (c : TextChannel)
    → with_override role_id (to_field permissions) (Channel.text_channel c)
      ≡ Channel.text_channel (record c {
        role_permissions = insert_key role_id (to_field permissions) c.role_permissions;
      })
unfolding with_override
with_override-text role_id permissions c = refl

set_override-KeepsOverride :
    (c : TextChannel) (changed : Channel) (role_id : String) (permissions : Override)
    (w w' : ChannelWorld)
    → set_override (Channel.text_channel c) role_id (to_field permissions) w ≡ (ok changed, w')
    → KeepsOverride w' c.id role_id permissions
unfolding set_override set_channel_role_permission
set_override-KeepsOverride c changed role_id permissions w w' e =
    let change = with_override role_id (to_field permissions) in
    elim (Option-cases (get w.channels c.id)) [
      | inl lost ↦ ground arith
      | inr (Channel.text_channel stored, found) ↦
          elim (Option-cases (get stored.role_permissions role_id)) [
            | inl lacking ↦ ground arith
            | inr (_, present) ↦
                let channels : w'.channels ≡ modify change c.id w.channels = ground arith in
                (
                  record stored {
                    role_permissions =
                        insert_key role_id (to_field permissions) stored.role_permissions;
                  },
                  ap (λ m. get m c.id) channels
                      ∙ get-modify change c.id w.channels (Channel.text_channel stored) found
                      ∙ ap some (with_override-text role_id permissions stored),
                  get-insert_key role_id (to_field permissions) stored.role_permissions,
                )
          ]
      | inr (_, found) ↦ ground arith
    ]

written :
    (ctx : Context) (server : Server) (channel changed : Channel) (role_id : String)
    (permissions : Override) (w w' : ChannelWorld)
    → after_override ctx server role_id (set_override channel role_id (to_field permissions) w)
      ≡ some (ok changed, w')
    → (c : TextChannel) × (channel ≡ Channel.text_channel c)
      × KeepsOverride w' c.id role_id permissions
unfolding after_override set_override
written ctx server (Channel.text_channel c) changed role_id permissions w w' e =
    let done = set_override (Channel.text_channel c) role_id (to_field permissions) w in
    elim (Result-cases done.0) [
      | inl (_, failed) ↦ ground arith
      | inr (new, set) ↦
          let (_, same) =
            synced_world ctx server (some role_id) new done.1 w' changed (ground arith) in
          (c, refl, set_override-KeepsOverride c new role_id permissions w w' (ground arith))
    ]
written ctx server channel changed role_id permissions w w' e = ground arith

module _ (ctx : Context) (user : User) (c : TextChannel) (server : Server) where
  -- A query for the channel that knows the server afterwards, and with it the permission, has found the
  -- user to be the owner or a member.
  OwnsOrOutranks-of_rank :
      (role : Role) (held : PermissionValue) (q : State.State) (rank : Option ℤ)
      → calculate_channel_permissions
          (database_query ctx.database ctx.now)
          (State.with_channel (State.new user) (Channel.text_channel c))
        ≡ some (held, q)
      → has_channel_permission held ChannelPermission.manage_permissions ≡ true
      → q.server ≡ some server
      → State.get_member_rank q ≡ some rank
      → le_i64 role.rank (or_min rank) ≡ false
      → OwnsOrOutranks ctx user server role
  unfolding calculate_channel_permissions by_channel_type calculate_member_channel_permissions
      calculate_server_permissions set_server_from_channel get_channel_type are_we_server_owner
      are_we_a_member State.with_channel State.new State.get_member_rank
  OwnsOrOutranks-of_rank role held q rank done may known ranked above =
      elim (Bool-cases user.privileged) [
        | inl privileged ↦ ground arith
        | inr p ↦ elim (Result-cases (ctx.database.fetch_server c.server)) [
          | inl (_, lost) ↦ ground (arith, lacks_all)
          | inr (sv, fetched) ↦ elim (Bool-cases (sv.owner == user.id)) [
            | inl owner ↦
                let same : sv ≡ server = ground arith in
                inl (ap (λ v. v.owner) (sym same) ∙ (==_iff sv.owner user.id).0 owner)
            | inr other ↦ elim (Result-cases (ctx.database.fetch_member sv.id user.id)) [
              | inl (_, unknown) ↦ ground (arith, lacks_all)
              | inr (m, found) ↦
                  let same : sv ≡ server = ground arith in
                  let top : lt_i64 (State.get_ranking m sv) role.rank ≡ true = ground arith in
                  let here : OwnsOrOutranks ctx user sv role = inr (m, found, top) in
                  rw same at here
            ]
          ]
        ]
      ]

-- The user may manage permissions in the channel of a server, and owns the server or is a member of it
-- whose highest role is above the role; the permissions held permit the change from the override that
-- the role has in the server.
abbrev pub MaySet : Context → User → Channel → String → Override → Type 0
MaySet ctx user channel role_id permissions =
    (held : PermissionValue) × (q : State.State) × (server : Server) × (role : Role)
    × (rank : Option ℤ) × (calculate_channel_permissions (database_query ctx.database ctx.now)
          (State.with_channel (State.new user) channel)
        ≡ some (held, q))
    × (has_channel_permission held ChannelPermission.manage_permissions ≡ true)
    × (q.server ≡ some server)
    × (get server.roles role_id ≡ some role)
    × (State.get_member_rank q ≡ some rank)
    × (le_i64 role.rank (or_min rank) ≡ false)
    × OwnsOrOutranks ctx user server role
    × (throw_permission_override held (some (from_field role.permissions)) permissions ≡ ok tt)

-- The override of a role in a channel is set only if the channel is one of a server, in which the user
-- may manage permissions; the user owns the server or is a member of it whose highest role is above
-- the role; and the permissions held permit the change to the new override from the one that the role
-- has in the server. The stored channel then has the new override of the role.
pub set_channel_permission_allowed :
    (ctx : Context) (user : User) (channel changed : Channel) (role_id : String)
    (permissions : Override) (w w' : ChannelWorld)
    → set_channel_permission_of ctx user channel role_id permissions w ≡ some (ok changed, w')
    → MaySet ctx user channel role_id permissions
      × (c : TextChannel) × (channel ≡ Channel.text_channel c)
      × KeepsOverride w' c.id role_id permissions
unfolding set_channel_permission_of throw_if_lacking_channel_permission
set_channel_permission_allowed ctx user channel changed role_id permissions w w' e =
    let calculated =
      calculate_channel_permissions (database_query ctx.database ctx.now)
        (State.with_channel (State.new user) channel) in
    elim (Option-cases calculated) [
      | inl stuck ↦ ground arith
      | inr ((held, q), done) ↦
          elim (Bool-cases (has_channel_permission held ChannelPermission.manage_permissions)) [
            | inr lacking ↦ ground arith
            | inl may ↦ elim (Option-cases q.server) [
              | inl elsewhere ↦ ground arith
              | inr (server, known) ↦ elim (Option-cases (get server.roles role_id)) [
                | inl lost ↦ ground arith
                | inr (role, found) ↦ elim (Option-cases (State.get_member_rank q)) [
                  | inl panic ↦ ground arith
                  | inr (rank, ranked) ↦ elim (Bool-cases (le_i64 role.rank (or_min rank))) [
                    | inl below ↦ ground arith
                    | inr above ↦
                        let current = from_field role.permissions in
                        elim (Result-cases
                          (throw_permission_override held (some current) permissions)) [
                            | inl (_, denied) ↦ ground arith
                            | inr (_, permitted) ↦
                                let (c, text, kept) =
                                  written ctx server channel changed role_id permissions w w'
                                    (ground arith) in
                                let top =
                                  OwnsOrOutranks-of_rank ctx user c server role held q rank
                                    (rw text at done) may known ranked above in
                                (
                                  (
                                    held, q, server, role, rank, done, may, known, found, ranked,
                                    above, top, permitted,
                                  ),
                                  c,
                                  text,
                                  kept,
                                )
                          ]
                  ]
                ]
              ]
            ]
          ]
    ]
