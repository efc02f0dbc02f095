-- ===== src/Messages/Seen.antt =====
-- Whom the bulk calculation shows a channel to: users whose own calculation says that they can view
-- it.
use dawnchat_api.Prelude.{
  ℕ, Bool, true, Option, none, some, List, [], ◌∷◌, map, String, ◌≡◌, refl, ap, sym, ◌∙◌, ◌⊎◌,
  arith, Bool-cases, inl, inr, Option-cases, ◌==◌, string_eq, ==_iff,
}
use dawnchat_api.Permissions.Flags.{ChannelPermission}
use dawnchat_api.Permissions.Value.{PermissionValue, has_channel_permission}
use dawnchat_api.Permissions.Calculate.{calculate_channel_permissions}
use dawnchat_api.Errors.{ok, Result-cases}
use dawnchat_api.Models.{User, Server, Member, Channel, TextChannel}
use dawnchat_api.DatabaseQuery.State
use dawnchat_api.DatabaseQuery.Methods.{database_query}
use dawnchat_api.BulkPermissions.Query.{
  BulkQuery, BulkDatabase, Values, new, with_channel, with_members,
}
use dawnchat_api.BulkPermissions.Calculate.{
  member_of, insert_values, can_see, members_can_see_channel, calculate_members_permissions,
  calculate_for, ensure_users, ensure_members,
}
use dawnchat_api.BulkPermissions.Agreement.{
  Among, IsOnlyOne, IsShown, asking, members_can_see_channel-IsShown,
}
use dawnchat_api.Messages.Context.{Context}

-- A value is inserted for users only.
user_of_value :
    (now : ℕ) (sv : Server) (c : TextChannel) (ms : List Member) (us : List User) (resp : Values)
    (k : String) (v : PermissionValue)
    → insert_values now sv c ms us resp k ≡ some v
    → ((u : User) × Among u us × (u.id ≡ k)) ⊎ (resp k ≡ some v)
unfolding insert_values
user_of_value now sv c ms [] resp k v e = inr e
user_of_value now sv c ms (x ∷ us) resp k v e = elim (user_of_value now sv c ms us _ k v e) [
  | inl (u, a, same) ↦ inl (u, inr a, same)
  | inr found ↦ elim (Bool-cases (k == x.id)) [
    | inl same ↦ inl (x, inl refl, sym ((==_iff k x.id).0 same))
    | inr other ↦ inr (ground arith)
  ]
]

-- What the run of the bulk calculation for given members looked up.
seen_from :
    (bulk : BulkDatabase) (now : ℕ) (sv : Server) (c : TextChannel) (ms : List Member)
    (seen : String → Option Bool) (q : BulkQuery)
    → members_can_see_channel bulk now
        (with_members (with_channel (new sv) (Channel.text_channel c)) ms)
      ≡ some (seen, q)
    → (us : List User) × (bulk.fetch_users (map (λ m. m.id.user) ms) ≡ ok us)
      × (seen ≡ can_see (insert_values now sv c ms us (λ k. none)))
unfolding members_can_see_channel calculate_members_permissions calculate_for ensure_users
    ensure_members with_members with_channel new
seen_from bulk now sv c ms seen q e =
    elim (Result-cases (bulk.fetch_users (map (λ m. m.id.user) ms))) [
      | inl (err', failed) ↦ ground arith
      | inr (us, fetched) ↦ (us, fetched, ground arith)
    ]

-- Of the given members and users those with the id `id` can view the channel, as the calculation for
-- this one user and this member says.
abbrev pub CanView : Context → TextChannel → Server → List Member → List User → String → Type 0
CanView ctx c sv ms us id =
    (u : User) × (m : Member) × (v : PermissionValue) × (s : State.State) × Among u us
    × (u.id ≡ id)
    × (member_of ms id ≡ some m)
    × (calculate_channel_permissions (database_query ctx.database ctx.now) (asking u c sv m)
        ≡ some (v, s))
    × (has_channel_permission v ChannelPermission.view_channel ≡ true)

-- The database has each server under its own id, and no two of the users that it finds have one id.
pub record IsConsistent (bulk : BulkDatabase) : Type 0 where
  pub servers : (id : String) (sv : Server) → bulk.fetch_server id ≡ ok sv → sv.id ≡ id
  pub users :
      (ids : List String) (us : List User)
      → bulk.fetch_users ids ≡ ok us
      → (u : User) → Among u us
      → IsOnlyOne u us

view_of_shown :
    (ctx : Context) (c : TextChannel) (sv : Server) (ms : List Member) (us : List User) (u : User)
    (m : Option Member) (shown : Option Bool)
    → Among u us
    → member_of ms u.id ≡ m
    → IsShown ctx.database ctx.now c sv u m shown
    → shown ≡ some true
    → CanView ctx c sv ms us u.id
view_of_shown ctx c sv ms us u none shown a known h e = absurd (cc (h, e))
view_of_shown ctx c sv ms us u (some m) shown a known (v, s, done, same) e =
    (u, m, v, s, a, refl, known, done, cc (same, e))

can_see_of_none : (values : Values) (k : String) → values k ≡ none → can_see values k ≡ none
unfolding can_see
can_see_of_none values k e = ground arith

pub view_of_seen :
    (ctx : Context) (c : TextChannel) (sv : Server) (ms : List Member) (seen : String → Option Bool)
    (q : BulkQuery) (id : String)
    → IsConsistent ctx.bulk
    → c.server ≡ sv.id
    → members_can_see_channel ctx.bulk ctx.now
        (with_members (with_channel (new sv) (Channel.text_channel c)) ms)
      ≡ some (seen, q)
    → seen id ≡ some true
    → (us : List User) × (ctx.bulk.fetch_users (map (λ m. m.id.user) ms) ≡ ok us)
      × CanView ctx c sv ms us id
view_of_seen ctx c sv ms seen q id consistent same run e =
    let (us, fetched, from) = seen_from ctx.bulk ctx.now sv c ms seen q run in
    let values = insert_values ctx.now sv c ms us (λ k. none) in
    elim (Option-cases (values id)) [
      | inl missing ↦ absurd (cc (ap (λ f. f id) from, can_see_of_none values id missing, e))
      | inr (v, found) ↦ elim (user_of_value ctx.now sv c ms us (λ k. none) id v found) [
        | inr nothing ↦ absurd (cc nothing)
        | inl (u, a, known) ↦
            let only = consistent.users _ us fetched u a in
            let (seen', q', run', shown) =
              members_can_see_channel-IsShown ctx.database ctx.now c sv u ctx.bulk ms us same
                fetched a only in
            let same_seen : seen' ≡ seen = cc (run', run) in
            let view : CanView ctx c sv ms us u.id =
              view_of_shown ctx c sv ms us u (member_of ms u.id) (seen' u.id) a refl shown
                (ap (λ f. f u.id) same_seen ∙ ap seen known ∙ e) in
            (us, fetched, rw known at view)
      ]
    ]
