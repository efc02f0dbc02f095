-- ===== src/BulkPermissions/Agreement.antt =====
-- `members_can_see_channel` against the calculation for one user.
use dawnchat_api.Prelude.{
  ℕ, Bool, true, false, some, none, Option, String, List, [], ◌∷◌, map, ◌≡◌, refl, sym, ap, ◌∙◌,
  ◌≢◌, ◌⊎◌, inl, inr, arith, ==_refl, ==_iff, ne_of_test, ◌==◌, string_eq, Bool-cases,
}
use dawnchat_api.Errors.{ok}
use dawnchat_api.Bits.{bit-zero}
use dawnchat_api.Permissions.Flags.{ChannelPermission, channel_value}
use dawnchat_api.Permissions.Value.{PermissionValue, has_channel_permission}
use dawnchat_api.Permissions.Calculate.{
  calculate_channel_permissions, by_channel_type, unless_visible,
}
use dawnchat_api.Models.{Database, User, Server, Member, Channel, TextChannel}
use dawnchat_api.DatabaseQuery.State.{State, with_server, with_member}
use dawnchat_api.DatabaseQuery.State
use dawnchat_api.DatabaseQuery.Methods.{
  database_query, get_channel_type, set_server_from_channel, are_we_server_owner,
}
use dawnchat_api.DatabaseQuery.Channels.{in_channel, calculate_channel_permissions_of_member}
use dawnchat_api.BulkPermissions.Query.{
  BulkQuery, BulkDatabase, Values, new, with_channel, with_members,
}
use dawnchat_api.BulkPermissions.Calculate.{
  member_of, member_value, insert, insert_values, can_see, members_can_see_channel,
  calculate_members_permissions, calculate_for, ensure_users, ensure_members,
}
use dawnchat_api.BulkPermissions.View.{view-member_value, view-unless_visible, has-view}

abbrev pub Among : User → List User → Type 0
Among u [] = ⊥
Among u (x ∷ xs) = (u ≡ x) ⊎ Among u xs

-- No other user of the list has the id of `u`.
abbrev pub IsOnlyOne : User → List User → Type 0
IsOnlyOne u us = (w : User) → Among w us → w.id ≡ u.id → w ≡ u

module _ (now : ℕ) (sv : Server) (c : TextChannel) (ms : List Member) (u : User) where
  abbrev value : PermissionValue
  value = member_value now sv c u (member_of ms u.id)

  value_of_user :
      (us : List User) (resp : Values)
      → IsOnlyOne u us
      → Among u us ⊎ (resp u.id ≡ some value)
      → insert_values now sv c ms us resp u.id ≡ some value
  unfolding insert_values
  value_of_user [] resp only (inl e) = absurd e
  value_of_user [] resp only (inr e) = e
  value_of_user (x ∷ us) resp only h =
      value_of_user us (insert resp x.id (member_value now sv c x (member_of ms x.id)))
        (λ w a e. only w (inr a) e)
        (inserted x us resp (only x (inl refl)) h (Bool-cases (u.id == x.id)))
    where
      inserted :
          (x : User) (us : List User) (resp : Values)
          → (x.id ≡ u.id → x ≡ u)
          → Among u (x ∷ us) ⊎ (resp u.id ≡ some value)
          → ((u.id == x.id) ≡ true) ⊎ ((u.id == x.id) ≡ false)
          → Among u us
            ⊎ (insert resp x.id (member_value now sv c x (member_of ms x.id)) u.id ≡ some value)
      inserted x us resp only h (inl same) =
          let e : x ≡ u = only (sym ((==_iff u.id x.id).0 same)) in
          inr (rw e (rw (==_refl u.id) refl))
      inserted x us resp only (inl (inl e)) (inr other) =
          absurd (ne_of_test u.id x.id other (ap (λ w. w.id) e))
      inserted x us resp only (inl (inr a)) (inr other) = inl a
      inserted x us resp only (inr e) (inr other) = inr (rw other e)

can_see_of :
    (values : Values) (k : String) (v : PermissionValue)
    → values k ≡ some v
    → can_see values k ≡ some (has_channel_permission v ChannelPermission.view_channel)
unfolding can_see
can_see_of values k v e = ground arith

-- The query for one user: the user's own server, channel and member are known.
abbrev pub asking : User → TextChannel → Server → Member → State
asking u c sv m =
    with_member (with_server (State.with_channel (State.new u) (Channel.text_channel c)) sv) m

module _ (db : Database) (now : ℕ) (c : TextChannel) (sv : Server) (u : User) where
  -- A member is shown whether the calculation for that one user includes `ViewChannel`; a user who
  -- is no member sees nothing.
  abbrev pub IsShown : Option Member → Option Bool → Type 0
  IsShown none shown = shown ≡ some false
  IsShown (some m) shown =
      (v : PermissionValue) × (s : State) × (calculate_channel_permissions (database_query db now)
          (asking u c sv m)
        ≡ some (v, s))
      × (shown ≡ some (has_channel_permission v ChannelPermission.view_channel))

  all_safe_of_privileged :
      (m : Member)
      → u.privileged ≡ true
      → IsShown (some m) (
          some (
            has_channel_permission
              (member_value now sv c u (some m))
              ChannelPermission.view_channel))
  unfolding calculate_channel_permissions member_value with_member with_server State.with_channel
      State.new
  all_safe_of_privileged m p =
      (channel_value ChannelPermission.grant_all_safe, asking u c sv m, ground arith, ground arith)

  all_safe_of_owner :
      (m : Member)
      → c.server ≡ sv.id
      → u.privileged ≡ false
      → u.id ≡ sv.owner
      → IsShown (some m) (
          some (
            has_channel_permission
              (member_value now sv c u (some m))
              ChannelPermission.view_channel))
  unfolding calculate_channel_permissions by_channel_type get_channel_type set_server_from_channel
      are_we_server_owner member_value with_member with_server State.with_channel State.new
  all_safe_of_owner m same p owner = (
    channel_value ChannelPermission.grant_all_safe,
    asking u c sv m,
    ground (arith, ==_iff c.server sv.id, ==_iff u.id sv.owner, ==_iff sv.owner u.id),
    ground (arith, ==_iff u.id sv.owner),
  )

  IsShown-of_ordinary :
      (m : Member)
      → c.server ≡ sv.id
      → u.privileged ≡ false
      → sv.owner ≢ u.id
      → IsShown (some m) (
          some (
            has_channel_permission
              (member_value now sv c u (some m))
              ChannelPermission.view_channel))
  unfolding with_member with_server State.with_channel State.new
  IsShown-of_ordinary m same p other = (
    unless_visible (in_channel now c sv m),
    asking u c sv m,
    calculate_channel_permissions_of_member now c sv m db (record {
      channel = refl;
      server = refl;
      same_server = same;
      member = refl;
      unprivileged = p;
      not_owner = other;
    }),
    ap some (
        has-view _
        ∙ sym (view-member_value now c sv u m p other)
        ∙ sym (view-unless_visible (in_channel now c sv m))),
  )

  IsShown-of_value :
      (m : Option Member)
      → c.server ≡ sv.id
      → IsShown m
          (some (has_channel_permission (member_value now sv c u m) ChannelPermission.view_channel))
  unfolding member_value
  IsShown-of_value none same = ap some (has-view 0 ∙ bit-zero 20)
  IsShown-of_value (some m) same = elim (Bool-cases u.privileged) [
    | inl p ↦ all_safe_of_privileged m p
    | inr p ↦ elim (Bool-cases (u.id == sv.owner)) [
      | inl owner ↦ all_safe_of_owner m same p ((==_iff u.id sv.owner).0 owner)
      | inr other ↦ IsShown-of_ordinary m same p (λ e. ne_of_test u.id sv.owner other (sym e))
    ]
  ]

  -- For a channel of the server, members `ms` and the users `us` that the database has for them, of
  -- which `u` is one and the only one with its id: the bulk calculation returns, and shows `u`
  -- exactly what the calculation for that one user would: whether a member can view the channel,
  -- privileged users, owners, mutes and timeouts included; and to a user who is no member, nothing.
  pub members_can_see_channel-IsShown :
      (bulk : BulkDatabase) (ms : List Member) (us : List User)
      → c.server ≡ sv.id
      → bulk.fetch_users (map (λ m. m.id.user) ms) ≡ ok us
      → Among u us
      → IsOnlyOne u us
      → (seen : String → Option Bool) × (q : BulkQuery) × (members_can_see_channel bulk now
            (with_members (with_channel (new sv) (Channel.text_channel c)) ms)
          ≡ some (seen, q))
        × IsShown (member_of ms u.id) (seen u.id)
  unfolding members_can_see_channel calculate_members_permissions calculate_for ensure_users
      ensure_members with_members with_channel new can_see
  members_can_see_channel-IsShown bulk ms us same fetched a only = (
    can_see (insert_values now sv c ms us (λ k. none)),
    record (with_members (with_channel (new sv) (Channel.text_channel c)) ms) {
      cached_users = some us;
      users = some us;
    },
    rw fetched refl,
    rw (can_see_of _ u.id _ (value_of_user now sv c ms u us (λ k. none) only (inl a)))
        (IsShown-of_value (member_of ms u.id) same),
  )
