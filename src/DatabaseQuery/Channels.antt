-- ===== src/DatabaseQuery/Channels.antt =====
-- The permissions of a server's member in one of its text channels, with the database behind the
-- calculation.
use dawnchat_api.Prelude.{ℕ, true, false, some, [], ◌≡◌, refl, ◌≢◌, arith, ==_iff, ==_ne, string_eq}
use dawnchat_api.Bits.{bit, bit-zero}
use dawnchat_api.Permissions.Flags.{ChannelPermission, allow_in_timeout}
use dawnchat_api.Permissions.Value.{
  PermissionValue, as_u64, apply, has_channel_permission, revoke_all,
}
use dawnchat_api.Permissions.Bitwise.{IsU64, bit-restrict, bit-apply_below}
use dawnchat_api.Permissions.Calculate.{
  apply_all, unless_publishing, unless_receiving, if_timed_out, unless_visible,
  calculate_server_permissions, calculate_member_channel_permissions, by_channel_type,
  calculate_channel_permissions,
}
use dawnchat_api.Errors.{ok}
use dawnchat_api.Models.{Database, User, Server, Member, Channel, TextChannel, in_timeout}
use dawnchat_api.DatabaseQuery.State.{State, new, with_channel}
use dawnchat_api.DatabaseQuery.Roles.{server_overrides, channel_overrides}
use dawnchat_api.DatabaseQuery.Methods.{
  database_query, are_we_a_member, are_we_server_owner, set_server_from_channel, get_channel_type,
  get_default_server_permissions, get_our_server_role_overrides, are_we_timed_out,
  do_we_have_publish_overwrites, do_we_have_receive_overwrites, get_default_channel_permissions,
  channel_defaults, get_our_channel_role_overrides,
}

unless_visible-bit :
    (i : ℕ) (p : PermissionValue) → bit (unless_visible p) i ≡ true → bit p i ≡ true
unfolding unless_visible revoke_all
unless_visible-bit i p h = ground (arith, bit-zero i)

if_timed_out-bit :
    (i : ℕ) (p : PermissionValue)
    → bit (if_timed_out true p) i ≡ true
    → bit allow_in_timeout i ≡ true
unfolding if_timed_out
if_timed_out-bit i p h = ground (arith, bit-restrict i p allow_in_timeout)

-- The query is for a text channel `c` of the server `sv`, by its member `m`, who neither is
-- privileged nor owns the server.
pub record IsMemberQuery (s : State) (c : TextChannel) (sv : Server) (m : Member) : Type 0 where
  pub channel : s.channel ≡ some (Channel.text_channel c)
  pub server : s.server ≡ some sv
  pub same_server : c.server ≡ sv.id
  pub member : s.member ≡ some m
  pub unprivileged : s.perspective.privileged ≡ false
  pub not_owner : sv.owner ≢ s.perspective.id

module _ (now : ℕ) (c : TextChannel) (sv : Server) (m : Member) where
  -- What the member holds in the server.
  unfoldable pub in_server : PermissionValue
  in_server = if_timed_out (in_timeout now m) (
      unless_receiving m.can_receive (
        unless_publishing m.can_publish
          (apply_all (as_u64 sv.default_permissions) (server_overrides sv (some m)))))

  -- What the member holds in the channel before it is made sure that the channel can be viewed.
  unfoldable pub in_channel : PermissionValue
  in_channel = if_timed_out (in_timeout now m) (
      apply_all (apply in_server (channel_defaults (Channel.text_channel c)))
        (channel_overrides c.role_permissions sv (some m)))

  -- The calculation for the server, from a query that knows the server and the member.
  server_value :
      (db : Database) (s : State)
      → s.server ≡ some sv
      → s.member ≡ some m
      → s.perspective.privileged ≡ false
      → sv.owner ≢ s.perspective.id
      → calculate_server_permissions (database_query db now) s ≡ some (in_server, s)
  unfolding calculate_server_permissions are_we_server_owner are_we_a_member
      get_default_server_permissions get_our_server_role_overrides are_we_timed_out
      do_we_have_publish_overwrites do_we_have_receive_overwrites in_server
  server_value db s server member p other = ground (arith, ==_ne sv.owner s.perspective.id other)

  -- A member who is timed out, neither is privileged nor owns the server, and asks for the value in a
  -- text channel with a query that knows only the user and the channel: the query fetches the server
  -- and the member, the calculation returns, and the value holds at most the permissions that are
  -- allowed in a timeout, whatever the overrides of roles and channel say.
  pub timed_out_limited :
      (db : Database) (u : User)
      → u.privileged ≡ false
      → db.fetch_server c.server ≡ ok sv
      → sv.owner ≢ u.id
      → db.fetch_member sv.id u.id ≡ ok m
      → in_timeout now m ≡ true
      → (v : PermissionValue) × (s : State) × (calculate_channel_permissions
            (database_query db now)
            (with_channel (new u) (Channel.text_channel c))
          ≡ some (v, s))
        × ((i : ℕ) → bit v i ≡ true → bit allow_in_timeout i ≡ true)
  unfolding calculate_channel_permissions by_channel_type calculate_member_channel_permissions
      get_channel_type set_server_from_channel are_we_server_owner are_we_a_member
      get_default_channel_permissions get_our_channel_role_overrides are_we_timed_out in_channel new
      with_channel
  timed_out_limited db u p fetched other known t =
      let s : State = record (with_channel (new u) (Channel.text_channel c)) {
        server = some sv;
        member = some m;
      } in
      (
        unless_visible in_channel,
        s,
        ground (arith, ==_ne sv.owner u.id other, server_value db s refl refl p other),
        λ i b. if_timed_out-bit i _ (rw t at (unless_visible-bit i in_channel b)),
      )

  module _ (db : Database) {s : State} (h : IsMemberQuery s c sv m) where
    pub calculate_channel_permissions_of_member :
        calculate_channel_permissions (database_query db now) s
        ≡ some (unless_visible in_channel, s)
    unfolding calculate_channel_permissions by_channel_type calculate_member_channel_permissions
        get_channel_type set_server_from_channel are_we_server_owner are_we_a_member
        get_default_channel_permissions get_our_channel_role_overrides are_we_timed_out in_channel
    calculate_channel_permissions_of_member = ground (
      arith,
      ==_ne sv.owner s.perspective.id h.not_owner,
      ==_iff c.server sv.id,
      server_value db s h.server h.member h.unprivileged h.not_owner,
    )

    -- A member whose voice is muted in the server may speak in a channel all the same: if the
    -- channel's default override allows `Speak` and no role override of the channel applies, the
    -- value that is calculated holds `Speak` (the member not being timed out, and able to view the
    -- channel).
    pub muted_may_speak :
        m.can_publish ≡ false
        → in_timeout now m ≡ false
        → channel_overrides c.role_permissions sv (some m) ≡ []
        → bit (channel_defaults (Channel.text_channel c)).allow 31 ≡ true
        → bit (channel_defaults (Channel.text_channel c)).deny 31 ≡ false
        → IsU64 (channel_defaults (Channel.text_channel c)).deny
        → has_channel_permission in_channel ChannelPermission.view_channel ≡ true
        → (v : PermissionValue) × (calculate_channel_permissions (database_query db now) s
            ≡ some (v, s))
          × (bit v 31 ≡ true)
    unfolding in_channel if_timed_out apply_all unless_visible
    muted_may_speak muted t none_apply allowed undenied fits visible = (
      unless_visible in_channel,
      calculate_channel_permissions_of_member,
      (let o = channel_defaults (Channel.text_channel c) in
          let plain : in_channel ≡ apply in_server o = simp (t, none_apply) in
          rw visible
            (rw plain (ground (arith, bit-apply_below 31 in_server o (omega arith) fits)))),
    )
