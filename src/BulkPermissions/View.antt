-- ===== src/BulkPermissions/View.antt =====
-- What the bulk calculation and the calculation for a single user have in common: the view bit.
use dawnchat_api.Prelude.{
  ℕ, ◌^◌, ◌<◌, Bool, true, false, some, List, [], ◌∷◌, ◌≡◌, refl, sym, ap, ◌∙◌, ◌≢◌, inl, inr,
  arith, ==_ne, nat_eq, string_eq, Bool-cases, Option-cases,
}
use dawnchat_api.Bits.{bit, bit-and, bit-pow, bit-zero}
use dawnchat_api.Permissions.Flags.{ChannelPermission, channel_value, allow_in_timeout}
use dawnchat_api.Permissions.Value.{
  Override, has_channel_permission, apply, revoke, not_u64, revoke_all, default_override,
}
use dawnchat_api.Permissions.Bitwise.{
  has-pow, bit-apply-cong, bit-not_u64, bit-restrict, bit-apply_below,
}
use dawnchat_api.Permissions.Calculate.{
  apply_all, unless_publishing, unless_receiving, if_timed_out, unless_visible,
}
use dawnchat_api.Models.{User, Server, Member, Channel, TextChannel, in_timeout}
use dawnchat_api.DatabaseQuery.Roles.{channel_overrides}
use dawnchat_api.DatabaseQuery.Methods.{channel_defaults}
use dawnchat_api.DatabaseQuery.Channels.{in_server, in_channel}
use dawnchat_api.BulkPermissions.Calculate.{
  calculate_server_permissions, apply_default, member_value,
}

-- Revoking another permission leaves a bit as it is.
bit-revoke-other :
    (i k p : ℕ) → i < 64 → 2 ^ k < 2 ^ 64 → i ≢ k → bit (revoke p (2 ^ k)) i ≡ bit p i
unfolding revoke
bit-revoke-other i k p h fits other =
    bit-and i p (not_u64 (2 ^ k))
    ∙ (rw (bit-not_u64 i (2 ^ k) fits h, bit-pow k i, ==_ne i k other) (ground arith))

view-unless_publishing : (b : Bool) (p : ℕ) → bit (unless_publishing b p) 20 ≡ bit p 20
unfolding unless_publishing channel_value
view-unless_publishing true p = refl
view-unless_publishing false p =
    bit-revoke-other 20 32 (revoke p (2 ^ 31)) (omega arith) (omega arith) (omega arith)
    ∙ bit-revoke-other 20 31 p (omega arith) (omega arith) (omega arith)

view-unless_receiving : (b : Bool) (p : ℕ) → bit (unless_receiving b p) 20 ≡ bit p 20
unfolding unless_receiving channel_value
view-unless_receiving true p = refl
view-unless_receiving false p = bit-revoke-other 20 36 p (omega arith) (omega arith) (omega arith)

-- `ViewChannel` is allowed in a timeout.
view-timeout : bit allow_in_timeout 20 ≡ true
unfolding allow_in_timeout channel_value bit
view-timeout = refl

view-if_timed_out : (b : Bool) (p : ℕ) → bit (if_timed_out b p) 20 ≡ bit p 20
unfolding if_timed_out
view-if_timed_out true p = ground (arith, bit-restrict 20 p allow_in_timeout, view-timeout)
view-if_timed_out false p = refl

bit-apply_all-cong :
    (i p q : ℕ) (os : List Override)
    → bit p i ≡ bit q i
    → bit (apply_all p os) i ≡ bit (apply_all q os) i
unfolding apply_all
bit-apply_all-cong i p q [] h = h
bit-apply_all-cong i p q (o ∷ os) h =
    bit-apply_all-cong i (apply p o) (apply q o) os (bit-apply-cong i p q o h)

pub has-view : (p : ℕ) → has_channel_permission p ChannelPermission.view_channel ≡ bit p 20
unfolding has_channel_permission channel_value
has-view p = has-pow p 20

-- Revoking everything from whoever cannot view the channel does not change who can.
pub view-unless_visible :
    (p : ℕ) → has_channel_permission (unless_visible p) ChannelPermission.view_channel ≡ bit p 20
unfolding unless_visible revoke_all
view-unless_visible p = elim (Bool-cases (bit p 20)) [
  | inl seen ↦ ground (arith, has-view p)
  | inr hidden ↦ ground (arith, has-view p, has-view 0, bit-zero 20)
]

view-apply_default :
    (p : ℕ) (c : TextChannel)
    → bit (apply p (channel_defaults (Channel.text_channel c))) 20
      ≡ bit (apply_default p c.default_permissions) 20
unfolding apply_default channel_defaults
view-apply_default p c = elim (Option-cases c.default_permissions) [
  | inl nothing ↦ rw nothing (
      ground
        (arith, bit-apply_below 20 p default_override (omega arith) (omega arith), bit-zero 20))
  | inr (field, e) ↦ rw e refl
]

-- The server's part differs in the voice permissions, which do not concern viewing.
view-server_value :
    (now : ℕ) (c : TextChannel) (sv : Server) (u : User) (m : Member)
    → u.privileged ≡ false
    → sv.owner ≢ u.id
    → bit (in_server now c sv m) 20 ≡ bit (calculate_server_permissions now sv u m) 20
unfolding in_server calculate_server_permissions if_timed_out
view-server_value now c sv u m p other = rw p (
    rw (==_ne sv.owner u.id other) (
      view-if_timed_out (in_timeout now m) _
      ∙ view-unless_receiving m.can_receive _
      ∙ view-unless_publishing m.can_publish _
      ∙ sym (view-if_timed_out (in_timeout now m) _)))

ordinary_value :
    (now : ℕ) (c : TextChannel) (sv : Server) (u : User) (m : Member)
    → u.privileged ≡ false
    → sv.owner ≢ u.id
    → member_value now sv c u (some m)
      ≡ apply_all
          (apply_default (calculate_server_permissions now sv u m) c.default_permissions)
          (channel_overrides c.role_permissions sv (some m))
unfolding member_value
ordinary_value now c sv u m p other = ground (arith, ==_ne u.id sv.owner (λ e. other (sym e)))

-- The value of a member who neither is privileged nor owns the server: the bulk calculation does not
-- repeat the restriction of a timeout.
pub view-member_value :
    (now : ℕ) (c : TextChannel) (sv : Server) (u : User) (m : Member)
    → u.privileged ≡ false
    → sv.owner ≢ u.id
    → bit (in_channel now c sv m) 20 ≡ bit (member_value now sv c u (some m)) 20
unfolding in_channel
view-member_value now c sv u m p other =
    view-if_timed_out (in_timeout now m) _
    ∙ bit-apply_all-cong 20 _ _ (channel_overrides c.role_permissions sv (some m)) (
        bit-apply-cong 20 _ _ (channel_defaults (Channel.text_channel c))
          (view-server_value now c sv u m p other)
        ∙ view-apply_default (calculate_server_permissions now sv u m) c)
    ∙ ap (λ v. bit v 20) (sym (ordinary_value now c sv u m p other))
