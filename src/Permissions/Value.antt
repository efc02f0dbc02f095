-- ===== src/Permissions/Value.antt =====
-- A permission value, overrides and the errors on missing permissions
-- (crates/core/permissions/src/models/mod.rs, crates/core/permissions/src/models/server.rs).
-- A `u64` is a number below 2 ^ 64, an `i64` an integer from -2 ^ 63 to 2 ^ 63 - 1.
use dawnchat_api.Prelude.{
  ℕ, ◌-◌, ◌^◌, bit_and, bit_or, Bool, not, ◌||◌, Option, none, some, ltb, if◌then◌else◌, ◌==◌,
  nat_eq,
}
use dawnchat_api.Bits.{complement}
use dawnchat_api.Errors.{ErrorType, Result, ok, err}
use dawnchat_api.Permissions.Flags.{
  ChannelPermission, UserPermission, channel_value, user_value, channel_name, user_name,
}

-- `PermissionValue`, a wrapped `u64`.
abbrev pub PermissionValue : Type 0
PermissionValue = ℕ

-- `Override`.
pub record Override : Type 0 where
  pub allow : ℕ
  pub deny : ℕ

-- `Default` of `Override`.
abbrev pub default_override : Override
default_override = record { allow = 0; deny = 0 }

-- An `i64`, `negsuc n` being -(n + 1).
pub data ℤ : Type 0 where
  pos : ℕ → ℤ
  negsuc : ℕ → ℤ

-- `OverrideField`, as the database stores it.
pub record OverrideField : Type 0 where
  pub a : ℤ
  pub d : ℤ

-- `v as i64` of a `u64`.
unfoldable pub as_i64 : ℕ → ℤ
as_i64 v = if ltb v (2 ^ 63) then pos v else negsuc (2 ^ 64 - 1 - v)

-- `v as u64` of an `i64`.
unfoldable pub as_u64 : ℤ → ℕ
as_u64 (pos n) = n
as_u64 (negsuc n) = 2 ^ 64 - 1 - n

-- `From<Override> for OverrideField`.
unfoldable pub to_field : Override → OverrideField
unfolding as_i64
to_field v = record { a = as_i64 v.allow; d = as_i64 v.deny }

-- `From<OverrideField> for Override`.
unfoldable pub from_field : OverrideField → Override
unfolding as_u64
from_field v = record { allow = as_u64 v.a; deny = as_u64 v.d }

-- `!v` of a `u64`.
abbrev pub not_u64 : ℕ → ℕ
not_u64 v = complement 64 v

-- `PermissionValue::allow`.
unfoldable pub allow : PermissionValue → ℕ → PermissionValue
allow self v = bit_or self v

-- `PermissionValue::revoke`.
unfoldable pub revoke : PermissionValue → ℕ → PermissionValue
revoke self v = bit_and self (not_u64 v)

-- `PermissionValue::apply`.
unfoldable pub apply : PermissionValue → Override → PermissionValue
unfolding allow revoke
apply self v = revoke (allow self v.allow) v.deny

-- `PermissionValue::revoke_all`.
unfoldable pub revoke_all : PermissionValue → PermissionValue
revoke_all self = 0

-- `PermissionValue::restrict`.
unfoldable pub restrict : PermissionValue → ℕ → PermissionValue
restrict self v = bit_and self v

-- `PermissionValue::has`.
unfoldable pub has : PermissionValue → ℕ → Bool
has self v = bit_and self v == v

-- `PermissionValue::has_user_permission`.
unfoldable pub has_user_permission : PermissionValue → UserPermission → Bool
unfolding has user_value
has_user_permission self p = has self (user_value p)

-- `PermissionValue::has_channel_permission`.
unfoldable pub has_channel_permission : PermissionValue → ChannelPermission → Bool
unfolding has channel_value
has_channel_permission self p = has self (channel_value p)

-- `PermissionValue::throw_if_lacking_user_permission`.
unfoldable pub throw_if_lacking_user_permission :
    PermissionValue → UserPermission → Result (Unit {0})
unfolding has_user_permission user_name
throw_if_lacking_user_permission self p =
    if has_user_permission self p then ok tt else err (ErrorType.missing_permission (user_name p))

-- `PermissionValue::throw_if_lacking_channel_permission`.
unfoldable pub throw_if_lacking_channel_permission :
    PermissionValue → ChannelPermission → Result (Unit {0})
unfolding has_channel_permission channel_name
throw_if_lacking_channel_permission self p =
    if has_channel_permission self p
    then ok tt
    else err (ErrorType.missing_permission (channel_name p))

-- `PermissionValue::throw_permission_override`.
unfoldable pub throw_permission_override :
    PermissionValue → Option Override → Override → Result (Unit {0})
unfolding has
throw_permission_override self (some current) next =
    if not (has self (bit_and (not_u64 current.allow) next.allow))
      || not (has self (bit_and current.deny (not_u64 next.deny)))
    then err ErrorType.cannot_give_missing_permissions
    else ok tt
throw_permission_override self none next =
    if not (has self next.allow) then err ErrorType.cannot_give_missing_permissions else ok tt
