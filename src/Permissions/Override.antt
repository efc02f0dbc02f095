-- ===== src/Permissions/Override.antt =====
-- The database form of an override, and who may change an override.
use dawnchat_api.Prelude.{
  ℕ, ◌^◌, ◌<◌, bit_and, true, false, not, ◌&&◌, Option, none, some, ◌≡◌, ◌↔◌, ◌⊎◌, inl, inr, arith,
}
use native.Mathlib.Decide.{dec_lt}
use dawnchat_api.Bits.{bit, bit-and, bit_above}
use dawnchat_api.Errors.{ok}
use dawnchat_api.Permissions.Value.{
  PermissionValue, Override, OverrideField, ℤ, pos, negsuc, not_u64, as_i64, as_u64, to_field,
  from_field, apply, has, throw_permission_override,
}
use dawnchat_api.Permissions.Bitwise.{IsU64, IsOverride, has_iff, bit-not_u64, bit-apply}

-- The range of an `i64`.
abbrev pub IsI64 : ℤ → Type 0
IsI64 (pos n) = n < 2 ^ 63
IsI64 (negsuc n) = n < 2 ^ 63

as_u64-as_i64 : (v : ℕ) → IsU64 v → as_u64 (as_i64 v) ≡ v
unfolding as_i64 as_u64
as_u64-as_i64 v h = ground arith

as_i64-as_u64 : (v : ℤ) → IsI64 v → as_i64 (as_u64 v) ≡ v
unfolding as_i64 as_u64
as_i64-as_u64 v h = ground arith

-- An override survives being stored: of every override of `u64` words the database form converts
-- back to it.
pub from_field-to_field : (o : Override) → IsOverride o → from_field (to_field o) ≡ o
unfolding from_field to_field
from_field-to_field o h =
    ground (arith, as_u64-as_i64 o.allow h.allow_fits, as_u64-as_i64 o.deny h.deny_fits)

as_u64-IsU64 : (v : ℤ) → IsI64 v → IsU64 (as_u64 v)
unfolding as_u64
as_u64-IsU64 v h = ground arith

pub from_field-IsOverride :
    (field : OverrideField) → IsI64 field.a → IsI64 field.d → IsOverride (from_field field)
unfolding from_field
from_field-IsOverride field ha hd = record {
  allow_fits = as_u64-IsU64 field.a ha;
  deny_fits = as_u64-IsU64 field.d hd;
}

-- And every stored pair of `i64` words is the database form of the override that is read from it.
pub to_field-from_field : (f : OverrideField) → IsI64 f.a → IsI64 f.d → to_field (from_field f) ≡ f
unfolding from_field to_field
to_field-from_field f ha hd = ground (arith, as_i64-as_u64 f.a ha, as_i64-as_u64 f.d hd)

-- The change from `current` to `next` allows the i-th permission anew, or denies it no longer.
abbrev pub Raises : Option Override → Override → ℕ → Type 0
Raises (some current) next i =
    ((bit current.allow i ≡ false) × (bit next.allow i ≡ true))
    ⊎ ((bit current.deny i ≡ true) × (bit next.deny i ≡ false))
Raises none next i = bit next.allow i ≡ true

abbrev pub AreOverrides : Option Override → Override → Type 0
AreOverrides (some current) next = IsOverride current × IsOverride next
AreOverrides none next = IsOverride next

bit-allowed_anew :
    (c n : Override) (i : ℕ)
    → IsOverride c
    → IsOverride n
    → bit (bit_and (not_u64 c.allow) n.allow) i ≡ (not (bit c.allow i) && bit n.allow i)
bit-allowed_anew c n i hc hn = elim (dec_lt i 64) [
  | yes k ↦ rw (bit-and i (not_u64 c.allow) n.allow, bit-not_u64 i c.allow hc.allow_fits k)
  | no k ↦ ground (
    arith,
    bit-and i (not_u64 c.allow) n.allow,
    bit_above 64 i n.allow hn.allow_fits (omega arith),
  )
]

bit-denied_no_longer :
    (c n : Override) (i : ℕ)
    → IsOverride c
    → IsOverride n
    → bit (bit_and c.deny (not_u64 n.deny)) i ≡ (bit c.deny i && not (bit n.deny i))
bit-denied_no_longer c n i hc hn = elim (dec_lt i 64) [
  | yes k ↦ rw (bit-and i c.deny (not_u64 n.deny), bit-not_u64 i n.deny hn.deny_fits k)
  | no k ↦
      ground
        (arith, bit-and i c.deny (not_u64 n.deny), bit_above 64 i c.deny hc.deny_fits (omega arith))
]

module _ (self : PermissionValue) (next : Override) where
  permitted_holds :
      (current : Option Override)
      → AreOverrides current next
      → throw_permission_override self current next ≡ ok tt
      → (i : ℕ) → Raises current next i
      → bit self i ≡ true
  unfolding throw_permission_override
  permitted_holds none fits e i r = (has_iff self next.allow).0 (ground arith) i r
  permitted_holds (some c) fits e i (inl r) =
      (has_iff self (bit_and (not_u64 c.allow) next.allow)).0 (ground arith) i
        (ground (arith, bit-allowed_anew c next i fits.0 fits.1))
  permitted_holds (some c) fits e i (inr r) =
      (has_iff self (bit_and c.deny (not_u64 next.deny))).0 (ground arith) i
        (ground (arith, bit-denied_no_longer c next i fits.0 fits.1))

  holds_permitted :
      (current : Option Override)
      → AreOverrides current next
      → ((i : ℕ) → Raises current next i → bit self i ≡ true)
      → throw_permission_override self current next ≡ ok tt
  unfolding throw_permission_override
  holds_permitted none fits all = rw ((has_iff self next.allow).1 all)
  holds_permitted (some c) fits all = rw (
    (has_iff self (bit_and (not_u64 c.allow) next.allow)).1
        (λ i b. all i (inl ground (arith, bit-allowed_anew c next i fits.0 fits.1))),
    (has_iff self (bit_and c.deny (not_u64 next.deny))).1
        (λ i b. all i (inr ground (arith, bit-denied_no_longer c next i fits.0 fits.1))),
  )

  -- A change of an override is permitted exactly if the one who makes it holds each permission that
  -- the change allows anew or denies no longer, all words being `u64`.
  pub throw_permission_override_iff :
      (current : Option Override)
      → AreOverrides current next
      → (throw_permission_override self current next ≡ ok tt)
        ↔ ((i : ℕ) → Raises current next i → bit self i ≡ true)
  throw_permission_override_iff current fits =
      (permitted_holds current fits, holds_permitted current fits)

  -- No escalation: if a change of an override is permitted, then on whatever value the override is
  -- applied, each permission that the new override yields and the current one did not is held by the
  -- one who made the change.
  pub no_escalation :
      (current : Override) (base : PermissionValue) (i : ℕ)
      → IsU64 base
      → IsOverride current
      → IsOverride next
      → throw_permission_override self (some current) next ≡ ok tt
      → bit (apply base current) i ≡ false
      → bit (apply base next) i ≡ true
      → bit self i ≡ true
  no_escalation c base i hb hc hn e lacked has = ground (
    arith,
    bit-apply i base c hb hc,
    bit-apply i base next hb hn,
    permitted_holds (some c) (hc, hn) e i,
  )
