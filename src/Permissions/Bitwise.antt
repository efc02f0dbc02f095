-- ===== src/Permissions/Bitwise.antt =====
-- What the operations on permission values do to each single bit.
use dawnchat_api.Prelude.{
  ℕ, ◌^◌, ◌<◌, bit_and, bit_or, true, not, ◌&&◌, ◌||◌, ◌≡◌, ◌↔◌, ap, sym, ◌∙◌, arith,
  eq_of_true_iff, ==_refl, ==_iff, nat_eq,
}
use native.Mathlib.Decide.{dec_lt}
use dawnchat_api.Bits.{
  bit, bit-and, bit-or, bit-pow, bit-complement, bit_above, eq_of_bits, bit_or-lt, bit_and-lt,
}
use dawnchat_api.Permissions.Value.{Override, not_u64, allow, revoke, apply, restrict, has}

-- The range of a `u64`.
abbrev pub IsU64 : ℕ → Type 0
IsU64 v = v < 2 ^ 64

pub record IsOverride (o : Override) : Type 0 where
  pub allow_fits : IsU64 o.allow
  pub deny_fits : IsU64 o.deny

pub bit-not_u64 : (i v : ℕ) → IsU64 v → i < 64 → bit (not_u64 v) i ≡ not (bit v i)
bit-not_u64 i v h k = bit-complement 64 i v h k

-- Revoking clears exactly the given bits.
pub bit-revoke : (i p v : ℕ) → IsU64 p → IsU64 v → bit (revoke p v) i ≡ (bit p i && not (bit v i))
unfolding revoke
bit-revoke i p v hp hv = elim (dec_lt i 64) [
  | yes k ↦ rw (bit-and i p (not_u64 v), bit-not_u64 i v hv k)
  | no k ↦ ground (arith, bit-and i p (not_u64 v), bit_above 64 i p hp (omega arith))
]

pub revoke-IsU64 : (p v : ℕ) → IsU64 p → IsU64 (revoke p v)
unfolding revoke
revoke-IsU64 p v h = bit_and-lt 64 p (not_u64 v) h

pub apply-IsU64 : (p : ℕ) (o : Override) → IsU64 p → IsOverride o → IsU64 (apply p o)
unfolding apply
apply-IsU64 p o hp ho =
    revoke-IsU64 (allow p o.allow) o.deny (unfold allow in bit_or-lt 64 p o.allow hp ho.allow_fits)

-- After an override a bit is set exactly if it was set or is allowed, and is not denied.
pub bit-apply :
    (i p : ℕ) (o : Override)
    → IsU64 p
    → IsOverride o
    → bit (apply p o) i ≡ ((bit p i || bit o.allow i) && not (bit o.deny i))
unfolding apply allow
bit-apply i p o hp ho =
    rw
      (bit-revoke i (bit_or p o.allow) o.deny (bit_or-lt 64 p o.allow hp ho.allow_fits)
        ho.deny_fits)
      (rw (bit-or i p o.allow))

pub bit-restrict : (i p v : ℕ) → bit (restrict p v) i ≡ (bit p i && bit v i)
unfolding restrict
bit-restrict i p v = bit-and i p v

-- Below the width the value itself need not be a `u64`.
pub bit-apply_below :
    (i p : ℕ) (o : Override)
    → i < 64
    → IsU64 o.deny
    → bit (apply p o) i ≡ ((bit p i || bit o.allow i) && not (bit o.deny i))
unfolding apply allow revoke
bit-apply_below i p o k h =
    rw (bit-and i (bit_or p o.allow) (not_u64 o.deny), bit-or i p o.allow, bit-not_u64 i o.deny h k)

-- Every bit of `v` is a bit of `p`.
abbrev pub Includes : ℕ → ℕ → Type 0
Includes p v = (i : ℕ) → bit v i ≡ true → bit p i ≡ true

has→Includes : (p v : ℕ) → has p v ≡ true → Includes p v
unfolding has
has→Includes p v h i b =
    ground (arith, ==_iff (bit_and p v) v, bit-and i p v, ap (λ x. bit x i) ((==_iff _ _).0 h))

Includes→has : (p v : ℕ) → Includes p v → has p v ≡ true
unfolding has
Includes→has p v h = (==_iff _ _).1 (eq_of_bits _ _ (λ i. ground (arith, bit-and i p v, h i)))

-- `has` tests that every given bit is set.
pub has_iff : (p v : ℕ) → (has p v ≡ true) ↔ Includes p v
has_iff p v = (has→Includes p v, Includes→has p v)

-- A single permission is held exactly if its bit is set.
pub has-pow : (p k : ℕ) → has p (2 ^ k) ≡ bit p k
has-pow p k =
    eq_of_true_iff _ _ (λ h. (has_iff p (2 ^ k)).0 h k (bit-pow k k ∙ ==_refl k))
      (λ b. (has_iff p (2 ^ k)).1 (λ i c. rw ((==_iff i k).0 (sym (bit-pow k i) ∙ c)) b))

-- What an override does to a permission does not depend on the others.
pub bit-apply-cong :
    (i p q : ℕ) (o : Override) → bit p i ≡ bit q i → bit (apply p o) i ≡ bit (apply q o) i
unfolding apply allow revoke
bit-apply-cong i p q o h = ground (
  arith,
  bit-and i (bit_or p o.allow) (not_u64 o.deny),
  bit-and i (bit_or q o.allow) (not_u64 o.deny),
  bit-or i p o.allow,
  bit-or i q o.allow,
)
