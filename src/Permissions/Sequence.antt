-- ===== src/Permissions/Sequence.antt =====
-- A sequence of overrides: the last one that mentions a permission decides it.
use dawnchat_api.Prelude.{
  ℕ, Bool, true, false, Option, none, some, List, [], ◌∷◌, ◌≡◌, refl, ap, ◌∙◌, arith,
}
use dawnchat_api.Bits.{bit}
use dawnchat_api.Permissions.Value.{PermissionValue, Override, apply}
use dawnchat_api.Permissions.Bitwise.{IsU64, IsOverride, bit-apply, apply-IsU64}
use dawnchat_api.Permissions.Calculate.{apply_all}

abbrev pub AllOverrides : List Override → Type 0
AllOverrides [] = Unit
AllOverrides (o ∷ os) = IsOverride o × AllOverrides os

-- What an override says of the i-th permission: denied, else allowed, else nothing.
abbrev pub decision : Override → ℕ → Option Bool
decision o i = elim (bit o.deny i) [
  | true ↦ some false
  | false ↦ elim (bit o.allow i) [ true ↦ some true | false ↦ none ]
]

-- The last override of the sequence that says something, else the given value.
abbrev pub last_decision : List Override → ℕ → Bool → Bool
last_decision [] i b = b
last_decision (o ∷ os) i b = last_decision os i (elim (decision o i) [ none ↦ b | some c ↦ c ])

pub apply_all-IsU64 :
    (p : PermissionValue) (os : List Override) → IsU64 p → AllOverrides os → IsU64 (apply_all p os)
unfolding apply_all
apply_all-IsU64 p [] h k = h
apply_all-IsU64 p (o ∷ os) h k = apply_all-IsU64 (apply p o) os (apply-IsU64 p o h k.0) k.1

bit-apply-decision :
    (i p : ℕ) (o : Override)
    → IsU64 p
    → IsOverride o
    → bit (apply p o) i ≡ (elim (decision o i) [ none ↦ bit p i | some c ↦ c ])
bit-apply-decision i p o h k = ground (arith, bit-apply i p o h k)

-- After the loop over the overrides of a member's roles each permission is as the last override that
-- allows or denies it says (a denial wins within one override), or as it was before if none does; all
-- words being `u64`.
pub bit-apply_all :
    (os : List Override) (i p : ℕ)
    → IsU64 p
    → AllOverrides os
    → bit (apply_all p os) i ≡ last_decision os i (bit p i)
unfolding apply_all
bit-apply_all [] i p h k = refl
bit-apply_all (o ∷ os) i p h k =
    bit-apply_all os i (apply p o) (apply-IsU64 p o h k.0) k.1
    ∙ ap (last_decision os i) (bit-apply-decision i p o h k.0)
