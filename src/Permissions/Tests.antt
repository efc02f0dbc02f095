-- ===== src/Permissions/Tests.antt =====
-- Overrides and values at concrete words.
use dawnchat_api.Prelude.{ℕ, true, some, [], ◌∷◌, ◌≡◌, refl, ◌↔◌, arith}
use dawnchat_api.Bits.{bit, complement}
use dawnchat_api.Errors.{ok, err, ErrorType}
use dawnchat_api.Permissions.Flags.{
  default_permission, default_permission_server, default_webhook_permissions,
}
use dawnchat_api.Permissions.Value.{
  Override, OverrideField, pos, negsuc, to_field, from_field, apply, throw_permission_override,
}
use dawnchat_api.Permissions.Calculate.{apply_all}
use dawnchat_api.Permissions.Sequence.{last_decision, bit-apply_all}
use dawnchat_api.Permissions.Override.{
  Raises, from_field-to_field, throw_permission_override_iff, no_escalation,
}

abbrev nothing : Override
nothing = record { allow = 0; deny = 0 }

-- Allows `ManageChannel` and denies `ManageServer`.
abbrev manager : Override
manager = record { allow = 1; deny = 2 }

abbrev denied : Override
denied = record { allow = 0; deny = 1 }

from_field-to_field_example : from_field (to_field manager) ≡ manager
from_field-to_field_example = from_field-to_field manager (omega arith)

abbrev negative : OverrideField
negative = record { a = negsuc 0; d = pos 3 }

throw_permission_override_iff_example :
    (throw_permission_override 5 (some nothing) manager ≡ ok tt)
    ↔ ((i : ℕ) → Raises (some nothing) manager i → bit 5 i ≡ true)
throw_permission_override_iff_example =
    throw_permission_override_iff 5 manager (some nothing) (omega arith)

throw_permission_override_refused :
    throw_permission_override 4 (some nothing) manager
    ≡ err ErrorType.cannot_give_missing_permissions
unfolding throw_permission_override complement
throw_permission_override_refused = refl

no_escalation_example : bit 5 0 ≡ true
unfolding throw_permission_override apply bit complement
no_escalation_example =
    no_escalation 5 manager nothing 8 0 (omega arith) (omega arith) (omega arith) refl refl refl

bit-apply_all_example :
    bit (apply_all 6 (manager ∷ denied ∷ [])) 0 ≡ last_decision (manager ∷ denied ∷ []) 0 (bit 6 0)
bit-apply_all_example = bit-apply_all (manager ∷ denied ∷ []) 0 6 (omega arith) (omega arith)

default_words :
    (default_permission ≡ 76477890560)
    × (default_permission_server ≡ 77014766592)
    × (default_webhook_permissions ≡ 876609536)
unfolding default_permission default_permission_server default_webhook_permissions
default_words = (refl, refl, refl)
