-- ===== src/Messages/Flags.antt =====
-- The flags of a message (crates/core/models/src/v0/messages.rs and `MessageFlagsValue` in
-- crates/core/database/src/models/messages/model.rs), `u32` words.
use dawnchat_api.Prelude.{
  ℕ, ◌^◌, bit_and, bit_or, Bool, true, false, ◌||◌, ◌==◌, nat_eq, Option, none, some, if◌then◌else◌,
}
use dawnchat_api.Bits.{complement}
use dawnchat_api.Messages.Model.{Message}

-- `MessageFlags`.
pub data MessageFlags : Type 0 where
  suppress_notifications mentions_everyone mentions_online : MessageFlags

-- `flag as u32`.
unfoldable pub flag_value : MessageFlags → ℕ
flag_value MessageFlags.suppress_notifications = 1
flag_value MessageFlags.mentions_everyone = 2
flag_value MessageFlags.mentions_online = 3

-- `MessageFlagsValue::has_value`.
unfoldable pub has_value : ℕ → ℕ → Bool
has_value self bit = bit_and self (2 ^ bit) == 2 ^ bit

-- `MessageFlagsValue::has`.
unfoldable pub has_flag : ℕ → MessageFlags → Bool
unfolding has_value flag_value
has_flag self flag = has_value self (flag_value flag)

-- `MessageFlagsValue::set_value`, a bit below 32.
unfoldable pub set_value : ℕ → ℕ → Bool → ℕ
set_value self bit toggle =
    if toggle then bit_or self (2 ^ bit) else bit_and self (complement 32 (2 ^ bit))

-- `MessageFlagsValue::set`.
unfoldable pub set_flag : ℕ → MessageFlags → Bool → ℕ
unfolding set_value flag_value
set_flag self flag toggle = set_value self (flag_value flag) toggle

-- `Message::has_suppressed_notifications`.
unfoldable pub has_suppressed_notifications : Message → Bool
unfolding flag_value
has_suppressed_notifications self = elim self.flags [
  | none ↦ false
  | some flags ↦
      bit_and flags (flag_value MessageFlags.suppress_notifications)
      == flag_value MessageFlags.suppress_notifications
]

-- `is_some` of an option.
abbrev pub is_some {ℓ} : {A : Type ℓ} → Option A → Bool
is_some none = false
is_some (some a) = true

-- `Message::contains_mass_push_mention`.
unfoldable pub contains_mass_push_mention : Message → Bool
unfolding has_flag
contains_mass_push_mention self =
    (elim self.flags [ none ↦ false | some flags ↦ has_flag flags MessageFlags.mentions_everyone ])
    || is_some self.role_mentions
