-- ===== src/Messages/Checks.antt =====
-- What a request to send a message is checked for before the message is built: the first part of
-- `Message::create_from_api` (crates/core/database/src/models/messages/model.rs), and the nonces
-- (crates/core/database/src/util/idempotency.rs). `byte_len` is `str::length`.
use dawnchat_api.Prelude.{
  ℕ, ◌+◌, Bool, true, false, not, ◌&&◌, ◌||◌, Option, none, some, List, [], ◌∷◌, String, ltb, leb,
  ◌==◌, string_eq, if◌then◌else◌,
}
use dawnchat_api.Errors.{ErrorType, Result, ok, err}
use dawnchat_api.Models.{is_empty}
use dawnchat_api.Messages.Model.{DataMessageSend, SendableEmbed, Interactions, ApiUser}
use dawnchat_api.Messages.Flags.{MessageFlags, has_flag, is_some}
use dawnchat_api.Messages.World.{Action, TokenCache}

module _ (byte_len : String → ℕ) where
  unfoldable pub option_len : Option String → ℕ
  option_len none = 0
  option_len (some text) = byte_len text

  unfoldable pub descriptions_len : List SendableEmbed → ℕ
  unfolding option_len
  descriptions_len [] = 0
  descriptions_len (embed ∷ embeds) = option_len embed.description + descriptions_len embeds

  -- `Message::validate_sum`.
  unfoldable pub validate_sum : Option String → List SendableEmbed → ℕ → Result (Unit {0})
  unfolding option_len descriptions_len
  validate_sum content embeds max_length =
      if leb (option_len content + descriptions_len embeds) max_length
      then ok tt
      else err ErrorType.payload_too_large

-- `as_deref().unwrap_or_default()` of an optional vector.
abbrev pub or_empty {ℓ} : {A : Type ℓ} → Option (List A) → List A
or_empty none = []
or_empty (some xs) = xs

-- `consume_nonce` of an `IdempotencyKey`: the key afterwards.
unfoldable pub consume_nonce :
    {C : Type 0} → TokenCache C → String → Option String → Action C String
consume_nonce tokens key none w = some (ok key, w)
consume_nonce tokens key (some v) w =
    let (found, cache) = tokens.get w.cache v in
    elim found [
      | some _ ↦ some (err ErrorType.duplicate_nonce, record w { cache = cache })
      | none ↦ some (ok v, record w { cache = tokens.put cache v })
    ]

-- `map_err(|_| create_error!(InvalidOperation))`.
unfoldable pub as_invalid_operation : {C A : Type 0} → Action C A → Action C A
as_invalid_operation m w = elim (m w) [
  | none ↦ none
  | some (err e, w') ↦ some (err ErrorType.invalid_operation, w')
  | some (ok a, w') ↦ some (ok a, w')
]

-- `is_none_or(|v| v.is_empty())` of the content.
abbrev pub is_blank : Option String → Bool
is_blank none = true
is_blank (some content) = content == ""

unfoldable pub check_not_empty : DataMessageSend → Result (Unit {0})
check_not_empty request =
    if is_blank request.content
      && is_empty (or_empty request.attachments)
      && is_empty (or_empty request.embeds)
    then err ErrorType.empty_message
    else ok tt

-- The flags that the request asks for.
pub record Requested : Type 0 where
  pub suppress_notifications : Bool
  pub mentions_everyone : Bool
  pub mentions_online : Bool

-- A user who is no bot.
abbrev pub is_person : Option ApiUser → Bool
is_person none = false
is_person (some user) = not (is_some user.bot)

-- `if let Some(raw_flags) = &data.flags`.
unfoldable pub request_flags : Option ℕ → Option ApiUser → Bool → Result Requested
unfolding has_flag
request_flags none user allow_mentions =
    ok (record {
      suppress_notifications = false;
      mentions_everyone = false;
      mentions_online = false;
    })
request_flags (some flags) user allow_mentions =
    let everyone = allow_mentions && has_flag flags MessageFlags.mentions_everyone in
    let online = allow_mentions && has_flag flags MessageFlags.mentions_online in
    if ltb 7 flags
    then err ErrorType.invalid_property
    else if is_person user && (everyone || online)
    then err ErrorType.is_not_bot
    else if everyone && online
    then err ErrorType.invalid_flag_value
    else ok (record {
      suppress_notifications = has_flag flags MessageFlags.suppress_notifications;
      mentions_everyone = everyone;
      mentions_online = online;
    })

-- `restrict_reactions` needs a list of reactions.
unfoldable pub check_interactions : Option Interactions → Result (Unit {0})
check_interactions none = ok tt
check_interactions (some interactions) =
    if interactions.restrict_reactions && is_empty (or_empty interactions.reactions)
    then err ErrorType.invalid_property
    else ok tt
