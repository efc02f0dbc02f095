-- ===== src/Messages/FlagBits.antt =====
-- The final flags of a created message, bit by bit.
use dawnchat_api.Prelude.{
  ℕ, ◌^◌, Bool, true, false, Option, some, String, ◌≡◌, refl, ap, ◌∙◌, nat_eq, arith, ltb,
  Bool-cases, inl, inr,
}
use native.Mathlib.Decide.{dec_lt}
use dawnchat_api.Bits.{bit, bit_above, complement}
use dawnchat_api.Permissions.Value.{has}
use dawnchat_api.Permissions.Bitwise.{has-pow}
use dawnchat_api.Errors.{ErrorType, ok, err}
use dawnchat_api.Parser.Tokens.{MessageResults}
use dawnchat_api.Models.{Channel}
use dawnchat_api.Messages.Model.{Message, DataMessageSend, ApiUser, MessageAuthor}
use dawnchat_api.Messages.Flags.{
  MessageFlags, flag_value, has_value, has_flag, set_flag, has_suppressed_notifications,
}
use dawnchat_api.Messages.World.{World, TokenCache}
use dawnchat_api.Messages.Checks.{Requested, request_flags}
use dawnchat_api.Messages.Context.{Context}
use dawnchat_api.Messages.Build.{final_flags, build_message}
use dawnchat_api.Messages.Create.{FeaturesLimits, create_from_api}
use dawnchat_api.Messages.Created.{IsCreated, create_from_api-IsCreated}

has_value-bit : (v k : ℕ) → has_value v k ≡ bit v k
unfolding has_value has
has_value-bit v k = has-pow v k

abbrev word : Bool → Bool → Bool → ℕ
word suppress everyone online =
    set_flag
      (set_flag (set_flag 0 MessageFlags.suppress_notifications suppress)
        MessageFlags.mentions_everyone everyone)
      MessageFlags.mentions_online online

word-bits :
    (s e o : Bool)
    → (bit (word s e o) 0 ≡ false)
      × (bit (word s e o) 1 ≡ s)
      × (bit (word s e o) 2 ≡ e)
      × (bit (word s e o) 3 ≡ o)
unfolding set_flag bit complement
word-bits true true true = (refl, refl, refl, refl)
word-bits true true false = (refl, refl, refl, refl)
word-bits true false true = (refl, refl, refl, refl)
word-bits true false false = (refl, refl, refl, refl)
word-bits false true true = (refl, refl, refl, refl)
word-bits false true false = (refl, refl, refl, refl)
word-bits false false true = (refl, refl, refl, refl)
word-bits false false false = (refl, refl, refl, refl)

-- The final flags have bit 1 for suppressed notifications, bit 2 for a mention of everyone and bit 3
-- for a mention of those online, and not bit 0.
pub final_flags-bits :
    (requested : Requested) (found : MessageResults)
    → (bit (final_flags requested found) 0 ≡ false)
      × (bit (final_flags requested found) 1 ≡ requested.suppress_notifications)
      × (bit (final_flags requested found) 2 ≡ found.mentions_everyone)
      × (bit (final_flags requested found) 3 ≡ found.mentions_online)
unfolding final_flags
final_flags-bits requested found =
    word-bits requested.suppress_notifications found.mentions_everyone found.mentions_online

-- What is tested for suppressed notifications is bit 0.
pub suppressed_bit :
    (m : Message) (flags : ℕ) → m.flags ≡ some flags → has_suppressed_notifications m ≡ bit flags 0
unfolding has_suppressed_notifications flag_value has
suppressed_bit m flags e = rw e (has-pow flags 0)

large_of_online :
    (flags : ℕ) → has_flag flags MessageFlags.mentions_online ≡ true → ltb 7 flags ≡ true
unfolding has_flag flag_value
large_of_online flags h = elim (dec_lt flags (2 ^ 3)) [
  | yes small ↦ ground (arith, has_value-bit flags 3, bit_above 3 3 flags small (omega arith))
  | no large ↦ ground arith
]

-- A request that asks, with a flag, for a mention of those online is refused.
mentions_online_refused :
    (flags : ℕ) (user : Option ApiUser) (allow_mentions : Bool)
    → has_flag flags MessageFlags.mentions_online ≡ true
    → request_flags (some flags) user allow_mentions ≡ err ErrorType.invalid_property
unfolding request_flags
mentions_online_refused flags user allow_mentions h = rw (large_of_online flags h) refl

pub built_flags :
    (ctx : Context) (channel : Channel) (author : MessageAuthor) (id : String)
    (request : DataMessageSend) (user : Option ApiUser) (allow_mentions : Bool) (message : Message)
    (created : IsCreated ctx channel author id request user allow_mentions message)
    → message.flags ≡ some (final_flags created.requested created.resolved.0)
unfolding build_message
built_flags ctx channel author id request user allow_mentions message created =
    ap (λ m. m.flags) created.built

module _ {C : Type 0} (ctx : Context) (channel : Channel) (author : MessageAuthor)
    (tokens : TokenCache C) (id : String) (request : DataMessageSend) (user : Option ApiUser)
    (limits : FeaturesLimits) (key : String) (generate_embeds allow_mentions : Bool) (w : World C)
    (message : Message) (w' : World C)
    (sent : create_from_api ctx channel author tokens id request user limits key generate_embeds
        allow_mentions w
      ≡ some (ok message, w')) where
  created : IsCreated ctx channel author id request user allow_mentions message
  created =
      create_from_api-IsCreated ctx channel author tokens id request user limits key generate_embeds
        allow_mentions w message w' sent

  -- The notifications of a created message are never taken to be suppressed, also when the request
  -- asks for it: the flag is set as bit 1, and what is tested is bit 0.
  pub never_suppressed : has_suppressed_notifications message ≡ false
  never_suppressed =
      suppressed_bit message _
        (built_flags ctx channel author id request user allow_mentions message created)
      ∙ (final_flags-bits created.requested created.resolved.0).0

  -- The request of a created message does not ask, with a flag, for a mention of those online: the
  -- flag is bit 3, and words above 7 are refused.
  pub no_online_flag :
      (flags : ℕ) → request.flags ≡ some flags → has_flag flags MessageFlags.mentions_online ≡ false
  no_online_flag flags e = elim (Bool-cases (has_flag flags MessageFlags.mentions_online)) [
    | inl asked ↦
        let refused = mentions_online_refused flags user allow_mentions asked in
        absurd
          (cc (refused, created.flags_accepted, ap (λ f. request_flags f user allow_mentions) e))
    | inr not_asked ↦ not_asked
  ]
