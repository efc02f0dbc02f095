-- ===== src/Errors/Types.antt =====
-- The error values that every service returns (crates/core/result/src/lib.rs). The location of the
-- macro call that an `Error` also carries is left out: it is the source position, for logs.
use dawnchat_api.Prelude.{ℕ, String, Option, none, some, ◌≡◌, refl, ◌⊎◌, inl, inr}

-- `ErrorType`.
pub data ErrorType : Type 0 where
  label_me already_onboarded username_taken invalid_username : ErrorType
  discriminator_change_ratelimited unknown_user already_friends already_sent_request : ErrorType
  blocked blocked_by_other not_friends : ErrorType
  -- max
  too_many_pending_friend_requests : ℕ → ErrorType
  unknown_channel unknown_attachment unknown_message cannot_edit_message : ErrorType
  cannot_join_call : ErrorType
  -- max
  too_many_attachments : ℕ → ErrorType
  -- max
  too_many_embeds : ℕ → ErrorType
  -- max
  too_many_replies : ℕ → ErrorType
  -- max
  too_many_channels : ℕ → ErrorType
  empty_message payload_too_large cannot_remove_yourself : ErrorType
  -- max
  group_too_large : ℕ → ErrorType
  already_in_group not_in_group already_pinned not_pinned : ErrorType
  -- retry_after
  in_slowmode : ℕ → ErrorType
  cant_create_servers unknown_server invalid_role banned : ErrorType
  -- error, reason, until
  account_banned : String → Option String → Option String → ErrorType
  -- max
  too_many_servers : ℕ → ErrorType
  -- max
  too_many_emoji : ℕ → ErrorType
  -- max
  too_many_roles : ℕ → ErrorType
  already_in_server cannot_timeout_yourself reached_maximum_bots is_bot is_not_bot : ErrorType
  bot_is_private cannot_report_yourself : ErrorType
  -- permission
  missing_permission : String → ErrorType
  -- permission
  missing_user_permission : String → ErrorType
  not_elevated not_privileged cannot_give_missing_permissions not_owner is_elevated : ErrorType
  -- operation, collection
  database_error : String → String → ErrorType
  internal_error invalid_operation invalid_credentials invalid_property : ErrorType
  invalid_session invalid_flag_value not_authenticated duplicate_nonce not_found : ErrorType
  no_effect : ErrorType
  -- error
  failed_validation : String → ErrorType
  live_kit_unavailable not_a_voice_channel already_connected not_connected : ErrorType
  unknown_node proxy_error file_too_small : ErrorType
  -- max
  file_too_large : ℕ → ErrorType
  file_type_not_allowed image_processing_failed no_embed_data voso_unavailable : ErrorType
  -- feature
  feature_disabled : String → ErrorType
  mfa_ticket_invalid mfa_already_enabled mfa_not_enabled muted invalid_http_response : ErrorType

-- `Result<A, Error>`.
pub data Result {ℓ} (A : Type ℓ) : Type ℓ where
  err : ErrorType → Result A
  ok : A → Result A

-- The `?` of the source.
infixl 5 ◌>>=◌
abbrev pub ◌>>=◌ {ℓ κ} : {A : Type ℓ} {B : Type κ} → Result A → (A → Result B) → Result B
r >>= k = elim r [ err e ↦ err e | ok a ↦ k a ]

-- `Option::to_internal_error`.
unfoldable pub to_internal_error {ℓ} : {A : Type ℓ} → Option A → Result A
to_internal_error none = err internal_error
to_internal_error (some a) = ok a

pub Result-cases :
    {A : Type 0} (r : Result A) → ((e : ErrorType) × (r ≡ err e)) ⊎ ((a : A) × (r ≡ ok a))
Result-cases (err e) = inl (e, refl)
Result-cases (ok a) = inr (a, refl)
