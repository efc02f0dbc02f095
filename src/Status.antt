-- ===== src/Status.antt =====
-- The HTTP status of each error, as both web frameworks answer it: the `Responder` of
-- crates/core/result/src/rocket.rs and the `IntoResponse` of crates/core/result/src/axum.rs.
pub mod Agreement
mod Tests
use dawnchat_api.Errors.{ErrorType}

-- The statuses that the two frameworks name, by their HTTP names.
pub data Status : Type 0 where
  bad_request conflict forbidden internal_server_error : Status
  not_found ok too_many_requests unauthorized unprocessable_entity : Status

-- `respond_to` of the Rocket services.
pub rocket_status : ErrorType → Status
rocket_status ErrorType.label_me = Status.internal_server_error
rocket_status ErrorType.already_onboarded = Status.forbidden
rocket_status ErrorType.unknown_user = Status.not_found
rocket_status ErrorType.invalid_username = Status.bad_request
rocket_status ErrorType.username_taken = Status.conflict
rocket_status ErrorType.discriminator_change_ratelimited = Status.too_many_requests
rocket_status ErrorType.already_friends = Status.conflict
rocket_status ErrorType.already_sent_request = Status.conflict
rocket_status ErrorType.blocked = Status.conflict
rocket_status ErrorType.blocked_by_other = Status.forbidden
rocket_status ErrorType.not_friends = Status.forbidden
rocket_status (ErrorType.too_many_pending_friend_requests _) = Status.bad_request
rocket_status ErrorType.unknown_channel = Status.not_found
rocket_status ErrorType.unknown_message = Status.not_found
rocket_status ErrorType.unknown_attachment = Status.bad_request
rocket_status ErrorType.cannot_edit_message = Status.forbidden
rocket_status ErrorType.cannot_join_call = Status.bad_request
rocket_status (ErrorType.too_many_attachments _) = Status.bad_request
rocket_status (ErrorType.too_many_replies _) = Status.bad_request
rocket_status ErrorType.empty_message = Status.unprocessable_entity
rocket_status ErrorType.payload_too_large = Status.unprocessable_entity
rocket_status ErrorType.cannot_remove_yourself = Status.bad_request
rocket_status (ErrorType.group_too_large _) = Status.forbidden
rocket_status ErrorType.already_in_group = Status.conflict
rocket_status ErrorType.not_in_group = Status.not_found
rocket_status ErrorType.already_pinned = Status.bad_request
rocket_status ErrorType.not_pinned = Status.bad_request
rocket_status (ErrorType.in_slowmode _) = Status.too_many_requests
rocket_status ErrorType.invalid_flag_value = Status.bad_request
rocket_status ErrorType.cant_create_servers = Status.forbidden
rocket_status ErrorType.unknown_server = Status.not_found
rocket_status ErrorType.invalid_role = Status.not_found
rocket_status ErrorType.banned = Status.forbidden
rocket_status (ErrorType.account_banned _ _ _) = Status.forbidden
rocket_status ErrorType.already_in_server = Status.conflict
rocket_status ErrorType.cannot_timeout_yourself = Status.bad_request
rocket_status (ErrorType.too_many_servers _) = Status.bad_request
rocket_status (ErrorType.too_many_embeds _) = Status.bad_request
rocket_status (ErrorType.too_many_emoji _) = Status.bad_request
rocket_status (ErrorType.too_many_channels _) = Status.bad_request
rocket_status (ErrorType.too_many_roles _) = Status.bad_request
rocket_status ErrorType.reached_maximum_bots = Status.bad_request
rocket_status ErrorType.is_bot = Status.bad_request
rocket_status ErrorType.is_not_bot = Status.bad_request
rocket_status ErrorType.bot_is_private = Status.forbidden
rocket_status ErrorType.cannot_report_yourself = Status.bad_request
rocket_status (ErrorType.missing_permission _) = Status.forbidden
rocket_status (ErrorType.missing_user_permission _) = Status.forbidden
rocket_status ErrorType.not_elevated = Status.forbidden
rocket_status ErrorType.not_privileged = Status.forbidden
rocket_status ErrorType.cannot_give_missing_permissions = Status.forbidden
rocket_status ErrorType.not_owner = Status.forbidden
rocket_status ErrorType.is_elevated = Status.forbidden
rocket_status ErrorType.muted = Status.forbidden
rocket_status (ErrorType.database_error _ _) = Status.internal_server_error
rocket_status ErrorType.internal_error = Status.internal_server_error
rocket_status ErrorType.invalid_operation = Status.bad_request
rocket_status ErrorType.invalid_credentials = Status.unauthorized
rocket_status ErrorType.invalid_property = Status.bad_request
rocket_status ErrorType.invalid_session = Status.unauthorized
rocket_status ErrorType.not_authenticated = Status.unauthorized
rocket_status ErrorType.duplicate_nonce = Status.conflict
rocket_status ErrorType.not_found = Status.not_found
rocket_status ErrorType.no_effect = Status.ok
rocket_status (ErrorType.failed_validation _) = Status.bad_request
rocket_status ErrorType.live_kit_unavailable = Status.bad_request
rocket_status ErrorType.not_a_voice_channel = Status.bad_request
rocket_status ErrorType.already_connected = Status.bad_request
rocket_status ErrorType.not_connected = Status.bad_request
rocket_status ErrorType.unknown_node = Status.bad_request
rocket_status (ErrorType.feature_disabled _) = Status.bad_request
rocket_status ErrorType.proxy_error = Status.bad_request
rocket_status ErrorType.file_too_small = Status.unprocessable_entity
rocket_status (ErrorType.file_too_large _) = Status.unprocessable_entity
rocket_status ErrorType.file_type_not_allowed = Status.bad_request
rocket_status ErrorType.image_processing_failed = Status.internal_server_error
rocket_status ErrorType.no_embed_data = Status.bad_request
rocket_status ErrorType.voso_unavailable = Status.bad_request
rocket_status ErrorType.mfa_ticket_invalid = Status.bad_request
rocket_status ErrorType.mfa_already_enabled = Status.conflict
rocket_status ErrorType.mfa_not_enabled = Status.bad_request
rocket_status ErrorType.invalid_http_response = Status.internal_server_error

-- `into_response` of the Axum services.
pub axum_status : ErrorType → Status
axum_status ErrorType.muted = Status.forbidden
axum_status ErrorType.label_me = Status.internal_server_error
axum_status ErrorType.already_onboarded = Status.forbidden
axum_status ErrorType.unknown_user = Status.not_found
axum_status ErrorType.invalid_username = Status.bad_request
axum_status ErrorType.username_taken = Status.conflict
axum_status ErrorType.discriminator_change_ratelimited = Status.too_many_requests
axum_status ErrorType.already_friends = Status.conflict
axum_status ErrorType.already_sent_request = Status.conflict
axum_status ErrorType.blocked = Status.conflict
axum_status ErrorType.blocked_by_other = Status.forbidden
axum_status ErrorType.not_friends = Status.forbidden
axum_status (ErrorType.too_many_pending_friend_requests _) = Status.bad_request
axum_status ErrorType.unknown_channel = Status.not_found
axum_status ErrorType.unknown_message = Status.not_found
axum_status ErrorType.unknown_attachment = Status.bad_request
axum_status ErrorType.cannot_edit_message = Status.forbidden
axum_status ErrorType.cannot_join_call = Status.bad_request
axum_status (ErrorType.too_many_attachments _) = Status.bad_request
axum_status (ErrorType.too_many_replies _) = Status.bad_request
axum_status ErrorType.empty_message = Status.unprocessable_entity
axum_status ErrorType.payload_too_large = Status.unprocessable_entity
axum_status ErrorType.cannot_remove_yourself = Status.bad_request
axum_status (ErrorType.group_too_large _) = Status.forbidden
axum_status ErrorType.already_in_group = Status.conflict
axum_status ErrorType.not_in_group = Status.not_found
axum_status ErrorType.already_pinned = Status.bad_request
axum_status ErrorType.not_pinned = Status.bad_request
axum_status (ErrorType.in_slowmode _) = Status.too_many_requests
axum_status ErrorType.cant_create_servers = Status.forbidden
axum_status ErrorType.unknown_server = Status.not_found
axum_status ErrorType.invalid_role = Status.not_found
axum_status ErrorType.banned = Status.forbidden
axum_status (ErrorType.account_banned _ _ _) = Status.forbidden
axum_status ErrorType.already_in_server = Status.conflict
axum_status ErrorType.cannot_timeout_yourself = Status.bad_request
axum_status (ErrorType.too_many_servers _) = Status.bad_request
axum_status (ErrorType.too_many_embeds _) = Status.bad_request
axum_status (ErrorType.too_many_emoji _) = Status.bad_request
axum_status (ErrorType.too_many_channels _) = Status.bad_request
axum_status (ErrorType.too_many_roles _) = Status.bad_request
axum_status ErrorType.reached_maximum_bots = Status.bad_request
axum_status ErrorType.is_bot = Status.bad_request
axum_status ErrorType.is_not_bot = Status.bad_request
axum_status ErrorType.bot_is_private = Status.forbidden
axum_status ErrorType.cannot_report_yourself = Status.bad_request
axum_status (ErrorType.missing_permission _) = Status.forbidden
axum_status (ErrorType.missing_user_permission _) = Status.forbidden
axum_status ErrorType.not_elevated = Status.forbidden
axum_status ErrorType.not_privileged = Status.forbidden
axum_status ErrorType.cannot_give_missing_permissions = Status.forbidden
axum_status ErrorType.not_owner = Status.forbidden
axum_status ErrorType.is_elevated = Status.forbidden
axum_status (ErrorType.database_error _ _) = Status.internal_server_error
axum_status ErrorType.internal_error = Status.internal_server_error
axum_status ErrorType.invalid_operation = Status.bad_request
axum_status ErrorType.invalid_credentials = Status.unauthorized
axum_status ErrorType.invalid_property = Status.bad_request
axum_status ErrorType.invalid_session = Status.unauthorized
axum_status ErrorType.not_authenticated = Status.unauthorized
axum_status ErrorType.duplicate_nonce = Status.conflict
axum_status ErrorType.voso_unavailable = Status.bad_request
axum_status ErrorType.not_found = Status.not_found
axum_status ErrorType.no_effect = Status.ok
axum_status (ErrorType.failed_validation _) = Status.bad_request
axum_status ErrorType.live_kit_unavailable = Status.bad_request
axum_status ErrorType.not_connected = Status.bad_request
axum_status ErrorType.not_a_voice_channel = Status.bad_request
axum_status ErrorType.already_connected = Status.bad_request
axum_status ErrorType.unknown_node = Status.bad_request
axum_status ErrorType.invalid_flag_value = Status.bad_request
axum_status (ErrorType.feature_disabled _) = Status.bad_request
axum_status ErrorType.proxy_error = Status.bad_request
axum_status ErrorType.file_too_small = Status.unprocessable_entity
axum_status (ErrorType.file_too_large _) = Status.unprocessable_entity
axum_status ErrorType.file_type_not_allowed = Status.bad_request
axum_status ErrorType.image_processing_failed = Status.internal_server_error
axum_status ErrorType.no_embed_data = Status.bad_request
axum_status ErrorType.mfa_ticket_invalid = Status.bad_request
axum_status ErrorType.mfa_already_enabled = Status.conflict
axum_status ErrorType.mfa_not_enabled = Status.bad_request
axum_status ErrorType.invalid_http_response = Status.internal_server_error
