-- ===== src/Permissions/Flags.antt =====
-- The permission flags and the fixed sets of them
-- (crates/core/permissions/src/models/channel.rs, crates/core/permissions/src/models/user.rs).
use dawnchat_api.Prelude.{ℕ, ◌+◌, ◌-◌, ◌^◌, bit_or, String}

-- `u64::MAX`.
abbrev pub u64_max : ℕ
u64_max = 2 ^ 64 - 1

-- `ChannelPermission`.
pub data ChannelPermission : Type 0 where
  manage_channel manage_server manage_permissions manage_role : ChannelPermission
  manage_customisation kick_members ban_members timeout_members assign_roles : ChannelPermission
  change_nickname manage_nicknames change_avatar remove_avatars view_channel : ChannelPermission
  read_message_history send_message manage_messages manage_webhooks : ChannelPermission
  invite_others send_embeds upload_files masquerade react bypass_slowmode : ChannelPermission
  connect speak video mute_members deafen_members move_members listen : ChannelPermission
  mention_everyone mention_roles grant_all_safe grant_all : ChannelPermission

-- `permission as u64`.
unfoldable pub channel_value : ChannelPermission → ℕ
channel_value ChannelPermission.manage_channel = 2 ^ 0
channel_value ChannelPermission.manage_server = 2 ^ 1
channel_value ChannelPermission.manage_permissions = 2 ^ 2
channel_value ChannelPermission.manage_role = 2 ^ 3
channel_value ChannelPermission.manage_customisation = 2 ^ 4
channel_value ChannelPermission.kick_members = 2 ^ 6
channel_value ChannelPermission.ban_members = 2 ^ 7
channel_value ChannelPermission.timeout_members = 2 ^ 8
channel_value ChannelPermission.assign_roles = 2 ^ 9
channel_value ChannelPermission.change_nickname = 2 ^ 10
channel_value ChannelPermission.manage_nicknames = 2 ^ 11
channel_value ChannelPermission.change_avatar = 2 ^ 12
channel_value ChannelPermission.remove_avatars = 2 ^ 13
channel_value ChannelPermission.view_channel = 2 ^ 20
channel_value ChannelPermission.read_message_history = 2 ^ 21
channel_value ChannelPermission.send_message = 2 ^ 22
channel_value ChannelPermission.manage_messages = 2 ^ 23
channel_value ChannelPermission.manage_webhooks = 2 ^ 24
channel_value ChannelPermission.invite_others = 2 ^ 25
channel_value ChannelPermission.send_embeds = 2 ^ 26
channel_value ChannelPermission.upload_files = 2 ^ 27
channel_value ChannelPermission.masquerade = 2 ^ 28
channel_value ChannelPermission.react = 2 ^ 29
channel_value ChannelPermission.bypass_slowmode = 2 ^ 39
channel_value ChannelPermission.connect = 2 ^ 30
channel_value ChannelPermission.speak = 2 ^ 31
channel_value ChannelPermission.video = 2 ^ 32
channel_value ChannelPermission.mute_members = 2 ^ 33
channel_value ChannelPermission.deafen_members = 2 ^ 34
channel_value ChannelPermission.move_members = 2 ^ 35
channel_value ChannelPermission.listen = 2 ^ 36
channel_value ChannelPermission.mention_everyone = 2 ^ 37
channel_value ChannelPermission.mention_roles = 2 ^ 38
channel_value ChannelPermission.grant_all_safe = 0x000FFFFFFFFFFFFF
channel_value ChannelPermission.grant_all = u64_max

-- `permission.to_string()`: the derived `Debug` prints the variant.
unfoldable pub channel_name : ChannelPermission → String
channel_name ChannelPermission.manage_channel = "ManageChannel"
channel_name ChannelPermission.manage_server = "ManageServer"
channel_name ChannelPermission.manage_permissions = "ManagePermissions"
channel_name ChannelPermission.manage_role = "ManageRole"
channel_name ChannelPermission.manage_customisation = "ManageCustomisation"
channel_name ChannelPermission.kick_members = "KickMembers"
channel_name ChannelPermission.ban_members = "BanMembers"
channel_name ChannelPermission.timeout_members = "TimeoutMembers"
channel_name ChannelPermission.assign_roles = "AssignRoles"
channel_name ChannelPermission.change_nickname = "ChangeNickname"
channel_name ChannelPermission.manage_nicknames = "ManageNicknames"
channel_name ChannelPermission.change_avatar = "ChangeAvatar"
channel_name ChannelPermission.remove_avatars = "RemoveAvatars"
channel_name ChannelPermission.view_channel = "ViewChannel"
channel_name ChannelPermission.read_message_history = "ReadMessageHistory"
channel_name ChannelPermission.send_message = "SendMessage"
channel_name ChannelPermission.manage_messages = "ManageMessages"
channel_name ChannelPermission.manage_webhooks = "ManageWebhooks"
channel_name ChannelPermission.invite_others = "InviteOthers"
channel_name ChannelPermission.send_embeds = "SendEmbeds"
channel_name ChannelPermission.upload_files = "UploadFiles"
channel_name ChannelPermission.masquerade = "Masquerade"
channel_name ChannelPermission.react = "React"
channel_name ChannelPermission.bypass_slowmode = "BypassSlowmode"
channel_name ChannelPermission.connect = "Connect"
channel_name ChannelPermission.speak = "Speak"
channel_name ChannelPermission.video = "Video"
channel_name ChannelPermission.mute_members = "MuteMembers"
channel_name ChannelPermission.deafen_members = "DeafenMembers"
channel_name ChannelPermission.move_members = "MoveMembers"
channel_name ChannelPermission.listen = "Listen"
channel_name ChannelPermission.mention_everyone = "MentionEveryone"
channel_name ChannelPermission.mention_roles = "MentionRoles"
channel_name ChannelPermission.grant_all_safe = "GrantAllSafe"
channel_name ChannelPermission.grant_all = "GrantAll"

-- `UserPermission`.
pub data UserPermission : Type 0 where
  access view_profile send_message invite : UserPermission

-- `permission as u64`.
unfoldable pub user_value : UserPermission → ℕ
user_value UserPermission.access = 2 ^ 0
user_value UserPermission.view_profile = 2 ^ 1
user_value UserPermission.send_message = 2 ^ 2
user_value UserPermission.invite = 2 ^ 3

-- `permission.to_string()`: the derived `Debug` prints the variant.
unfoldable pub user_name : UserPermission → String
user_name UserPermission.access = "Access"
user_name UserPermission.view_profile = "ViewProfile"
user_name UserPermission.send_message = "SendMessage"
user_name UserPermission.invite = "Invite"

-- `RelationshipStatus` of the permissions crate.
pub data RelationshipStatus : Type 0 where
  none user friend outgoing incoming blocked blocked_other : RelationshipStatus

-- `ChannelType`.
pub data ChannelType : Type 0 where
  saved_messages direct_message group server_channel unknown : ChannelType

-- `+` of the flags: the union of the left side with one more flag.
infixl 65 ◌+flag◌
abbrev pub ◌+flag◌ : ℕ → ChannelPermission → ℕ
a +flag b = bit_or a (channel_value b)

-- `ALLOW_IN_TIMEOUT`.
unfoldable pub allow_in_timeout : ℕ
unfolding channel_value
allow_in_timeout =
    channel_value ChannelPermission.view_channel +flag ChannelPermission.read_message_history

-- `DEFAULT_PERMISSION_VIEW_ONLY`.
unfoldable pub default_permission_view_only : ℕ
unfolding channel_value
default_permission_view_only =
    channel_value ChannelPermission.view_channel +flag ChannelPermission.read_message_history

-- `DEFAULT_PERMISSION`; the outer `add` is the addition of `u64`.
unfoldable pub default_permission : ℕ
unfolding channel_value default_permission_view_only
default_permission =
    default_permission_view_only
    + (channel_value ChannelPermission.send_message
        +flag ChannelPermission.invite_others
        +flag ChannelPermission.send_embeds
        +flag ChannelPermission.upload_files
        +flag ChannelPermission.connect
        +flag ChannelPermission.speak
        +flag ChannelPermission.listen
        +flag ChannelPermission.video)

-- `DEFAULT_PERMISSION_SAVED_MESSAGES`.
unfoldable pub default_permission_saved_messages : ℕ
unfolding channel_value
default_permission_saved_messages = channel_value ChannelPermission.grant_all_safe

-- `DEFAULT_PERMISSION_DIRECT_MESSAGE`.
unfoldable pub default_permission_direct_message : ℕ
unfolding channel_value default_permission
default_permission_direct_message =
    default_permission
    + (channel_value ChannelPermission.manage_channel
        +flag ChannelPermission.react
        +flag ChannelPermission.masquerade)

-- `DEFAULT_PERMISSION_SERVER`.
unfoldable pub default_permission_server : ℕ
unfolding channel_value default_permission
default_permission_server =
    default_permission
    + (channel_value ChannelPermission.react
        +flag ChannelPermission.change_nickname
        +flag ChannelPermission.change_avatar)

-- `DEFAULT_WEBHOOK_PERMISSIONS`.
unfoldable pub default_webhook_permissions : ℕ
unfolding channel_value
default_webhook_permissions =
    channel_value ChannelPermission.send_message
    +flag ChannelPermission.send_embeds
    +flag ChannelPermission.masquerade
    +flag ChannelPermission.react
