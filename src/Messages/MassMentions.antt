-- ===== src/Messages/MassMentions.antt =====
-- Who may mention everyone, those online, or a role.
use dawnchat_api.Prelude.{
  ℕ, Bool, true, false, ◌||◌, Option, none, some, List, [], ◌∷◌, String, ◌≡◌, refl, ap, sym, ◌∙◌,
  ◌≢◌, ◌⊎◌, arith, Bool-cases, inl, inr, Option-cases,
}
use dawnchat_api.Bits.{bit}
use dawnchat_api.Permissions.Flags.{ChannelPermission}
use dawnchat_api.Permissions.Value.{PermissionValue, has_channel_permission}
use dawnchat_api.Permissions.Calculate.{calculate_channel_permissions}
use dawnchat_api.Errors.{ok, err}
use dawnchat_api.Models.{Channel, is_empty}
use dawnchat_api.DatabaseQuery.State
use dawnchat_api.DatabaseQuery.Methods.{database_query}
use dawnchat_api.Parser.Tokens.{MessageResults}
use dawnchat_api.Messages.Model.{Message, DataMessageSend, ApiUser, MessageAuthor}
use dawnchat_api.Messages.World.{World, TokenCache}
use dawnchat_api.Messages.Context.{Context}
use dawnchat_api.Messages.Mentions.{
  from_api, check_mass_mention, by_author, mass_mentions, mentions_in, visible_mentions,
  valid_mentions, is_mass_mention,
}
use dawnchat_api.Messages.Build.{final_flags, build_message, non_empty}
use dawnchat_api.Messages.Create.{FeaturesLimits, create_from_api}
use dawnchat_api.Messages.FlagBits.{final_flags-bits, built_flags}
use dawnchat_api.Messages.Created.{IsCreated, create_from_api-IsCreated}

-- Neither everyone nor those online are mentioned.
abbrev mentions_all : MessageResults → Bool
mentions_all found = found.mentions_everyone || found.mentions_online

-- The user holds the permissions that the mentions need.
abbrev pub Permits : PermissionValue → MessageResults → Type 0
Permits perms found =
    (mentions_all found ≡ true
      → has_channel_permission perms ChannelPermission.mention_everyone ≡ true)
    × (is_empty found.role_mentions ≡ false
        → has_channel_permission perms ChannelPermission.mention_roles ≡ true)

checked-Permits :
    (perms : PermissionValue) (found allowed : MessageResults)
    → check_mass_mention perms found ≡ ok allowed
    → Permits perms allowed
unfolding check_mass_mention
checked-Permits perms found allowed e = ground arith

module _ (ctx : Context) (channel : Channel) (u : ApiUser) where
  -- The permissions of the author in the channel, as far as the API's form of a user tells.
  abbrev pub IsPermitted : MessageResults → Type 0
  IsPermitted found =
      (ctx.mass_mentions_enabled ≡ true)
      × (perms : PermissionValue) × (q : State.State) × (calculate_channel_permissions
            (database_query ctx.database ctx.now)
            (State.with_channel (State.new (from_api u)) channel)
          ≡ some (perms, q))
      × Permits perms found

  by_author-IsPermitted :
      (found allowed : MessageResults)
      → ctx.mass_mentions_enabled ≡ true
      → by_author ctx (MessageAuthor.user u) channel found ≡ some (ok allowed)
      → IsPermitted allowed
  unfolding by_author
  by_author-IsPermitted found allowed enabled e =
      elim (Option-cases (
        calculate_channel_permissions (database_query ctx.database ctx.now)
          (State.with_channel (State.new (from_api u)) channel))) [
            | inl stuck ↦ ground arith
            | inr ((perms, q), done) ↦
                (enabled, perms, q, done, checked-Permits perms found allowed (ground arith))
          ]

  mass_mentions-IsPermitted :
      (found allowed : MessageResults)
      → mass_mentions ctx (MessageAuthor.user u) channel found ≡ some (ok allowed)
      → (is_mass_mention allowed ≡ false) ⊎ IsPermitted allowed
  unfolding mass_mentions
  mass_mentions-IsPermitted found allowed e = elim (Bool-cases (is_mass_mention found)) [
    | inr none_made ↦ inl (ground arith)
    | inl made ↦ elim (Bool-cases ctx.mass_mentions_enabled) [
      | inl enabled ↦ inr (by_author-IsPermitted found allowed enabled (ground arith))
      | inr disabled ↦ inl (ground arith)
    ]
  ]

  abbrev KeepsMass : MessageResults → MessageResults → Type 0
  KeepsMass found valid =
      (mentions_all valid ≡ mentions_all found)
      × (is_empty valid.role_mentions ≡ false → is_empty found.role_mentions ≡ false)

  mentions_in-KeepsMass :
      (c : Channel) (found valid : MessageResults)
      → mentions_in ctx c found ≡ some (ok valid)
      → KeepsMass found valid
  unfolding mentions_in
  mentions_in-KeepsMass (Channel.direct_message c) found valid e = ground arith
  mentions_in-KeepsMass (Channel.group c) found valid e = ground arith
  mentions_in-KeepsMass (Channel.saved_messages id user) found valid e = ground arith
  mentions_in-KeepsMass (Channel.text_channel c) found valid e =
      elim (Option-cases
        (visible_mentions ctx (Channel.text_channel c) c.server found.user_mentions)) [
          | inl stuck ↦ ground arith
          | inr (err e', done) ↦ ground arith
          | inr (ok users, done) ↦ ground arith
        ]

  -- The validation of the mentioned users adds no mass mention.
  valid_mentions-KeepsMass :
      (found valid : MessageResults)
      → valid_mentions ctx channel found ≡ some (ok valid)
      → KeepsMass found valid
  unfolding valid_mentions
  valid_mentions-KeepsMass found valid e = elim (Bool-cases (is_empty found.user_mentions)) [
    | inl nobody ↦ ground arith
    | inr somebody ↦ mentions_in-KeepsMass channel found valid (ground arith)
  ]

no_all : (found : MessageResults) → is_mass_mention found ≡ false → mentions_all found ≡ false
no_all found h = ground arith

no_roles :
    (found : MessageResults) → is_mass_mention found ≡ false → is_empty found.role_mentions ≡ true
no_roles found h = ground arith

some-inj : (a b : ℕ) → some a ≡ some b → a ≡ b
some-inj a b e = cc e

is_empty_of_some : (xs : List String) → non_empty xs ≢ none → is_empty xs ≡ false
is_empty_of_some [] h = absurd (h refl)
is_empty_of_some (x ∷ xs) h = refl

module _ {C : Type 0} (ctx : Context) (channel : Channel) (u : ApiUser) (tokens : TokenCache C)
    (id : String) (request : DataMessageSend) (user : Option ApiUser) (limits : FeaturesLimits)
    (key : String) (generate_embeds allow_mentions : Bool) (w : World C) (message : Message)
    (w' : World C)
    (sent : create_from_api ctx channel
        (MessageAuthor.user u)
        tokens
        id
        request
        user
        limits
        key
        generate_embeds
        allow_mentions
        w
      ≡ some (ok message, w')) where
  created : IsCreated ctx channel (MessageAuthor.user u) id request user allow_mentions message
  created =
      create_from_api-IsCreated ctx channel (MessageAuthor.user u) tokens id request user limits key
        generate_embeds allow_mentions w message w' sent

  roles_kept :
      message.role_mentions ≢ none → is_empty created.resolution.allowed.role_mentions ≡ false
  unfolding build_message
  roles_kept h = (valid_mentions-KeepsMass ctx channel u _ _ created.resolution.kept).1 (
      is_empty_of_some created.resolved.0.role_mentions
        (λ e. h (ap (λ m. m.role_mentions) created.built ∙ e)))

  flags_kept :
      (flags : ℕ)
      → message.flags ≡ some flags
      → (bit flags 2 || bit flags 3) ≡ mentions_all created.resolution.allowed
  flags_kept flags e =
      let (_, _, everyone, online) = final_flags-bits created.requested created.resolved.0 in
      let same : flags ≡ final_flags created.requested created.resolved.0 = some-inj _ _ (
        sym e
        ∙ built_flags ctx channel (MessageAuthor.user u) id request user allow_mentions message
            created) in
      rw same (
        rw (everyone, online) refl
        ∙ (valid_mentions-KeepsMass ctx channel u _ _ created.resolution.kept).0)

  -- If a created message of a user mentions everyone or those online (bits 2 and 3 of its flags) or a
  -- role, then mass mentions are enabled and the author's permissions in the channel were calculated
  -- and include `MentionEveryone`, respectively `MentionRoles`.
  pub mass_mention_permitted :
      (flags : ℕ)
      → message.flags ≡ some flags
      → ((bit flags 2 || bit flags 3) ≡ true) ⊎ (message.role_mentions ≢ none)
      → (ctx.mass_mentions_enabled ≡ true)
        × (perms : PermissionValue) × (q : State.State) × (calculate_channel_permissions
              (database_query ctx.database ctx.now)
              (State.with_channel (State.new (from_api u)) channel)
            ≡ some (perms, q))
        × ((bit flags 2 || bit flags 3) ≡ true
            → has_channel_permission perms ChannelPermission.mention_everyone ≡ true)
        × (message.role_mentions ≢ none
            → has_channel_permission perms ChannelPermission.mention_roles ≡ true)
  mass_mention_permitted flags e made =
      elim (mass_mentions-IsPermitted ctx channel u _ _ created.resolution.permitted) [
        | inl no_mass ↦ absurd (elim made [
          | inl all ↦ cc (no_all created.resolution.allowed no_mass, flags_kept flags e, all)
          | inr roles ↦ cc (no_roles created.resolution.allowed no_mass, roles_kept roles)
        ])
        | inr (enabled, perms, q, done, permits) ↦ (
          enabled,
          perms,
          q,
          done,
          (λ b. permits.0 (sym (flags_kept flags e) ∙ b)),
          λ h. permits.1 (roles_kept h),
        )
      ]
