-- ===== src/DatabaseQuery/Total.antt =====
-- The channel calculation with the database behind it returns.
use dawnchat_api.Prelude.{
  ℕ, not, Option, none, some, ◌≡◌, refl, ◌≢◌, inl, inr, arith, Bool-cases, Option-cases,
}
use dawnchat_api.Permissions.Flags.{ChannelPermission, channel_value}
use dawnchat_api.Permissions.Value.{PermissionValue}
use dawnchat_api.Permissions.Query.{PermissionQuery}
use dawnchat_api.Permissions.Ensures.{IsTotal, >>=-IsTotal, >>=-returns, gets-IsTotal, if-IsTotal}
use dawnchat_api.Permissions.Calculate.{
  calculate_user_permissions, calculate_server_permissions, calculate_member_permissions,
  calculate_member_channel_permissions, by_channel_type, calculate_channel_permissions,
}
use dawnchat_api.Permissions.Visible.{IsVisible, calculate_channel_permissions-IsVisible}
use dawnchat_api.Models.{Database, Channel, DirectMessage, TextChannel}
use dawnchat_api.DatabaseQuery.State.{State}
use dawnchat_api.DatabaseQuery.Methods.{
  database_query, are_we_a_member, find_other, set_recipient_as_user, recipient_of,
  set_server_from_channel, get_channel_type, channel_type, are_we_part_of_the_channel,
}
use dawnchat_api.DatabaseQuery.Users.{send_message_iff}

returns_of_ne_none :
    {S A : Type 0} (o : Option (A × S)) → o ≢ none → (a : A) × (s : S) × (o ≡ some (a, s))
returns_of_ne_none none h = absurd (h refl)
returns_of_ne_none (some (a, s)) h = (a, s, refl)

-- In a direct message there is a recipient other than the user who asks.
abbrev pub HasRecipient : State → Type 0
HasRecipient s =
    (c : DirectMessage)
    → s.channel ≡ some (Channel.direct_message c)
    → find_other s.perspective.id c.recipients ≢ none

module _ (db : Database) (now : ℕ) where
  abbrev query : PermissionQuery State
  query = database_query db now

  are_we_a_member-IsTotal : IsTotal (are_we_a_member db)
  unfolding are_we_a_member
  are_we_a_member-IsTotal s = returns_of_ne_none _ (ground arith)

  set_server_of-returns :
      (s : State) (c : TextChannel)
      → s.channel ≡ some (Channel.text_channel c)
      → (u : Unit {0}) × (s' : State) × (set_server_from_channel db s ≡ some (u, s'))
  unfolding set_server_from_channel
  set_server_of-returns s c e = returns_of_ne_none _ (ground arith)

  set_recipient-returns :
      (s : State) (c : DirectMessage)
      → s.channel ≡ some (Channel.direct_message c)
      → find_other s.perspective.id c.recipients ≢ none
      → (u : Unit {0}) × (s' : State) × (set_recipient_as_user db s ≡ some (u, s'))
  unfolding set_recipient_as_user recipient_of
  set_recipient-returns s c e h = returns_of_ne_none _ (ground arith)

  calculate_user_permissions-IsTotal : IsTotal (calculate_user_permissions query)
  calculate_user_permissions-IsTotal s = let (v, s', e, _) = send_message_iff db now s in (v, s', e)

  member_permissions-IsTotal : IsTotal (calculate_member_permissions query)
  unfolding calculate_member_permissions
  member_permissions-IsTotal s = returns_of_ne_none _ (λ e. cc)

  server_permissions-IsTotal : IsTotal (calculate_server_permissions query)
  unfolding calculate_server_permissions
  server_permissions-IsTotal =
      >>=-IsTotal _ _ (λ s. returns_of_ne_none _ (ground arith))
        (λ all. if-IsTotal all _ _ (gets-IsTotal _) (
          >>=-IsTotal (are_we_a_member db) _ are_we_a_member-IsTotal
            (λ member. if-IsTotal (not member) _ _ (λ s. (0, s, refl)) member_permissions-IsTotal)))

  member_channel_permissions-IsTotal : IsTotal (calculate_member_channel_permissions query)
  unfolding calculate_member_channel_permissions
  member_channel_permissions-IsTotal =
      >>=-IsTotal (calculate_server_permissions query) _ server_permissions-IsTotal
        (λ server s. returns_of_ne_none _ (λ e. cc))

  channel_returns :
      (s : State) (c : Channel)
      → s.channel ≡ some c
      → HasRecipient s
      → (v : PermissionValue) × (s' : State) × (by_channel_type query (channel_type c) s
          ≡ some (v, s'))
  unfolding by_channel_type channel_type
  channel_returns s (Channel.saved_messages id user) e h = returns_of_ne_none _ (λ e. cc)
  channel_returns s (Channel.direct_message c) e h =
      elim (Bool-cases (are_we_part_of_the_channel s)) [
        | inl part ↦ rw part (
            >>=-returns (set_recipient_as_user db) _ s (set_recipient-returns s c e (h c e)) (λ _.
              >>=-IsTotal (calculate_user_permissions query) _ calculate_user_permissions-IsTotal
                (λ p s. (_, s, refl))))
        | inr apart ↦ rw apart (0, s, refl)
      ]
  channel_returns s (Channel.group c) e h = returns_of_ne_none _ (ground arith)
  channel_returns s (Channel.text_channel c) e h =
      >>=-returns (set_server_from_channel db) _ s (set_server_of-returns s c e) (λ _.
        >>=-IsTotal query.are_we_server_owner _ (gets-IsTotal _) (λ owner.
          if-IsTotal owner _ _ (λ s. (channel_value ChannelPermission.grant_all_safe, s, refl))
            (>>=-IsTotal (are_we_a_member db) _ are_we_a_member-IsTotal (λ member.
              if-IsTotal member _ _ member_channel_permissions-IsTotal (λ s. (0, s, refl))))))

  any_channel_returns :
      (s : State)
      → HasRecipient s
      → (v : PermissionValue) × (s' : State) × (calculate_channel_permissions query s
          ≡ some (v, s'))
  unfolding calculate_channel_permissions get_channel_type
  any_channel_returns s h = elim (Bool-cases s.perspective.privileged) [
    | inl privileged ↦ returns_of_ne_none _ (ground arith)
    | inr p ↦ elim (Option-cases s.channel) [
      | inl nowhere ↦ returns_of_ne_none _ (ground arith)
      | inr (c, e) ↦ let (v, s', returned) = channel_returns s c e h in (v, s', ground arith)
    ]
  ]

  -- The calculation for a channel returns from every state of the query, unless it asks for a direct
  -- message in which the user is the only recipient; and the value is 0 or includes `ViewChannel`.
  pub calculate_channel_permissions_returns :
      (s : State)
      → HasRecipient s
      → (v : PermissionValue) × (s' : State) × (calculate_channel_permissions query s
          ≡ some (v, s'))
        × IsVisible v
  calculate_channel_permissions_returns s h =
      let (v, s', e) = any_channel_returns s h in
      (v, s', e, calculate_channel_permissions-IsVisible query s v s' e)
