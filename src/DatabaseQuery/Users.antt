-- ===== src/DatabaseQuery/Users.antt =====
-- The permissions of a user against another user, with the database behind the calculation.
use dawnchat_api.Prelude.{
  ℕ, Bool, true, false, ◌||◌, none, some, ◌≡◌, refl, ◌↔◌, ◌≢◌, ◌⊎◌, inl, inr, arith, Bool-cases,
  Option-cases, string_eq,
}
use dawnchat_api.Permissions.Flags
use dawnchat_api.Permissions.Flags.{UserPermission, user_value, u64_max}
use dawnchat_api.Permissions.Value.{PermissionValue, has_user_permission}
use dawnchat_api.Permissions.Query.{Action}
use dawnchat_api.Permissions.Calculate.{
  with_mutual_connection, by_relationship, calculate_user_permissions,
}
use dawnchat_api.Errors.{ok, err}
use dawnchat_api.Models.{Database, has_mutual_connection}
use dawnchat_api.DatabaseQuery.State.{State}
use dawnchat_api.DatabaseQuery.Methods.{
  database_query, have_mutual_connection, are_the_users_same, user_relationship, user_is_bot,
  is_bot,
}

-- The relationship does not stop further permissions.
abbrev pub IsOpen : Flags.RelationshipStatus → Type 0
IsOpen Flags.RelationshipStatus.blocked = ⊥
IsOpen Flags.RelationshipStatus.blocked_other = ⊥
IsOpen _ = Unit

-- Whether the two users share a server or a group, as far as the query knows.
unfoldable pub is_connected : Database → State → Bool
is_connected db s = elim s.cached_mutual_connection [
  | some value ↦ value
  | none ↦ elim s.user [
    | none ↦ false
    | some user ↦ elim (has_mutual_connection db s.perspective user.id) [ ok b ↦ b | err e ↦ false ]
  ]
]

-- The query after it has been asked for that: only the cache may have changed.
unfoldable pub asked : Database → State → State
unfolding is_connected
asked db s = elim s.cached_mutual_connection [
  | some value ↦ s
  | none ↦ elim s.user [
    | none ↦ s
    | some user ↦ record s { cached_mutual_connection = some (is_connected db s) }
  ]
]

pub have_mutual_connection-asked :
    (db : Database) (s : State) → have_mutual_connection db s ≡ some (is_connected db s, asked db s)
unfolding have_mutual_connection asked
have_mutual_connection-asked db s = elim (Option-cases s.cached_mutual_connection) [
  | inl fresh ↦ elim (Option-cases s.user) [
    | inl nobody ↦ ground arith
    | inr (u, other) ↦ ground arith
  ]
  | inr (b, cached) ↦ ground arith
]

asked-others :
    (db : Database) (s : State)
    → (user_is_bot (asked db s) ≡ user_is_bot s) × ((asked db s).perspective ≡ s.perspective)
unfolding asked user_is_bot
asked-others db s = ground arith

module _ (db : Database) (now : ℕ) where
  -- The user may write to the other: a privileged user, oneself, a friend, or, unless one has
  -- blocked the other, a connected pair of which one is a bot.
  abbrev pub MaySend : State → Type 0
  MaySend s =
      (s.perspective.privileged ≡ true)
      ⊎ (are_the_users_same s ≡ true)
      ⊎ (user_relationship s ≡ Flags.RelationshipStatus.friend)
      ⊎ (IsOpen (user_relationship s)
          × (is_connected db s ≡ true)
          × ((user_is_bot s || is_bot s.perspective) ≡ true))

  abbrev Decides : State → Type 0 → Action State PermissionValue → Type 0
  Decides s P m =
      (v : PermissionValue) × (s' : State) × (m s ≡ some (v, s'))
      × ((has_user_permission v UserPermission.send_message ≡ true) ↔ P)

  with_mutual_connection-Decides :
      (s : State) (p : PermissionValue)
      → has_user_permission p UserPermission.send_message ≡ false
      → Decides s
          ((is_connected db s ≡ true) × ((user_is_bot s || is_bot s.perspective) ≡ true))
          (with_mutual_connection (database_query db now) p)
  unfolding with_mutual_connection has_user_permission
  with_mutual_connection-Decides s p h = elim (Bool-cases (is_connected db s)) [
    | inl connected ↦ elim (Bool-cases (user_is_bot s || is_bot s.perspective)) [
      | inl bot ↦ (7, asked db s, ground (arith, known, others), (λ _. (connected, bot), λ _. refl))
      | inr people ↦ (3, asked db s, ground (arith, known, others), (λ e. cc, λ e. cc))
    ]
    | inr apart ↦ (p, asked db s, ground (arith, known), (λ e. cc, λ e. cc))
  ]
    where
      known : have_mutual_connection db s ≡ some (is_connected db s, asked db s)
      known = have_mutual_connection-asked db s

      others :
          (user_is_bot (asked db s) ≡ user_is_bot s) × ((asked db s).perspective ≡ s.perspective)
      others = asked-others db s

  -- The claim of an open relationship other than friendship.
  abbrev Connected : State → Type 0
  Connected s = (is_connected db s ≡ true) × ((user_is_bot s || is_bot s.perspective) ≡ true)

  abbrev MaySendAs : State → Flags.RelationshipStatus → Type 0
  MaySendAs s r =
      (r ≡ Flags.RelationshipStatus.friend)
      ⊎ (IsOpen r × (is_connected db s ≡ true) × ((user_is_bot s || is_bot s.perspective) ≡ true))

  open_claim :
      (s : State) (r : Flags.RelationshipStatus)
      → r ≢ Flags.RelationshipStatus.friend
      → IsOpen r
      → (MaySendAs s r → Connected s) × (Connected s → MaySendAs s r)
  open_claim s r other is_open = (only, λ c. inr (is_open, c.0, c.1))
    where
      only : MaySendAs s r → Connected s
      only (inl e) = absurd (other e)
      only (inr c) = (c.1, c.2)

  no_claim :
      (s : State) (r : Flags.RelationshipStatus)
      → r ≢ Flags.RelationshipStatus.friend
      → ¬ IsOpen r
      → ¬ MaySendAs s r
  no_claim s r other shut (inl e) = other e
  no_claim s r other shut (inr c) = shut c.0

  connected-Decides :
      (s : State) (r : Flags.RelationshipStatus) (p : PermissionValue)
      → has_user_permission p UserPermission.send_message ≡ false
      → r ≢ Flags.RelationshipStatus.friend
      → IsOpen r
      → Decides s (MaySendAs s r) (with_mutual_connection (database_query db now) p)
  connected-Decides s r p h other is_open =
      let (v, s', e, claim) = with_mutual_connection-Decides s p h in
      let (to, from) = open_claim s r other is_open in
      (v, s', e, (λ b. from (claim.0 b), λ c. claim.1 (to c)))

  by_relationship-Decides :
      (s : State) (r : Flags.RelationshipStatus)
      → Decides s (MaySendAs s r) (by_relationship (database_query db now) r)
  unfolding by_relationship has_user_permission
  by_relationship-Decides s Flags.RelationshipStatus.friend =
      (u64_max, s, refl, (λ _. inl refl, λ _. refl))
  by_relationship-Decides s Flags.RelationshipStatus.blocked = (
    1,
    s,
    refl,
    (λ e. cc, λ c. absurd (no_claim s Flags.RelationshipStatus.blocked (λ e. cc) (λ o. o) c)),
  )
  by_relationship-Decides s Flags.RelationshipStatus.blocked_other = (
    1,
    s,
    refl,
    (λ e. cc, λ c. absurd (no_claim s Flags.RelationshipStatus.blocked_other (λ e. cc) (λ o. o) c)),
  )
  by_relationship-Decides s Flags.RelationshipStatus.none =
      connected-Decides s Flags.RelationshipStatus.none 0 refl (λ e. cc) tt
  by_relationship-Decides s Flags.RelationshipStatus.user =
      connected-Decides s Flags.RelationshipStatus.user 0 refl (λ e. cc) tt
  by_relationship-Decides s Flags.RelationshipStatus.incoming =
      connected-Decides s Flags.RelationshipStatus.incoming 1 refl (λ e. cc) tt
  by_relationship-Decides s Flags.RelationshipStatus.outgoing =
      connected-Decides s Flags.RelationshipStatus.outgoing 1 refl (λ e. cc) tt

  by_relation :
      (s : State)
      → s.perspective.privileged ≡ false
      → are_the_users_same s ≡ false
      → MaySend s
      → MaySendAs s (user_relationship s)
  by_relation s p other (inl h) = cc
  by_relation s p other (inr (inl h)) = cc
  by_relation s p other (inr (inr c)) = c

  -- The calculation against a user returns from every state of the query, and the value holds
  -- `SendMessage` exactly for a privileged user, for oneself, for a friend, and, unless the relationship
  -- is that one has blocked the other, for two users of which one is a bot and who share a server or a group.
  pub send_message_iff :
      (s : State) → Decides s (MaySend s) (calculate_user_permissions (database_query db now))
  unfolding calculate_user_permissions has_user_permission
  send_message_iff s = elim (Bool-cases s.perspective.privileged) [
    | inl privileged ↦ (u64_max, s, ground arith, (λ _. inl privileged, λ _. refl))
    | inr p ↦ elim (Bool-cases (are_the_users_same s)) [
      | inl same ↦ (u64_max, s, ground arith, (λ _. inr (inl same), λ _. refl))
      | inr other ↦
          let (v, s', e, claim) = by_relationship-Decides s (user_relationship s) in
          (
            v,
            s',
            ground arith,
            (λ b. inr (inr (claim.0 b)), λ c. claim.1 (by_relation s p other c)),
          )
    ]
  ]
