-- ===== src/Permissions/Query.antt =====
-- What the calculation asks of its caller (crates/core/permissions/src/trait.rs). Every method takes
-- `&mut self`, so it is an action on a state `S`; `none` stands for a panic in the method.
use dawnchat_api.Prelude.{ℕ, Bool, true, Option, none, some, List, if◌then◌else◌}
use dawnchat_api.Permissions.Flags.{ChannelType, RelationshipStatus}
use dawnchat_api.Permissions.Value.{Override}

abbrev pub Action : Type 0 → Type 0 → Type 0
Action S A = S → Option (A × S)

module _ {S : Type 0} where
  abbrev pub pure : {A : Type 0} → A → Action S A
  pure a s = some (a, s)

  abbrev pub gets : {A : Type 0} → (S → A) → Action S A
  gets f s = some (f s, s)

  abbrev pub panic : {A : Type 0} → Action S A
  panic s = none

  infixl 5 ◌>>=◌ ◌>>◌
  abbrev pub ◌>>=◌ : {A B : Type 0} → Action S A → (A → Action S B) → Action S B
  ◌>>=◌ m f s = elim (m s) [ none ↦ none | some (a, s') ↦ f a s' ]

  abbrev pub ◌>>◌ : {B : Type 0} → Action S (Unit {0}) → Action S B → Action S B
  m >> k = m >>= λ _. k

  -- `a || b` asks `b` only if `a` is false.
  abbrev pub or_else : Action S Bool → Action S Bool → Action S Bool
  or_else a b = a >>= λ x. if x then pure true else b

-- `PermissionQuery`.
pub record PermissionQuery (S : Type 0) : Type 0 where
  pub are_we_privileged : Action S Bool
  pub are_we_a_bot : Action S Bool
  pub are_the_users_same : Action S Bool
  pub user_relationship : Action S RelationshipStatus
  pub user_is_bot : Action S Bool
  pub have_mutual_connection : Action S Bool
  pub are_we_server_owner : Action S Bool
  pub are_we_a_member : Action S Bool
  pub get_default_server_permissions : Action S ℕ
  pub get_our_server_role_overrides : Action S (List Override)
  pub are_we_timed_out : Action S Bool
  pub do_we_have_publish_overwrites : Action S Bool
  pub do_we_have_receive_overwrites : Action S Bool
  pub get_channel_type : Action S ChannelType
  pub get_default_channel_permissions : Action S Override
  pub get_our_channel_role_overrides : Action S (List Override)
  pub do_we_own_the_channel : Action S Bool
  pub are_we_part_of_the_channel : Action S Bool
  pub set_recipient_as_user : Action S (Unit {0})
  pub set_server_from_channel : Action S (Unit {0})
