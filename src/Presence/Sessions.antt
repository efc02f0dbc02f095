-- ===== src/Presence/Sessions.antt =====
-- The operations on sessions (crates/core/presence/src/lib.rs). Whether a connection is obtained and
-- the random number are inputs of each call; the name of the region, `format!("{user_id}:{session_id}")`,
-- its splitting and parsing, and the decimal form of a session are parameters. `none` is a panic.
use dawnchat_api.Prelude.{
  ℕ, bit_and, bit_or, Bool, true, false, not, String, Option, none, some, List, [], ◌∷◌, ◌==◌,
  nat_eq, string_eq, if◌then◌else◌,
}
use dawnchat_api.Bits.{complement}
use dawnchat_api.Models.{contains}
use dawnchat_api.Presence.Redis.{Redis, add_to_set, remove_from_set}

-- `ONLINE_SET`.
abbrev pub online_set : String
online_set = "online"

-- `FLAG_BITS`.
abbrev pub flag_bits : ℕ
flag_bits = 1

-- The ID of a session: random bits, with the flag in the lowest one.
unfoldable pub session_id : ℕ → ℕ → ℕ
session_id random flags =
    bit_or (bit_and random (complement 32 flag_bits)) (bit_and flags flag_bits)

-- What the operations take from elsewhere.
pub record Setting : Type 0 where
  pub region_key : String
  pub show : ℕ → String
  pub entry : String → ℕ → String
  pub parse : String → Option (String × ℕ)

module _ {S : Type 0} (redis : Redis S) (setting : Setting) where
  -- `create_session`: whether it is the first session, the ID, and the store.
  unfoldable pub create_session : Bool → ℕ → S → String → ℕ → Option ((Bool × ℕ) × S)
  unfolding add_to_set session_id
  create_session connected random s user_id flags =
      if connected
      then elim (redis.scard s user_id) [
        | none ↦ none
        | some size ↦
            let id = session_id random flags in
            let s1 = add_to_set redis s user_id (setting.show id) in
            let s2 = add_to_set redis s1 online_set user_id in
            let s3 = add_to_set redis s2 setting.region_key (setting.entry user_id id) in
            some ((size == 0, id), s3)
      ]
      else some ((false, 0), s)

  -- The end of `delete_session_internal`: the user goes offline with the last session.
  unfoldable pub leave_if_empty : S → String → Option (Bool × S)
  unfolding remove_from_set
  leave_if_empty s user_id = elim (redis.scard s user_id) [
    | none ↦ none
    | some size ↦
        if size == 0
        then some (true, remove_from_set redis s online_set user_id)
        else some (false, s)
  ]

  -- `delete_session_internal`.
  unfoldable pub delete_session_internal : Bool → S → String → ℕ → Bool → Option (Bool × S)
  unfolding remove_from_set leave_if_empty
  delete_session_internal connected s user_id id skip_region =
      if connected
      then (let s1 = remove_from_set redis s user_id (setting.show id) in
          let s2 =
            if not skip_region
            then remove_from_set redis s1 setting.region_key (setting.entry user_id id)
            else s1 in
          leave_if_empty s2 user_id)
      else some (false, s)

  -- `delete_session`.
  unfoldable pub delete_session : Bool → S → String → ℕ → Option (Bool × S)
  unfolding delete_session_internal
  delete_session connected s user_id id = delete_session_internal connected s user_id id false

  -- `is_online`.
  unfoldable pub is_online : Bool → S → String → Bool
  is_online connected s user_id =
      if connected then elim (redis.exists_key s user_id) [ none ↦ false | some b ↦ b ] else false

  -- The intersection of two sets.
  unfoldable pub common : List String → List String → List String
  unfolding contains
  common [] ys = []
  common (x ∷ xs) ys = if contains ys x then x ∷ common xs ys else common xs ys

  -- `filter_online` without the patched Redis; for no users it asks for nothing.
  unfoldable pub filter_online : Bool → S → List String → List String
  unfolding common
  filter_online connected s [] = []
  filter_online connected s (u ∷ us) =
      if connected
      then common (elim (redis.smembers s online_set) [ none ↦ [] | some members ↦ members ])
          (u ∷ us)
      else []

  -- The loop of `clear_region`; an entry that cannot be read is passed over.
  unfoldable pub delete_all : S → List String → Option S
  unfolding delete_session_internal
  delete_all s [] = some s
  delete_all s (session ∷ sessions) = elim (setting.parse session) [
    | none ↦ delete_all s sessions
    | some (user_id, id) ↦ elim (delete_session_internal true s user_id id true) [
      | none ↦ none
      | some (_, s') ↦ delete_all s' sessions
    ]
  ]

  -- `clear_region`, with a connection.
  unfoldable pub clear_region : S → Option String → Option S
  unfolding delete_all
  clear_region s region_id =
      let region : String = elim region_id [ none ↦ setting.region_key | some id ↦ id ] in
      elim (redis.smembers s region) [
        | none ↦ none
        | some [] ↦ some s
        | some (x ∷ xs) ↦ elim (delete_all s (x ∷ xs)) [
          | none ↦ none
          | some s' ↦ redis.del s' region
        ]
      ]
