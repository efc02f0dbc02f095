-- ===== src/Messages/World.antt =====
-- What a handler on messages changes, and its actions: the stored messages and files, the nonces that
-- were used, and what was published and queued. An action that fails keeps what it changed before;
-- `none` is a panic.
use dawnchat_api.Prelude.{Option, none, some, List, [], ◌∷◌, ◌++◌, String, Bool}
use dawnchat_api.Errors.{ErrorType, Result, ok, err}
use dawnchat_api.Messages.Model.{Message, File}

-- `EventV1` sent to a channel, and the tasks that a new message queues.
pub data Event : Type 0 where
  -- topic, message
  message : String → Message → Event
  -- topic, id, channel, user, emoji
  message_react message_unreact : String → String → String → String → String → Event
  -- topic, id, channel, emoji
  message_remove_reaction : String → String → String → String → Event
  -- topic, id, channel
  message_delete : String → String → String → Event
  -- topic, channel, ids
  bulk_message_delete : String → String → List String → Event
  -- `tasks::last_message_id::queue`: channel, id, is_dm
  last_message_id : String → String → Bool → Event
  -- `tasks::process_embeds::queue`: channel, id, content
  process_embeds : String → String → String → Event
  -- `tasks::ack::queue_message` with a push notification: channel, message, recipients
  push_message : String → Message → List String → Event

-- The cache of nonces, an `lru::LruCache<String, ()>` (crates/core/database/src/util/idempotency.rs).
pub record TokenCache (C : Type 0) : Type 0 where
  pub get : C → String → Option (Unit {0}) × C
  pub put : C → String → C

pub record World (C : Type 0) : Type 0 where
  pub cache : C
  pub messages : List (String × Message)
  pub files : List (String × File)
  pub events : List Event

abbrev pub Action : Type 0 → Type 0 → Type 0
Action C A = World C → Option (Result A × World C)

module _ {C : Type 0} where
  abbrev pub pure : {A : Type 0} → A → Action C A
  pure a w = some (ok a, w)

  -- A computation that changes nothing.
  abbrev pub lift : {A : Type 0} → Result A → Action C A
  lift r w = some (r, w)

  abbrev pub fail : {A : Type 0} → ErrorType → Action C A
  fail e w = some (err e, w)

  -- A computation that changes nothing and may panic.
  abbrev pub attempt : {A : Type 0} → Option (Result A) → Action C A
  attempt o w = elim o [ none ↦ none | some r ↦ some (r, w) ]

  infixl 5 ◌>>=◌ ◌>>◌
  abbrev pub ◌>>=◌ : {A B : Type 0} → Action C A → (A → Action C B) → Action C B
  ◌>>=◌ m f w = elim (m w) [
    | none ↦ none
    | some (err e, w') ↦ some (err e, w')
    | some (ok a, w') ↦ f a w'
  ]

  abbrev pub ◌>>◌ : {B : Type 0} → Action C (Unit {0}) → Action C B → Action C B
  m >> k = m >>= λ _. k

  abbrev pub publish : Event → Action C (Unit {0})
  publish e w = some (ok tt, record w { events = w.events ++ e ∷ [] })
