-- ===== src/Messages/Reactions.antt =====
-- Reactions: `Message::add_reaction`, `Message::remove_reaction` and `Message::clear_reaction`
-- (crates/core/database/src/models/messages/model.rs), `Emoji::can_use`
-- (crates/core/database/src/models/emojis/model.rs).
use dawnchat_api.Prelude.{
  ℕ, Bool, true, false, not, ◌&&◌, none, some, List, String, leb, ◌==◌, string_eq, nat_eq,
  if◌then◌else◌,
}
use dawnchat_api.Errors.{ErrorType, Result, ok, err}
use dawnchat_api.Models.{contains, get, length}
use dawnchat_api.Messages.Model.{Message, Interactions}
use dawnchat_api.Messages.Flags.{is_some}
use dawnchat_api.Messages.World.{Action, Event, lift, fail, publish, ◌>>=◌, ◌>>◌}
use dawnchat_api.Messages.Store
use dawnchat_api.Messages.Store.{Messages, fetch_message}

-- What a reaction is checked against. `is_ulid` is `Ulid::from_str(..).is_ok()`.
pub record Emojis : Type 0 where
  pub is_ulid : String → Bool
  pub fetch_emoji : String → Result (Unit {0})
  pub permissible_emojis : List String
  pub message_reactions : ℕ

-- `Interactions::can_use`.
unfoldable pub can_use : Interactions → String → Bool
unfolding contains
can_use self emoji =
    if self.restrict_reactions
    then (elim self.reactions [ none ↦ false | some reactions ↦ contains reactions emoji ])
    else true

-- `Emoji::can_use`.
unfoldable pub emoji_can_use : Emojis → String → Result Bool
unfolding contains
emoji_can_use ctx emoji =
    if ctx.is_ulid emoji
    then (elim (ctx.fetch_emoji emoji) [ err e ↦ err e | ok _ ↦ ok true ])
    else ok (contains ctx.permissible_emojis emoji)

-- Whether the limit on the number of reactions excludes the emoji.
unfoldable pub is_full : ℕ → Message → String → Bool
unfolding get
is_full limit self emoji =
    leb limit (length self.reactions) && not (is_some (get self.reactions emoji))

-- Whether the user who reacted with the emoji is the only one.
unfoldable pub is_last : Message → String → String → Result Bool
unfolding get contains
is_last self user emoji = elim (get self.reactions emoji) [
  | none ↦ err ErrorType.not_found
  | some users ↦ if contains users user then ok (length users == 1) else err ErrorType.not_found
]

module _ {C : Type 0} where
  -- A write to the stored messages.
  unfoldable pub write : (Messages → Result Messages) → Action C (Unit {0})
  write f w = elim (f w.messages) [
    | err e ↦ some (err e, w)
    | ok messages ↦ some (ok tt, record w { messages = messages })
  ]

  -- `Message::add_reaction`.
  unfoldable pub add_reaction : Emojis → Message → String → String → Action C (Unit {0})
  unfolding is_full can_use emoji_can_use Store.add_reaction write
  add_reaction ctx self user emoji =
      if is_full ctx.message_reactions self emoji
      then fail ErrorType.invalid_operation
      else if not (can_use self.interactions emoji)
      then fail ErrorType.invalid_operation
      else (do
        usable ← lift (emoji_can_use ctx emoji)
        if not usable
            then fail ErrorType.invalid_operation
            else (publish (Event.message_react self.channel self.id self.channel user emoji)
                >> write (λ messages. Store.add_reaction messages self.id emoji user)))

  -- `Message::remove_reaction`.
  unfoldable pub remove_reaction : Message → String → String → Action C (Unit {0})
  unfolding is_last Store.clear_reaction Store.remove_reaction write
  remove_reaction self user emoji = do
    empty ← lift (is_last self user emoji)
    publish (Event.message_unreact self.channel self.id self.channel user emoji)
    write (λ messages.
        if empty
        then Store.clear_reaction messages self.id emoji
        else Store.remove_reaction messages self.id emoji user)

  -- `Message::clear_reaction`.
  unfoldable pub clear_reaction : Message → String → Action C (Unit {0})
  unfolding Store.clear_reaction write
  clear_reaction self emoji =
      publish (Event.message_remove_reaction self.channel self.id self.channel emoji)
      >> write (λ messages. Store.clear_reaction messages self.id emoji)
