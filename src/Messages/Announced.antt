-- ===== src/Messages/Announced.antt =====
-- What `Message::send` publishes and queues (crates/core/database/src/models/messages/model.rs).
use dawnchat_api.Prelude.{
  Bool, false, ◌||◌, none, some, List, [], ◌∷◌, ◌++◌, ◌≡◌, refl, ap, sym, arith, inl, inr,
  Option-cases, if◌then◌else◌,
}
use mathlib.Core.List.{append_assoc, append-nil}
use dawnchat_api.Errors.{ok, err, Result-cases}
use dawnchat_api.Models.{Channel}
use dawnchat_api.Messages.Model.{Message, MessageAuthor}
use dawnchat_api.Messages.Flags.{has_suppressed_notifications, contains_mass_push_mention, is_some}
use dawnchat_api.Messages.World.{World, Action, Event, pure, publish, ◌>>◌}
use dawnchat_api.Messages.Store.{insert_message}
use dawnchat_api.Messages.Build.{push_recipients, is_dm, is_dm_or_group}
use dawnchat_api.Messages.Send.{
  store_message, queue_embeds, send_without_notifications, notify, send,
}

-- The task that generates embeds.
unfoldable pub generated : Bool → Message → List Event
generated generate_embeds m = elim m.content [
  | none ↦ []
  | some content ↦ if generate_embeds then Event.process_embeds m.channel m.id content ∷ [] else []
]

-- The task that pushes a message of a direct message or a group, or with a mention.
unfoldable pub pushed : MessageAuthor → Channel → Message → List Event
unfolding contains_mass_push_mention push_recipients
pushed author channel m =
    if is_dm_or_group channel || is_some m.mentions || contains_mass_push_mention m
    then Event.push_message m.channel m (push_recipients author channel m) ∷ []
    else []

-- All that is published and queued for a new message, in order.
unfoldable pub announced : Bool → MessageAuthor → Channel → Message → List Event
unfolding generated pushed
announced generate_embeds author channel m =
    Event.message m.channel m
    ∷ Event.last_message_id m.channel m.id (is_dm channel)
    ∷ (generated generate_embeds m ++ pushed author channel m)

module _ {C : Type 0} where
  -- The action succeeds and adds the events.
  abbrev Adds : List Event → Action C (Unit {0}) → Type 0
  Adds es m = (w : World C) → m w ≡ some (ok tt, record w { events = w.events ++ es })

  publish-Adds : (e : Event) → Adds (e ∷ []) (publish e)
  publish-Adds e w = refl

  pure-Adds : Adds [] (pure tt)
  pure-Adds w = ap (λ es. some (ok tt, record w { events = es })) (sym (append-nil w.events))

  >>-Adds :
      (es fs : List Event) (m k : Action C (Unit {0}))
      → Adds es m
      → Adds fs k
      → Adds (es ++ fs) (m >> k)
  >>-Adds es fs m k h h' w =
      ground (arith, h w, h' (record w { events = w.events ++ es }), append_assoc w.events es fs)

  queue_embeds-Adds :
      (generate_embeds : Bool) (m : Message)
      → Adds (generated generate_embeds m) (queue_embeds generate_embeds m)
  unfolding queue_embeds generated
  queue_embeds-Adds generate_embeds m w = elim (Option-cases m.content) [
    | inl nothing ↦ ground (arith, append-nil w.events)
    | inr (content, e) ↦ ground (arith, append-nil w.events)
  ]

  notify-Adds :
      (author : MessageAuthor) (channel : Channel) (m : Message)
      → has_suppressed_notifications m ≡ false
      → Adds (pushed author channel m) (notify author channel m)
  unfolding notify pushed
  notify-Adds author channel m loud w = ground (arith, append-nil w.events)

  -- A message that is not stored yet is stored and announced; another with its id is left.
  pub send-announced :
      (generate_embeds : Bool) (author : MessageAuthor) (channel : Channel) (m : Message)
      → has_suppressed_notifications m ≡ false
      → (w : World C)
      → send m author channel generate_embeds w ≡ (elim (insert_message w.messages m) [
        | err e ↦ some (err e, w)
        | ok messages ↦ some (
          ok tt,
          record w {
            messages = messages;
            events = w.events ++ announced generate_embeds author channel m;
          },
        )
      ])
  unfolding send send_without_notifications store_message announced
  send-announced generate_embeds author channel m loud w =
      elim (Result-cases (insert_message w.messages m)) [
        | inl (_, taken) ↦ ground arith
        | inr (messages, stored) ↦
            let e1 = Event.message m.channel m in
            let e2 = Event.last_message_id m.channel m.id (is_dm channel) in
            let gen = generated generate_embeds m in
            let push = pushed author channel m in
            let w2 = record w { messages = messages; events = w.events ++ e1 ∷ [] ++ e2 ∷ [] } in
            let w3 = record w2 { events = w2.events ++ gen } in
            ground (
              arith,
              queue_embeds-Adds generate_embeds m w2,
              notify-Adds author channel m loud w3,
              append_assoc (w.events ++ e1 ∷ [] ++ e2 ∷ []) gen push,
              append_assoc (w.events ++ e1 ∷ []) (e2 ∷ []) (gen ++ push),
              append_assoc w.events (e1 ∷ []) (e2 ∷ [] ++ (gen ++ push)),
            )
      ]
