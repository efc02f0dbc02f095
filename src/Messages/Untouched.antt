-- ===== src/Messages/Untouched.antt =====
-- Which steps of `create_from_api` change neither the stored messages nor what is published.
use dawnchat_api.Prelude.{
  Bool, ◌&&◌, Option, none, some, List, [], ◌∷◌, String, ◌≡◌, ◌∙◌, arith, inl, inr, Option-cases,
}
use dawnchat_api.Errors.{Result, ok, err}
use dawnchat_api.Models.{Channel}
use dawnchat_api.Messages.Model.{Message, DataMessageSend, SendableEmbed, MessageAuthor, author_id}
use dawnchat_api.Messages.World.{World, Action, TokenCache, pure, lift, attempt, ◌>>=◌}
use dawnchat_api.Messages.Checks.{Requested, or_empty, consume_nonce, as_invalid_operation}
use dawnchat_api.Messages.Context.{Context}
use dawnchat_api.Messages.Mentions.{parse_mentions, known_roles, mass_mentions, valid_mentions}
use dawnchat_api.Messages.Build.{non_empty}
use dawnchat_api.Messages.Send.{
  use_attachment, use_attachments, use_media, attach_sendable_embed, attach_embeds,
}
use dawnchat_api.Messages.Create.{expect, find_replies, resolve, complete}

-- The same messages are stored, and nothing was published or queued.
abbrev pub IsUntouched : {C : Type 0} → World C → World C → Type 0
IsUntouched w w' = (w'.messages ≡ w.messages) × (w'.events ≡ w.events)

abbrev pub Leaves : {C A : Type 0} → Action C A → Type 0
Leaves {C} {A} m =
    (w : World C) (r : Result A) (w' : World C) → m w ≡ some (r, w') → IsUntouched w w'

module _ {C A : Type 0} where
  pub pure-Leaves : (a : A) → Leaves (pure {C = C} a)
  pure-Leaves a w r w' e = ground arith

  pub lift-Leaves : (r : Result A) → Leaves (lift {C = C} r)
  lift-Leaves r w r' w' e = ground arith

  pub attempt-Leaves : (o : Option (Result A)) → Leaves (attempt {C = C} o)
  attempt-Leaves none w r' w' e = ground arith
  attempt-Leaves (some r) w r' w' e = ground arith

  pub >>=-Leaves :
      {B : Type 0} (m : Action C B) (f : B → Action C A)
      → Leaves m
      → ((b : B) → Leaves (f b))
      → Leaves (m >>= f)
  >>=-Leaves m f h k w r w' e = elim (Option-cases (m w)) [
    | inl stuck ↦ ground arith
    | inr ((err e', w1), done) ↦ ground (arith, h w (err e') w1 done)
    | inr ((ok b, w1), done) ↦
        let first = h w (ok b) w1 done in
        let second = k b w1 r w' (ground arith) in (second.0 ∙ first.0, second.1 ∙ first.1)
  ]

module _ {C : Type 0} where
  use_attachment-Leaves :
      (id parent uploader : String) → Leaves (use_attachment {C = C} id parent uploader)
  unfolding use_attachment
  use_attachment-Leaves id parent uploader w r w' e = ground arith

  use_attachments-Leaves :
      (ids : List String) (parent uploader : String)
      → Leaves (use_attachments {C = C} ids parent uploader)
  unfolding use_attachments
  use_attachments-Leaves [] parent uploader = pure-Leaves []
  use_attachments-Leaves (id ∷ ids) parent uploader =
      >>=-Leaves (use_attachment id parent uploader) _ (use_attachment-Leaves id parent uploader)
        (λ file.
          >>=-Leaves (use_attachments ids parent uploader) _
            (use_attachments-Leaves ids parent uploader) (λ files. pure-Leaves (file ∷ files)))

  use_media-Leaves :
      (media : Option String) (self : Message) → Leaves (use_media {C = C} media self)
  unfolding use_media
  use_media-Leaves none self = pure-Leaves none
  use_media-Leaves (some id) self =
      >>=-Leaves (use_attachment id self.id self.author) _
        (use_attachment-Leaves id self.id self.author) (λ file. pure-Leaves (some file))

  attach_embeds-Leaves :
      (embeds : List SendableEmbed) (self : Message) → Leaves (attach_embeds {C = C} self embeds)
  unfolding attach_embeds attach_sendable_embed
  attach_embeds-Leaves [] self = pure-Leaves self
  attach_embeds-Leaves (embed ∷ embeds) self =
      >>=-Leaves (attach_sendable_embed self embed) _
        (>>=-Leaves (use_media embed.media self) _ (use_media-Leaves embed.media self)
          (λ media. pure-Leaves _))
        (λ next. attach_embeds-Leaves embeds next)

  pub consume_nonce-Leaves :
      (tokens : TokenCache C) (key : String) (nonce : Option String)
      → Leaves (as_invalid_operation (consume_nonce tokens key nonce))
  unfolding consume_nonce as_invalid_operation
  consume_nonce-Leaves tokens key none w r w' e = ground arith
  consume_nonce-Leaves tokens key (some v) w r w' e = elim (Option-cases (tokens.get w.cache v).0) [
    | inl fresh ↦ ground arith
    | inr (_, known) ↦ ground arith
  ]

module _ {C : Type 0} (ctx : Context) (channel : Channel) (author : MessageAuthor) where
  pub complete-Leaves :
      (request : DataMessageSend) (nonce : String) (message : Message)
      → Leaves (complete {C = C} ctx channel author request nonce message)
  unfolding complete
  complete-Leaves request nonce message =
      >>=-Leaves (use_attachments (or_empty request.attachments) message.id (author_id author)) _
        (use_attachments-Leaves (or_empty request.attachments) message.id (author_id author))
        (λ files.
          let start = record message { attachments = non_empty files } in
          >>=-Leaves (attach_embeds start (or_empty request.embeds)) _
            (attach_embeds-Leaves (or_empty request.embeds) start) (λ embedded. pure-Leaves _))

  find_replies-Leaves :
      (request : DataMessageSend) (allow_mentions : Bool) (users : List String)
      → Leaves (find_replies {C = C} ctx channel author request allow_mentions users)
  unfolding find_replies
  find_replies-Leaves request allow_mentions users w r w' e = ground arith

  pub resolve-Leaves :
      (request : DataMessageSend) (allow_mentions : Bool) (requested : Requested)
      → Leaves (resolve {C = C} ctx channel author request allow_mentions requested)
  unfolding resolve
  resolve-Leaves request allow_mentions requested =
      let allow_mass = allow_mentions && ctx.mass_mentions_enabled in
      let parse = expect (parse_mentions ctx request.content requested) in
      >>=-Leaves (attempt parse) _ (attempt-Leaves parse) (λ parsed.
        let know = expect (known_roles ctx allow_mass channel parsed) in
        >>=-Leaves (attempt know) _ (attempt-Leaves know) (λ known.
          let permit = mass_mentions ctx author channel known in
          >>=-Leaves (attempt permit) _ (attempt-Leaves permit) (λ allowed.
            >>=-Leaves
              (find_replies ctx channel author request allow_mentions allowed.user_mentions) _
              (find_replies-Leaves request allow_mentions allowed.user_mentions)
              (λ found.
                let keep =
                  valid_mentions ctx channel (record allowed { user_mentions = found.0 }) in
                >>=-Leaves (attempt keep) _ (attempt-Leaves keep)
                  (λ valid. pure-Leaves (valid, found.1))))))
