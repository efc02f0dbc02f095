-- ===== src/Messages/Created.antt =====
-- What every run of `create_from_api` that returns a message went through.
use dawnchat_api.Prelude.{
  Bool, ◌&&◌, Option, none, some, List, [], ◌∷◌, String, ◌≡◌, refl, ◌∙◌, arith, inl, inr,
  Option-cases,
}
use dawnchat_api.Errors.{Result, ok, err}
use dawnchat_api.Models.{Channel}
use dawnchat_api.Parser.Tokens.{MessageResults}
use dawnchat_api.Messages.Model.{
  Message, DataMessageSend, SendableEmbed, ApiUser, MessageAuthor, author_id,
}
use dawnchat_api.Messages.World.{World, Action, TokenCache, pure, lift, attempt, ◌>>=◌}
use dawnchat_api.Messages.Checks.{
  Requested, request_flags, or_empty, validate_sum, consume_nonce, as_invalid_operation,
  check_not_empty, check_interactions,
}
use dawnchat_api.Messages.Context.{Context}
use dawnchat_api.Messages.Mentions.{parse_mentions, known_roles, mass_mentions, valid_mentions}
use dawnchat_api.Messages.Replies.{resolve_replies}
use dawnchat_api.Messages.Store.{Messages}
use dawnchat_api.Messages.Build.{build_message, non_empty}
use dawnchat_api.Messages.Send.{
  use_media, attach_sendable_embed, attach_embeds, use_attachments, send,
}
use dawnchat_api.Messages.Create.{
  FeaturesLimits, expect, find_replies, resolve, complete, finish, check_counts, create_from_api,
}

-- Whatever the action returns, and from whatever world, satisfies `P`.
abbrev pub Yields : {C A : Type 0} → (A → Type 0) → Action C A → Type 0
Yields {C} {A} P m = (w : World C) (a : A) (w' : World C) → m w ≡ some (ok a, w') → P a

-- No condition.
abbrev Any : {A : Type 0} → A → Type 0
Any a = Unit {0}

module _ {C A : Type 0} where
  pure-Yields : (P : A → Type 0) (a : A) → P a → Yields P (pure {C = C} a)
  pure-Yields P a p w b w' e = ground arith

  lift-Yields : (r : Result A) → Yields (λ a. r ≡ ok a) (lift {C = C} r)
  lift-Yields r w a w' e = ground arith

  attempt-Yields : (o : Option (Result A)) → Yields (λ a. o ≡ some (ok a)) (attempt {C = C} o)
  attempt-Yields none w a w' e = ground arith
  attempt-Yields (some r) w a w' e = ground arith

  pub >>=-Yields :
      {B : Type 0} (Q : B → Type 0) (P : A → Type 0) (m : Action C B) (f : B → Action C A)
      → Yields Q m
      → ((b : B) → Q b → Yields P (f b))
      → Yields P (m >>= f)
  >>=-Yields Q P m f h k w a w' e = elim (Option-cases (m w)) [
    | inl stuck ↦ ground arith
    | inr ((err e', w1), done) ↦ ground arith
    | inr ((ok b, w1), done) ↦ k b (h w b w1 done) w1 a w' (ground arith)
  ]

  -- A step whose result does not matter.
  pub then-Yields :
      {B : Type 0} (P : A → Type 0) (m : Action C B) (f : B → Action C A)
      → ((b : B) → Yields P (f b))
      → Yields P (m >>= f)
  then-Yields P m f k = >>=-Yields Any P m f (λ w b w' e. tt) (λ b _. k b)

-- A message without what its attachments, embeds and content add to it.
abbrev pub head : Message → Message
head m = record m { attachments = none; embeds = none; content = none; nonce = none }

abbrev pub IsSameHead : Message → Message → Type 0
IsSameHead before after = head after ≡ head before

module _ {C : Type 0} where
  attach_sendable_embed-IsSameHead :
      (self : Message) (embed : SendableEmbed)
      → Yields (IsSameHead self) (attach_sendable_embed {C = C} self embed)
  unfolding attach_sendable_embed
  attach_sendable_embed-IsSameHead self embed =
      then-Yields (IsSameHead self) (use_media embed.media self) _
        (λ media. pure-Yields (IsSameHead self) _ refl)

  attach_embeds-IsSameHead :
      (embeds : List SendableEmbed) (self : Message)
      → Yields (IsSameHead self) (attach_embeds {C = C} self embeds)
  unfolding attach_embeds
  attach_embeds-IsSameHead [] self = pure-Yields (IsSameHead self) self refl
  attach_embeds-IsSameHead (embed ∷ embeds) self =
      >>=-Yields (IsSameHead self) (IsSameHead self) (attach_sendable_embed self embed) _
        (attach_sendable_embed-IsSameHead self embed)
        (λ next h w m w' e. attach_embeds-IsSameHead embeds next w m w' e ∙ h)

module _ (ctx : Context) (channel : Channel) (author : MessageAuthor) where
  -- The mentions and replies of a message, with the steps that led to them.
  pub record IsResolved (request : DataMessageSend) (allow_mentions : Bool)
      (resolved : MessageResults × List String) : Type 0 where
    pub known : MessageResults
    pub allowed : MessageResults
    pub messages : Messages
    pub users : List String
    pub permitted : mass_mentions ctx author channel known ≡ some (ok allowed)
    pub replied :
        resolve_replies ctx messages allow_mentions request.replies allowed.user_mentions
        ≡ ok (users, resolved.1)
    pub kept :
        valid_mentions ctx channel (record allowed { user_mentions = users }) ≡ some (ok resolved.0)

  -- What a created message was built from.
  pub record IsCreated (id : String) (request : DataMessageSend) (user : Option ApiUser)
      (allow_mentions : Bool) (message : Message) : Type 0 where
    pub requested : Requested
    pub resolved : MessageResults × List String
    pub flags_accepted : request_flags request.flags user allow_mentions ≡ ok requested
    pub resolution : IsResolved request allow_mentions resolved
    pub built :
        head message
        ≡ head (build_message id channel request author requested resolved.0 resolved.1)

  module _ {C : Type 0} where
    pub complete-IsSameHead :
        (request : DataMessageSend) (nonce : String) (message : Message)
        → Yields (IsSameHead message) (complete {C = C} ctx channel author request nonce message)
    unfolding complete
    complete-IsSameHead request nonce message =
        let P = IsSameHead message in
        let embeds = or_empty request.embeds in
        then-Yields P
          (use_attachments {C = C} (or_empty request.attachments) message.id (author_id author)) _
          (λ files.
            let start = record message { attachments = non_empty files } in
            >>=-Yields P P (attach_embeds start embeds) _ (attach_embeds-IsSameHead embeds start)
              (λ embedded h.
                pure-Yields P (record embedded { content = request.content; nonce = some nonce })
                  h))

    finish-IsSameHead :
        (request : DataMessageSend) (limits : FeaturesLimits) (nonce : String)
        (generate_embeds : Bool) (built : Message)
        → Yields
            (IsSameHead built)
            (finish {C = C} ctx channel author request limits nonce generate_embeds built)
    unfolding finish
    finish-IsSameHead request limits nonce generate_embeds built =
        let P = IsSameHead built in
        then-Yields P (lift (check_counts limits.message_attachments ctx.message_embeds request)) _
          (λ _.
            >>=-Yields P P (complete ctx channel author request nonce built) _
              (complete-IsSameHead request nonce built)
              (λ message h.
                then-Yields P (send message author channel generate_embeds) _
                  (λ _. pure-Yields P message h)))

    find_replies-Yields :
        (request : DataMessageSend) (allow_mentions : Bool) (users : List String)
        → Yields
            (λ found.
              (messages : Messages) × (resolve_replies ctx messages allow_mentions request.replies
                  users
                ≡ ok found))
            (find_replies {C = C} ctx channel author request allow_mentions users)
    unfolding find_replies
    find_replies-Yields request allow_mentions users w found w' e = (w.messages, ground arith)

    resolve-IsResolved :
        (request : DataMessageSend) (allow_mentions : Bool) (requested : Requested)
        → Yields
            (IsResolved request allow_mentions)
            (resolve {C = C} ctx channel author request allow_mentions requested)
    unfolding resolve
    resolve-IsResolved request allow_mentions requested =
        let P = IsResolved request allow_mentions in
        let allow_mass = allow_mentions && ctx.mass_mentions_enabled in
        then-Yields P (attempt (expect (parse_mentions ctx request.content requested))) _ (λ parsed.
          then-Yields P (attempt (expect (known_roles ctx allow_mass channel parsed))) _ (λ known.
            let permit = mass_mentions ctx author channel known in
            >>=-Yields _ P (attempt permit) _ (attempt-Yields permit) (λ allowed permitted.
              >>=-Yields _ P
                (find_replies ctx channel author request allow_mentions allowed.user_mentions) _
                (find_replies-Yields request allow_mentions allowed.user_mentions)
                (λ found replied.
                  let keep =
                    valid_mentions ctx channel (record allowed { user_mentions = found.0 }) in
                  >>=-Yields _ P (attempt keep) _ (attempt-Yields keep) (λ valid kept.
                    pure-Yields P (valid, found.1)
                      (record {
                        known = known;
                        allowed = allowed;
                        messages = replied.0;
                        users = found.0;
                        permitted = permitted;
                        replied = replied.1;
                        kept = kept;
                      }))))))

    pub create_from_api-IsCreated :
        (tokens : TokenCache C) (id : String) (request : DataMessageSend) (user : Option ApiUser)
        (limits : FeaturesLimits) (key : String) (generate_embeds allow_mentions : Bool)
        → Yields (IsCreated id request user allow_mentions) (
            create_from_api ctx channel author tokens id request user limits key generate_embeds
              allow_mentions)
    unfolding create_from_api
    create_from_api-IsCreated tokens id request user limits key generate_embeds allow_mentions =
        let P = IsCreated id request user allow_mentions in
        let flags = request_flags request.flags user allow_mentions in
        then-Yields P
          (lift (
            validate_sum ctx.byte_len request.content (or_empty request.embeds)
              limits.message_length))
          _
          (λ _.
            then-Yields P (as_invalid_operation (consume_nonce tokens key request.nonce)) _
              (λ nonce. then-Yields P (lift (check_not_empty request)) _ (λ _.
                >>=-Yields _ P (lift flags) _ (lift-Yields flags) (λ requested accepted.
                  then-Yields P (lift (check_interactions request.interactions)) _ (λ _.
                    >>=-Yields _ P (resolve ctx channel author request allow_mentions requested) _
                      (resolve-IsResolved request allow_mentions requested)
                      (λ resolved resolution.
                        let built =
                          build_message id channel request author requested resolved.0 resolved.1 in
                        λ w message w' e. record {
                          requested = requested;
                          resolved = resolved;
                          flags_accepted = accepted;
                          resolution = resolution;
                          built =
                              finish-IsSameHead request limits nonce generate_embeds built w message
                                w' e;
                        }))))))
