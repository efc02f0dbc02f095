-- ===== src/Messages/Outcome.antt =====
-- What a run of `create_from_api` leaves behind.
use dawnchat_api.Prelude.{
  Bool, false, Option, none, some, List, ◌∷◌, ◌++◌, String, ◌≡◌, refl, ap, sym, ◌∙◌, arith, inl,
  inr, Option-cases,
}
use dawnchat_api.Errors.{ErrorType, Result, ok, err}
use dawnchat_api.Models.{Channel, get}
use dawnchat_api.Parser.Tokens.{MessageResults}
use dawnchat_api.Messages.Model.{Message, DataMessageSend, ApiUser, MessageAuthor}
use dawnchat_api.Messages.Flags.{has_suppressed_notifications}
use dawnchat_api.Messages.World.{World, Action, TokenCache, pure, lift, ◌>>=◌}
use dawnchat_api.Messages.Checks.{
  Requested, request_flags, or_empty, validate_sum, consume_nonce, as_invalid_operation,
  check_not_empty, check_interactions,
}
use dawnchat_api.Messages.Context.{Context}
use dawnchat_api.Messages.Store.{insert_message}
use dawnchat_api.Messages.Build.{build_message, final_flags}
use dawnchat_api.Messages.Send.{send}
use dawnchat_api.Messages.Create.{
  FeaturesLimits, resolve, complete, finish, check_counts, create_from_api,
}
use dawnchat_api.Messages.Created.{Yields, IsSameHead, complete-IsSameHead}
use dawnchat_api.Messages.FlagBits.{final_flags-bits, suppressed_bit}
use dawnchat_api.Messages.Untouched.{
  IsUntouched, Leaves, lift-Leaves, consume_nonce-Leaves, resolve-Leaves, complete-Leaves,
}
use dawnchat_api.Messages.Announced.{announced, send-announced}

module _ {C : Type 0} (channel : Channel) (author : MessageAuthor) (generate_embeds : Bool) where
  -- An error leaves the stored messages and what was announced; a message that is returned is new, is
  -- stored once, and is announced.
  abbrev pub Outcome : World C → Result Message → World C → Type 0
  Outcome w (err e) w' = IsUntouched w w'
  Outcome w (ok m) w' =
      (get w.messages m.id ≡ none)
      × (w'.messages ≡ (m.id, m) ∷ w.messages)
      × (w'.events ≡ w.events ++ announced generate_embeds author channel m)

  abbrev Ends : Action C Message → Type 0
  Ends m = (w : World C) (r : Result Message) (w' : World C) → m w ≡ some (r, w') → Outcome w r w'

  Outcome-after :
      (w w1 w' : World C) (r : Result Message) → IsUntouched w w1 → Outcome w1 r w' → Outcome w r w'
  Outcome-after w w1 w' (err e) (m, es) (m', es') = (m' ∙ m, es' ∙ es)
  Outcome-after w w1 w' (ok a) (m, es) (new, m', es') = (
    ap (λ ms. get ms a.id) (sym m) ∙ new,
    m' ∙ ap (λ ms. (a.id, a) ∷ ms) m,
    es' ∙ ap (λ all. all ++ announced generate_embeds author channel a) es,
  )

  Outcome-same :
      (w w1 w' : World C) (r1 r : Result Message)
      → Outcome w r1 w1
      → ◌≡◌ {A = Option (Result Message × World C)} (some (r1, w1)) (some (r, w'))
      → Outcome w r w'
  Outcome-same w w1 w' r1 r h e =
      let same_result : r ≡ r1 = cc e in
      let same_world : w' ≡ w1 = cc e in rw (same_result, same_world) h

  >>=-Ends :
      {B : Type 0} (Q : B → Type 0) (m : Action C B) (f : B → Action C Message)
      → Leaves m
      → Yields Q m
      → ((b : B) → Q b → Ends (f b))
      → Ends (m >>= f)
  >>=-Ends Q m f h q k w r w' e = elim (Option-cases (m w)) [
    | inl stuck ↦ ground arith
    | inr ((err e', w1), done) ↦
        Outcome-same w w1 w' (err e') r (h w (err e') w1 done) (ground arith)
    | inr ((ok b, w1), done) ↦
        Outcome-after w w1 w' r (h w (ok b) w1 done) (k b (q w b w1 done) w1 r w' (ground arith))
  ]

  -- A step whose result does not matter.
  then-Ends :
      {B : Type 0} (m : Action C B) (f : B → Action C Message)
      → Leaves m
      → ((b : B) → Ends (f b))
      → Ends (m >>= f)
  then-Ends m f h k = >>=-Ends (λ _. Unit {0}) m f h (λ w b w' e. tt) (λ b _. k b)

  send-Ends :
      (m : Message)
      → has_suppressed_notifications m ≡ false
      → Ends (send m author channel generate_embeds >>= λ _. pure m)
  unfolding insert_message
  send-Ends m loud w r w' e = elim (Option-cases (get w.messages m.id)) [
    | inr (found, taken) ↦
        Outcome-same w w w' (err (ErrorType.database_error "insert" "message")) r (refl, refl)
          (ground (arith, send-announced generate_embeds author channel m loud w))
    | inl new ↦
        let after = record w {
          messages = (m.id, m) ∷ w.messages;
          events = w.events ++ announced generate_embeds author channel m;
        } in
        Outcome-same w after w' (ok m) r (new, refl, refl)
          (ground (arith, send-announced generate_embeds author channel m loud w))
  ]

built-loud :
    (channel : Channel) (author : MessageAuthor) (id : String) (request : DataMessageSend)
    (requested : Requested) (resolved : MessageResults × List String)
    → has_suppressed_notifications
        (build_message id channel request author requested resolved.0 resolved.1)
      ≡ false
unfolding build_message
built-loud channel author id request requested resolved =
    suppressed_bit (build_message id channel request author requested resolved.0 resolved.1)
      (final_flags requested resolved.0) refl
    ∙ (final_flags-bits requested resolved.0).0

module _ {C : Type 0} (ctx : Context) (channel : Channel) (author : MessageAuthor)
    (generate_embeds : Bool) where
  finish-Ends :
      (request : DataMessageSend) (limits : FeaturesLimits) (nonce : String) (built : Message)
      → has_suppressed_notifications built ≡ false
      → Ends {C = C} channel author generate_embeds
          (finish ctx channel author request limits nonce generate_embeds built)
  unfolding finish has_suppressed_notifications
  finish-Ends request limits nonce built loud =
      let counts = check_counts limits.message_attachments ctx.message_embeds request in
      then-Ends channel author generate_embeds (lift counts) _ (lift-Leaves counts) (λ _.
        >>=-Ends channel author generate_embeds (IsSameHead built)
          (complete ctx channel author request nonce built) _
          (complete-Leaves ctx channel author request nonce built)
          (complete-IsSameHead ctx channel author request nonce built)
          (λ message same.
            send-Ends channel author generate_embeds message
              (ap has_suppressed_notifications same ∙ loud)))

  -- A run of `create_from_api` that fails has stored no message and published and queued nothing (a
  -- nonce and files may be used up). One that succeeds returns a message with a new id, has stored it,
  -- once, and has announced it: the event, the update of the channel, the task that generates embeds if
  -- that is asked for and there is content, and a push in a direct message or group or with a mention
  -- (one of those online alone does not count), in this order.
  pub create_from_api-Outcome :
      (tokens : TokenCache C) (id : String) (request : DataMessageSend) (user : Option ApiUser)
      (limits : FeaturesLimits) (key : String) (allow_mentions : Bool) (w : World C)
      (r : Result Message) (w' : World C)
      → create_from_api ctx channel author tokens id request user limits key generate_embeds
          allow_mentions w
        ≡ some (r, w')
      → Outcome channel author generate_embeds w r w'
  unfolding create_from_api
  create_from_api-Outcome tokens id request user limits key allow_mentions =
      let sum =
        validate_sum ctx.byte_len request.content (or_empty request.embeds) limits.message_length in
      let flags = request_flags request.flags user allow_mentions in
      let nonempty = check_not_empty request in
      let interactions = check_interactions request.interactions in
      then-Ends channel author generate_embeds (lift sum) _ (lift-Leaves sum) (λ _.
        then-Ends channel author generate_embeds
          (as_invalid_operation (consume_nonce tokens key request.nonce)) _
          (consume_nonce-Leaves tokens key request.nonce)
          (λ nonce.
            then-Ends channel author generate_embeds (lift nonempty) _ (lift-Leaves nonempty) (λ _.
              then-Ends channel author generate_embeds (lift flags) _ (lift-Leaves flags)
                (λ requested.
                  then-Ends channel author generate_embeds (lift interactions) _
                    (lift-Leaves interactions)
                    (λ _.
                      then-Ends channel author generate_embeds
                        (resolve ctx channel author request allow_mentions requested) _
                        (resolve-Leaves ctx channel author request allow_mentions requested)
                        (λ resolved.
                          finish-Ends request limits nonce
                            (build_message id channel request author requested resolved.0
                              resolved.1)
                            (built-loud channel author id request requested resolved)))))))
