-- ===== src/Messages/UserMentions.antt =====
-- Whom a created message mentions.
use dawnchat_api.Prelude.{
  Bool, true, false, Option, none, some, List, [], ◌∷◌, map, String, ◌≡◌, refl, ap, sym, ◌∙◌, arith,
  Bool-cases, inl, inr, Option-cases, string_eq, ==_iff,
}
use dawnchat_api.Errors.{ok, err, Result-cases}
use dawnchat_api.Models.{User, Member, Server, Channel, TextChannel, contains, is_empty}
use dawnchat_api.BulkPermissions.Query.{new, from_server_id, with_channel, with_members}
use dawnchat_api.BulkPermissions.Calculate.{members_can_see_channel}
use dawnchat_api.Parser.Tokens.{MessageResults}
use dawnchat_api.Messages.Model.{Message, DataMessageSend, ApiUser, MessageAuthor}
use dawnchat_api.Messages.World.{World, TokenCache}
use dawnchat_api.Messages.Context.{Context}
use dawnchat_api.Messages.Mentions.{retain, or_false, visible_mentions, mentions_in, valid_mentions}
use dawnchat_api.Messages.Build.{build_message, non_empty}
use dawnchat_api.Messages.Create.{FeaturesLimits, create_from_api}
use dawnchat_api.Messages.Created.{IsCreated, create_from_api-IsCreated}
use dawnchat_api.Messages.Seen.{CanView, IsConsistent, view_of_seen}

true_of_or_false : (o : Option Bool) → or_false o ≡ true → o ≡ some true
true_of_or_false none h = ground arith
true_of_or_false (some b) h = ap some h

none_of_empty : (xs : List String) (x : String) → is_empty xs ≡ true → contains xs x ≡ false
unfolding contains
none_of_empty [] x h = refl
none_of_empty (y ∷ ys) x h = ground arith

pub contains-retain :
    (p : String → Bool) (xs : List String) (x : String)
    → contains (retain p xs) x ≡ true
    → (p x ≡ true) × (contains xs x ≡ true)
unfolding contains retain
contains-retain p [] x h = ground arith
contains-retain p (y ∷ ys) x h = ground (arith, contains-retain p ys x, ==_iff x y)

-- Who can view the text channel: one of the ids asked for, with the member and the user that the
-- database has for it.
abbrev pub IsViewer : Context → TextChannel → String → Type 0
IsViewer ctx c id =
    (sv : Server) × (ids : List String) × (ms : List Member) × (us : List User)
    × (ctx.bulk.fetch_server c.server ≡ ok sv)
    × (contains ids id ≡ true)
    × (ctx.bulk.fetch_members c.server ids ≡ ok ms)
    × (ctx.bulk.fetch_users (map (λ m. m.id.user) ms) ≡ ok us)
    × CanView ctx c sv ms us id

-- What may be mentioned in a message of the channel: a recipient of a direct message or a group, a
-- member of a text channel's server who can view the channel, and nobody in saved messages.
abbrev pub MayBeMentioned : Context → Channel → String → Type 0
MayBeMentioned ctx (Channel.direct_message c) id = contains c.recipients id ≡ true
MayBeMentioned ctx (Channel.group c) id = contains c.recipients id ≡ true
MayBeMentioned ctx (Channel.saved_messages saved user) id = ⊥
MayBeMentioned ctx (Channel.text_channel c) id = IsViewer ctx c id

module _ (ctx : Context) (consistent : IsConsistent ctx.bulk) where
  visible_mentions-CanView :
      (c : TextChannel) (users kept : List String) (id : String)
      → visible_mentions ctx (Channel.text_channel c) c.server users ≡ some (ok kept)
      → contains kept id ≡ true
      → MayBeMentioned ctx (Channel.text_channel c) id
  unfolding visible_mentions from_server_id
  visible_mentions-CanView c users kept id e h =
      elim (Result-cases (ctx.bulk.fetch_members c.server users)) [
        | inl (_, failed) ↦ ground arith
        | inr (ms, fetched) ↦
            let valid = retain (contains (map (λ m. m.id.user) ms)) users in
            elim (Bool-cases (is_empty valid)) [
              | inl nobody ↦
                  let same : kept ≡ valid = ground arith in
                  absurd (cc (none_of_empty valid id nobody, ap (λ k. contains k id) same, h))
              | inr somebody ↦ elim (Result-cases (ctx.bulk.fetch_server c.server)) [
                | inl (_, lost) ↦ ground arith
                | inr (sv, found) ↦
                    let run =
                      members_can_see_channel ctx.bulk ctx.now
                        (with_members (with_channel (new sv) (Channel.text_channel c)) ms) in
                    elim (Option-cases run) [
                      | inl stuck ↦ ground arith
                      | inr ((seen, q), done) ↦
                          let same : kept ≡ retain (λ m. or_false (seen m)) valid = ground arith in
                          let chosen =
                            contains-retain (λ m. or_false (seen m)) valid id
                              (ap (λ k. contains k id) (sym same) ∙ h) in
                          let (us, users_found, view) =
                            view_of_seen ctx c sv ms seen q id consistent
                              (sym (consistent.servers c.server sv found)) done
                              (true_of_or_false (seen id) chosen.0) in
                          let asked =
                            contains-retain (contains (map (λ m. m.id.user) ms)) users id
                              chosen.1 in
                          (sv, users, ms, us, found, asked.1, fetched, users_found, view)
                    ]
              ]
            ]
      ]

  mentions_in-MayBeMentioned :
      (channel : Channel) (found valid : MessageResults) (id : String)
      → mentions_in ctx channel found ≡ some (ok valid)
      → contains valid.user_mentions id ≡ true
      → MayBeMentioned ctx channel id
  unfolding mentions_in
  mentions_in-MayBeMentioned (Channel.direct_message c) found valid id e h =
      let same : valid.user_mentions ≡ retain (contains c.recipients) found.user_mentions =
        ground arith in
      (contains-retain (contains c.recipients) found.user_mentions id
        (ap (λ k. contains k id) (sym same) ∙ h)).0
  mentions_in-MayBeMentioned (Channel.group c) found valid id e h =
      let same : valid.user_mentions ≡ retain (contains c.recipients) found.user_mentions =
        ground arith in
      (contains-retain (contains c.recipients) found.user_mentions id
        (ap (λ k. contains k id) (sym same) ∙ h)).0
  mentions_in-MayBeMentioned (Channel.saved_messages saved user) found valid id e h =
      let same : valid.user_mentions ≡ [] = ground arith in
      absurd (cc (none_of_empty [] id refl, ap (λ k. contains k id) same, h))
  mentions_in-MayBeMentioned (Channel.text_channel c) found valid id e h =
      elim (Option-cases
        (visible_mentions ctx (Channel.text_channel c) c.server found.user_mentions)) [
          | inl stuck ↦ ground arith
          | inr (err e', failed) ↦ ground arith
          | inr (ok kept, done) ↦
              let same : valid.user_mentions ≡ kept = ground arith in
              visible_mentions-CanView c found.user_mentions kept id done
                (ap (λ k. contains k id) (sym same) ∙ h)
        ]

  valid_mentions-MayBeMentioned :
      (channel : Channel) (found valid : MessageResults) (id : String)
      → valid_mentions ctx channel found ≡ some (ok valid)
      → contains valid.user_mentions id ≡ true
      → MayBeMentioned ctx channel id
  unfolding valid_mentions
  valid_mentions-MayBeMentioned channel found valid id e h =
      elim (Bool-cases (is_empty found.user_mentions)) [
        | inl nobody ↦
            let same : valid ≡ found = ground arith in
            absurd (
              cc (
                none_of_empty found.user_mentions id nobody,
                ap (λ r. contains r.user_mentions id) same,
                h,
              ))
        | inr somebody ↦ mentions_in-MayBeMentioned channel found valid id (ground arith) h
      ]

pub non_empty-inj : (xs ys : List String) → non_empty xs ≡ some ys → xs ≡ ys
non_empty-inj [] ys e = ground arith
non_empty-inj (x ∷ xs) ys e = cc e

module _ {C : Type 0} (ctx : Context) (channel : Channel) (author : MessageAuthor)
    (tokens : TokenCache C) (id : String) (request : DataMessageSend) (user : Option ApiUser)
    (limits : FeaturesLimits) (key : String) (generate_embeds allow_mentions : Bool) (w : World C)
    (message : Message) (w' : World C)
    (sent : create_from_api ctx channel author tokens id request user limits key generate_embeds
        allow_mentions w
      ≡ some (ok message, w')) where
  created : IsCreated ctx channel author id request user allow_mentions message
  created =
      create_from_api-IsCreated ctx channel author tokens id request user limits key generate_embeds
        allow_mentions w message w' sent

  -- Every user whom a created message mentions, in its content or by a reply, is a recipient of the
  -- direct message or group, or, in a text channel, one whose member and whose user the database
  -- returned for the users asked for, and for whom the calculation for this one user, with that member,
  -- says that the channel can be viewed; messages saved by a user mention nobody. The database has
  -- each server under its own id and finds no two users with one id.
  pub mentions-MayBeMentioned :
      (consistent : IsConsistent ctx.bulk) (ids : List String) (mentioned : String)
      → message.mentions ≡ some ids
      → contains ids mentioned ≡ true
      → MayBeMentioned ctx channel mentioned
  unfolding build_message
  mentions-MayBeMentioned consistent ids mentioned e h =
      let same =
        non_empty-inj created.resolved.0.user_mentions ids
          (sym (ap (λ m. m.mentions) created.built) ∙ e) in
      valid_mentions-MayBeMentioned ctx consistent channel _ _ mentioned created.resolution.kept
        (ap (λ k. contains k mentioned) same ∙ h)
