-- ===== src/Messages/ReplyLists.antt =====
-- The replies of a created message.
use dawnchat_api.Prelude.{
  suc, ◌+◌, ◌≤◌, Bool, false, ◌||◌, Option, none, some, List, [], ◌∷◌, ◌++◌, String, ◌≡◌, ◌⊎◌, not,
  refl, ap, sym, ◌∙◌, arith, inl, inr, Bool-cases, ltb, ◌==◌, ==_iff, string_eq,
}
use dawnchat_api.Errors.{ok, Result-cases}
use dawnchat_api.Models.{Channel, contains, length}
use dawnchat_api.Messages.Model.{Message, DataMessageSend, ReplyIntent, ApiUser, MessageAuthor}
use dawnchat_api.Messages.World.{World, TokenCache}
use dawnchat_api.Messages.Context.{Context}
use dawnchat_api.Messages.Store.{Messages, fetch_message}
use dawnchat_api.Messages.Replies.{
  Replies, add_reply, add_replies, resolve_replies, is_not_found, or_true,
}
use dawnchat_api.Messages.Build.{build_message}
use dawnchat_api.Messages.Create.{FeaturesLimits, create_from_api}
use dawnchat_api.Messages.UserMentions.{non_empty-inj}
use dawnchat_api.Messages.Created.{IsCreated, create_from_api-IsCreated}

abbrev pub IsDistinct : List String → Type 0
IsDistinct [] = Unit
IsDistinct (x ∷ xs) = (contains xs x ≡ false) × IsDistinct xs

contains-last :
    (xs : List String) (x y : String) → contains (xs ++ y ∷ []) x ≡ (contains xs x || (x == y))
unfolding contains
contains-last [] x y = ground arith
contains-last (z ∷ zs) x y = ground (arith, contains-last zs x y)

last-IsDistinct :
    (xs : List String) (x : String)
    → contains xs x ≡ false
    → IsDistinct xs
    → IsDistinct (xs ++ x ∷ [])
unfolding contains
last-IsDistinct [] x h k = (refl, tt)
last-IsDistinct (y ∷ ys) x h k = (
  ground (arith, contains-last ys y x, ==_iff x y, ==_iff y x),
  last-IsDistinct ys x (ground arith) k.1,
)

length-last : (xs : List String) (x : String) → length (xs ++ x ∷ []) ≡ suc (length xs)
length-last [] x = refl
length-last (y ∷ ys) x = ground (arith, length-last ys x)

-- A reply adds at most one id, and only a new one.
add_reply-adds :
    (messages : Messages) (allow : Bool) (entry : ReplyIntent) (acc after : Replies)
    → add_reply messages allow entry acc ≡ ok after
    → (after.1 ≡ acc.1) ⊎ ((x : String) × (contains acc.1 x ≡ false) × (after.1 ≡ acc.1 ++ x ∷ []))
unfolding add_reply
add_reply-adds messages allow entry (users, replies) after e =
    elim (Result-cases (fetch_message messages entry.id)) [
      | inl (missing, absent) ↦
          elim (Bool-cases (not (is_not_found missing) || or_true entry.fail_if_not_exists)) [
            | inl refused ↦ ground arith
            | inr left_out ↦ inl (ground arith)
          ]
      | inr (found, present) ↦ elim (Bool-cases (contains replies found.id)) [
        | inl already ↦ inl (ground arith)
        | inr new ↦ inr (found.id, new, ground arith)
      ]
    ]

add_replies-bound :
    (messages : Messages) (allow : Bool) (entries : List ReplyIntent) (acc after : Replies)
    → add_replies messages allow entries acc ≡ ok after
    → IsDistinct acc.1
    → IsDistinct after.1 × (length after.1 ≤ length acc.1 + length entries)
unfolding add_replies
add_replies-bound messages allow [] acc after e h =
    let same : after ≡ acc = ground arith in rw same (h, omega arith)
add_replies-bound messages allow (entry ∷ entries) acc after e h =
    elim (Result-cases (add_reply messages allow entry acc)) [
      | inl (missing, failed) ↦ ground arith
      | inr (next, added) ↦
          let (distinct, more) =
            one_more acc next (add_reply-adds messages allow entry acc next added) h in
          let (all, few) =
            add_replies-bound messages allow entries next after (ground arith) distinct in
          (all, omega arith)
    ]
  where
    one_more :
        (acc next : Replies)
        → (next.1 ≡ acc.1)
          ⊎ ((x : String) × (contains acc.1 x ≡ false) × (next.1 ≡ acc.1 ++ x ∷ []))
        → IsDistinct acc.1
        → IsDistinct next.1 × (length next.1 ≤ suc (length acc.1))
    one_more acc next (inl same) h = rw same (h, omega arith)
    one_more acc next (inr (x, new, more)) h =
        rw (more, length-last acc.1 x) (last-IsDistinct acc.1 x new h, omega arith)

resolve_replies-bound :
    (ctx : Context) (messages : Messages) (allow : Bool) (entries : Option (List ReplyIntent))
    (users : List String) (after : Replies)
    → resolve_replies ctx messages allow entries users ≡ ok after
    → IsDistinct after.1 × (length after.1 ≤ ctx.message_replies)
unfolding resolve_replies
resolve_replies-bound ctx messages allow none users after e =
    let nothing : after.1 ≡ [] = ground arith in rw nothing (tt, omega arith)
resolve_replies-bound ctx messages allow (some entries) users after e =
    elim (Bool-cases (ltb ctx.message_replies (length entries))) [
      | inl many ↦ ground arith
      | inr few ↦
          let (distinct, bound) =
            add_replies-bound messages allow entries (users, []) after (ground arith) tt in
          (distinct, ground arith)
    ]

module _ {C : Type 0} (ctx : Context) (channel : Channel) (author : MessageAuthor)
    (tokens : TokenCache C) (id : String) (request : DataMessageSend) (user : Option ApiUser)
    (limits : FeaturesLimits) (key : String) (generate_embeds allow_mentions : Bool) (w : World C)
    (message : Message) (w' : World C)
    (sent : create_from_api ctx channel author tokens id request user limits key generate_embeds
        allow_mentions w
      ≡ some (ok message, w')) where
  created : IsCreated ctx channel author id request user allow_mentions message
  created =
      create_from_api-IsCreated ctx channel author tokens id request user limits key generate_embeds
        allow_mentions w message w' sent

  -- The replies of a created message are distinct, and no more than the configured number.
  pub replies-IsDistinct :
      (replies : List String)
      → message.replies ≡ some replies
      → IsDistinct replies × (length replies ≤ ctx.message_replies)
  unfolding build_message
  replies-IsDistinct replies e =
      let same =
        non_empty-inj created.resolved.1 replies (sym (ap (λ m. m.replies) created.built) ∙ e) in
      rw (sym same) (
        resolve_replies-bound ctx created.resolution.messages allow_mentions request.replies _ _
          created.resolution.replied)
