-- ===== src/Messages/Sample.antt =====
-- For the tests: a channel with an earlier message, and the sending of another.
use dawnchat_api.Prelude.{
  sym, ◌∙◌, inl, inr, string_eq, true, false, none, some, List, [], ◌∷◌, ◌++◌, String, ◌≡◌, refl,
  if◌then◌else◌,
}
use dawnchat_api.Errors.{ok, err, ErrorType}
use dawnchat_api.Bits.{complement}
use dawnchat_api.Models.{User, Channel, contains}
use dawnchat_api.Parser.Tokens.{Token}
use dawnchat_api.BulkPermissions.Sample.{user_of, talk, store, bulk_store}
use dawnchat_api.Messages.Model.{Message, DataMessageSend, ApiUser, MessageAuthor, default_message}
use dawnchat_api.Models.{User}
use dawnchat_api.BulkPermissions.Agreement.{Among}
use dawnchat_api.Messages.Seen.{IsConsistent}
use dawnchat_api.Messages.Reactions.{Emojis}
use dawnchat_api.Messages.Routes.{Routes}
use dawnchat_api.Messages.World.{World, TokenCache, Event}
use dawnchat_api.Messages.Context.{Context}
use dawnchat_api.Messages.Create.{FeaturesLimits, create_from_api}

-- A cache that never drops a nonce.
abbrev pub tokens : TokenCache (List String)
tokens = record {
  get = λ cache k. (if contains cache k then some tt else none, cache);
  put = λ cache k. k ∷ cache;
}

abbrev pub admin : ApiUser
admin = record {
  id = "admin";
  username = "admin";
  discriminator = "0001";
  display_name = none;
  privileged = true;
  bot = none;
}

-- Every content mentions Bob, and everyone.
abbrev pub context : Context
context = record {
  now = 5;
  database = store;
  bulk = bulk_store;
  tokens = λ content. Token.user_mention "bob" ∷ Token.mention_everyone ∷ [];
  byte_len = λ content. 2;
  mass_mentions_enabled = true;
  message_replies = 5;
  message_embeds = 5;
}

-- Suppressed notifications are asked for (bit 1).
abbrev pub hello : DataMessageSend
hello = record {
  nonce = some "n1";
  content = some "hi";
  attachments = none;
  replies = some (record { id = "m0"; mention = true; fail_if_not_exists = none } ∷ []);
  embeds = none;
  masquerade = none;
  interactions = none;
  flags = some 2;
}

abbrev pub limits : FeaturesLimits
limits = record { message_length = 2000; message_attachments = 5 }

-- An earlier message of Bob, to which Ann has reacted.
abbrev pub earlier : Message
earlier = record default_message {
  id = "m0";
  channel = "talk";
  author = "bob";
  reactions = ("heart", "ann" ∷ []) ∷ [];
}

abbrev pub world : World (List String)
world = record { cache = []; messages = ("m0", earlier) ∷ []; files = []; events = [] }

abbrev pub sent_message : Message
sent_message = record default_message {
  id = "m1";
  nonce = some "n1";
  channel = "talk";
  author = "admin";
  content = some "hi";
  mentions = some ("bob" ∷ []);
  replies = some ("m0" ∷ []);
  flags = some 6;
}

abbrev pub after : World (List String)
after = record {
  cache = "n1" ∷ [];
  messages = ("m1", sent_message) ∷ ("m0", earlier) ∷ [];
  files = [];
  events =
      Event.message "talk" sent_message
      ∷ Event.last_message_id "talk" "m1" false
      ∷ Event.push_message "talk" sent_message ("bob" ∷ [])
      ∷ [];
}

pub sent :
    create_from_api context
      (Channel.text_channel talk)
      (MessageAuthor.user admin)
      tokens
      "m1"
      hello
      (some admin)
      limits
      "key"
      false
      true
      world
    ≡ some (ok sent_message, after)
unfolding create_from_api complement
sent = refl

abbrev pub emojis : Emojis
emojis = record {
  is_ulid = λ emoji. false;
  fetch_emoji = λ emoji. err ErrorType.not_found;
  permissible_emojis = "heart" ∷ [];
  message_reactions = 20;
}

abbrev pub routes : Routes
routes = record {
  now = 5;
  database = store;
  fetch_channel = λ id. ok (Channel.text_channel talk);
  emojis = emojis;
}

abbrev pub without_earlier : World (List String)
without_earlier = record world {
  messages = [];
  events = Event.message_delete "talk" "m0" "talk" ∷ [];
}

-- A message of another channel.
abbrev pub elsewhere : Message
elsewhere = record default_message { id = "m9"; channel = "other"; author = "bob" }

abbrev pub two_channels : World (List String)
two_channels = record after { messages = ("m9", elsewhere) ∷ after.messages }

abbrev pub bulk_deleted : World (List String)
bulk_deleted = record after {
  messages = ("m9", elsewhere) ∷ [];
  events = after.events ++ Event.bulk_message_delete "talk" "talk" ("m0" ∷ []) ∷ [];
}

abbrev pub reacted : Message
reacted = record earlier { reactions = ("heart", "ann" ∷ "bob" ∷ []) ∷ [] }

abbrev pub with_heart : World (List String)
with_heart = record world {
  messages = ("m0", reacted) ∷ [];
  events = Event.message_react "talk" "m0" "talk" "bob" "heart" ∷ [];
}

-- Bob has reacted since Ann's request read the message.
abbrev pub wiped : World (List String)
wiped = record with_heart {
  messages = ("m0", record earlier { reactions = [] }) ∷ [];
  events = with_heart.events ++ Event.message_unreact "talk" "m0" "talk" "ann" "heart" ∷ [];
}

is_bob : (u : User) → Among u (user_of "bob" ∷ []) → u ≡ user_of "bob"
is_bob u (inl e) = e
is_bob u (inr e) = absurd e

only_bob :
    (us : List User) → us ≡ user_of "bob" ∷ [] → (u w : User) → Among u us → Among w us → w ≡ u
only_bob us e u w a b = is_bob w (rw e at b) ∙ sym (is_bob u (rw e at a))

pub bulk_store-IsConsistent : IsConsistent bulk_store
bulk_store-IsConsistent = record {
  servers = λ id sv e. cc e;
  users = λ ids us e u a w b same. only_bob us (cc e) u w a b;
}
