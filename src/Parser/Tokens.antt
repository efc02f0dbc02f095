-- ===== src/Parser/Tokens.antt =====
-- The tokens of a message, the iterator over them and the results
-- (crates/core/parser/src/lib.rs). The lexer is generated by `logos` from the attributes of the
-- token type; the iterator takes what it yields, a list of tokens.
use dawnchat_api.Prelude.{
  ℕ, zero, suc, ◌+◌, Bool, true, false, Option, none, some, List, [], ◌∷◌, String, ◌==◌, nat_eq,
  string_eq, if◌then◌else◌,
}
use dawnchat_api.Models.{contains}

-- `MessageToken`.
pub data Token : Type 0 where
  escape : Token
  codeblock_marker : ℕ → Token
  user_mention role_mention channel_mention emoji : String → Token
  mention_everyone mention_online : Token

-- `MessageResults`; a `HashSet` is the list of its elements, each once.
pub record MessageResults : Type 0 where
  pub user_mentions : List String
  pub role_mentions : List String
  pub channel_mentions : List String
  pub emojis : List String
  pub mentions_everyone : Bool
  pub mentions_online : Bool

-- `MessageParserIterator`.
pub record Parser : Type 0 where
  pub inner : List Token
  pub temp : List Token

-- `token == Some(MessageToken::CodeblockMarker(ty))`.
unfoldable pub is_marker : ℕ → Token → Bool
is_marker ty (Token.codeblock_marker n) = n == ty
is_marker ty _ = false

-- The loop after a marker: the rest of `inner` after the closing marker, or `none` if `inner` ends
-- first.
unfoldable pub after_block : ℕ → List Token → Option (List Token)
unfolding is_marker
after_block ty [] = none
after_block ty (t ∷ ts) = if is_marker ty t then some ts else after_block ty ts

-- `self.inner.next()` for its effect.
unfoldable pub skip : List Token → List Token
skip [] = []
skip (t ∷ ts) = ts

-- The arms of `next` on a token of `inner`. `temp` is empty here, so the tokens that the loop has
-- pushed when `inner` ends are all of `ts`.
unfoldable pub next_token : Token → List Token → Token × Parser
unfolding after_block skip
next_token Token.escape ts = (Token.escape, record { inner = skip ts; temp = [] })
next_token (Token.codeblock_marker ty) ts = elim (after_block ty ts) [
  | some rest ↦
      (Token.codeblock_marker ty, record { inner = rest; temp = Token.codeblock_marker ty ∷ [] })
  | none ↦ (Token.codeblock_marker ty, record { inner = []; temp = ts })
]
next_token t ts = (t, record { inner = ts; temp = [] })

-- `next`.
unfoldable pub next : List Token → List Token → Option (Token × Parser)
unfolding next_token
next inner (t ∷ temp) = some (t, record { inner = inner; temp = temp })
next [] [] = none
next (t ∷ ts) [] = some (next_token t ts)

-- All tokens that the iterator yields; each takes one unit of fuel, and `none` means that it ran out.
unfoldable pub drain : ℕ → Parser → Option (List Token)
unfolding next
drain zero p = none
drain (suc fuel) p = elim (next p.inner p.temp) [
  | none ↦ some []
  | some (t, p') ↦ elim (drain fuel p') [ none ↦ none | some ts ↦ some (t ∷ ts) ]
]

abbrev pub length : List Token → ℕ
length [] = 0
length (t ∷ ts) = suc (length ts)

-- `parse_message_iter`, collected: one unit of fuel for each token, and two more.
unfoldable pub parse_message_iter : List Token → Option (List Token)
unfolding drain
parse_message_iter tokens = drain (length tokens + 2) (record { inner = tokens; temp = [] })

-- `insert` of a `HashSet`.
unfoldable pub insert : String → List String → List String
unfolding contains
insert x xs = if contains xs x then xs else x ∷ xs

-- `MessageResults::default`.
abbrev pub default : MessageResults
default = record {
  user_mentions = [];
  role_mentions = [];
  channel_mentions = [];
  emojis = [];
  mentions_everyone = false;
  mentions_online = false;
}

-- The body of the loop of `parse_message`.
unfoldable pub note : MessageResults → Token → MessageResults
unfolding insert
note r Token.escape = r
note r (Token.codeblock_marker ty) = r
note r (Token.user_mention id) = record r { user_mentions = insert id r.user_mentions }
note r (Token.role_mention id) = record r { role_mentions = insert id r.role_mentions }
note r (Token.channel_mention id) = record r { channel_mentions = insert id r.channel_mentions }
note r (Token.emoji id) = record r { emojis = insert id r.emojis }
note r Token.mention_everyone = record r { mentions_everyone = true }
note r Token.mention_online = record r { mentions_online = true }

unfoldable pub note_all : MessageResults → List Token → MessageResults
unfolding note
note_all r [] = r
note_all r (t ∷ ts) = note_all (note r t) ts

-- `parse_message`.
unfoldable pub parse_message : List Token → Option MessageResults
unfolding parse_message_iter note_all
parse_message tokens = elim (parse_message_iter tokens) [
  | none ↦ none
  | some ts ↦ some (note_all default ts)
]
