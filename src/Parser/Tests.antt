-- ===== src/Parser/Tests.antt =====
-- The parser on concrete tokens.
use dawnchat_api.Prelude.{some, List, [], ◌∷◌, String, ◌≡◌, refl}
use dawnchat_api.Models.{contains}
use dawnchat_api.Parser.Tokens.{Token, MessageResults, is_marker, parse_message_iter, parse_message}
use dawnchat_api.Parser.Results.{
  any, mentions_user, mentions_role, is_everyone, parse_message_iter_ends, contained_block,
  uncontained_block, parse_message_mentions,
}

abbrev ada : Token
ada = Token.user_mention "ada"

abbrev bob : Token
bob = Token.user_mention "bob"

alone : parse_message_iter (bob ∷ []) ≡ some (bob ∷ [])
unfolding parse_message_iter
alone = refl

contained_block_example :
    parse_message_iter (Token.codeblock_marker 1 ∷ ada ∷ Token.codeblock_marker 1 ∷ bob ∷ [])
    ≡ some (Token.codeblock_marker 1 ∷ Token.codeblock_marker 1 ∷ bob ∷ [])
unfolding is_marker
contained_block_example = contained_block 1 (ada ∷ []) (bob ∷ []) (bob ∷ []) (refl, tt) alone

-- The escape before the mention is not looked at.
uncontained_block_example :
    parse_message_iter (Token.codeblock_marker 3 ∷ Token.escape ∷ ada ∷ [])
    ≡ some (Token.codeblock_marker 3 ∷ Token.escape ∷ ada ∷ [])
unfolding is_marker
uncontained_block_example = uncontained_block 3 (Token.escape ∷ ada ∷ []) (refl, (refl, tt))

abbrev message : List Token
message = ada ∷ Token.escape ∷ bob ∷ Token.mention_everyone ∷ []

parse_message_mentions_example :
    (us : List Token) × (r : MessageResults) × (parse_message_iter message ≡ some us)
    × (parse_message message ≡ some r)
    × ((id : String) → contains r.user_mentions id ≡ any (mentions_user id) us)
    × ((id : String) → contains r.role_mentions id ≡ any (mentions_role id) us)
    × (r.mentions_everyone ≡ any is_everyone us)
parse_message_mentions_example = parse_message_mentions message

parse_message_iter_ends_example : (us : List Token) × (parse_message_iter message ≡ some us)
parse_message_iter_ends_example = parse_message_iter_ends message
