-- ===== src/Parser/Results.antt =====
-- What the parser returns for a whole message.
use dawnchat_api.Prelude.{
  ℕ, suc, ◌+◌, Bool, true, false, ◌||◌, none, some, List, [], ◌∷◌, ◌++◌, String, ◌≡◌, refl, ◌∙◌, ap,
  arith, ◌==◌, ==_refl, ==_iff, string_eq, nat_eq,
}
use dawnchat_api.Models.{contains}
use dawnchat_api.Parser.Tokens.{
  Token, MessageResults, is_marker, after_block, skip, length, parse_message_iter, parse_message,
  insert, note, note_all, default,
}
use dawnchat_api.Parser.Blocks.{counted_within, enough_fuel, drain_counts, length-after_block}

counted : List Token → List Token
counted ts = counted_within (suc (length ts)) ts

parse-counted : (ts : List Token) → parse_message_iter ts ≡ some (counted ts)
unfolding parse_message_iter counted
parse-counted ts = drain_counts (length ts + 2) (suc (length ts)) [] ts (omega arith) (omega arith)

-- The iterator over a message always ends: every message has its list of counted tokens.
pub parse_message_iter_ends :
    (ts : List Token) → (us : List Token) × (parse_message_iter ts ≡ some us)
parse_message_iter_ends ts = (counted ts, parse-counted ts)

abbrev pub HasNoMarker : ℕ → List Token → Type 0
HasNoMarker ty [] = Unit
HasNoMarker ty (t ∷ ts) = (is_marker ty t ≡ false) × HasNoMarker ty ts

closed_at :
    (ty : ℕ) (body rest : List Token)
    → HasNoMarker ty body
    → after_block ty (body ++ Token.codeblock_marker ty ∷ rest) ≡ some rest
unfolding after_block
closed_at ty [] rest h = rw (==_refl ty)
closed_at ty (t ∷ body) rest h = rw h.0 (closed_at ty body rest h.1)

not_closed : (ty : ℕ) (ts : List Token) → HasNoMarker ty ts → after_block ty ts ≡ none
unfolding after_block
not_closed ty [] h = refl
not_closed ty (t ∷ ts) h = rw h.0 (not_closed ty ts h.1)

counted-closed :
    (ty : ℕ) (ts rest : List Token)
    → after_block ty ts ≡ some rest
    → counted (Token.codeblock_marker ty ∷ ts)
      ≡ Token.codeblock_marker ty ∷ Token.codeblock_marker ty ∷ counted rest
unfolding counted counted_within
counted-closed ty ts rest e =
    let shorter = length-after_block ty ts rest e in
    ground
      (arith, enough_fuel (suc (length ts)) (suc (length rest)) rest (omega arith) (omega arith))

counted-open :
    (ty : ℕ) (ts : List Token)
    → after_block ty ts ≡ none
    → counted (Token.codeblock_marker ty ∷ ts) ≡ Token.codeblock_marker ty ∷ ts
unfolding counted counted_within
counted-open ty ts e = ground arith

-- Of a code block, from a marker to the next one of the same kind, only the two markers count; the
-- tokens after it count as they would alone.
pub contained_block :
    (ty : ℕ) (body rest us : List Token)
    → HasNoMarker ty body
    → parse_message_iter rest ≡ some us
    → parse_message_iter (Token.codeblock_marker ty ∷ (body ++ Token.codeblock_marker ty ∷ rest))
      ≡ some (Token.codeblock_marker ty ∷ Token.codeblock_marker ty ∷ us)
contained_block ty body rest us h e =
    let all = body ++ Token.codeblock_marker ty ∷ rest in
    let known : counted rest ≡ us = ground (arith, parse-counted rest) in
    rw (parse-counted (Token.codeblock_marker ty ∷ all)) (
      ap some (
        counted-closed ty all rest (closed_at ty body rest h)
        ∙ ap (λ ts. Token.codeblock_marker ty ∷ Token.codeblock_marker ty ∷ ts) known))

-- After a marker that no other marker of its kind closes, every token counts, also one that an escape
-- or a code block of another kind would hide.
pub uncontained_block :
    (ty : ℕ) (ts : List Token)
    → HasNoMarker ty ts
    → parse_message_iter (Token.codeblock_marker ty ∷ ts) ≡ some (Token.codeblock_marker ty ∷ ts)
uncontained_block ty ts h =
    parse-counted (Token.codeblock_marker ty ∷ ts)
    ∙ ap some (counted-open ty ts (not_closed ty ts h))

counted-escape :
    (t : Token) (ts : List Token) → counted (Token.escape ∷ t ∷ ts) ≡ Token.escape ∷ counted ts
unfolding counted counted_within skip
counted-escape t ts =
    ap (◌∷◌ Token.escape)
      (enough_fuel (suc (suc (length ts))) (suc (length ts)) ts (omega arith) (omega arith))

-- Outside of code blocks an escape hides the token that follows it.
pub escape_hides :
    (t : Token) (ts us : List Token)
    → parse_message_iter ts ≡ some us
    → parse_message_iter (Token.escape ∷ t ∷ ts) ≡ some (Token.escape ∷ us)
escape_hides t ts us e =
    let known : counted ts ≡ us = ground (arith, parse-counted ts) in
    parse-counted (Token.escape ∷ t ∷ ts)
    ∙ ap some (counted-escape t ts ∙ ap (◌∷◌ Token.escape) known)

-- Some token passes the test.
abbrev pub any : (Token → Bool) → List Token → Bool
any p [] = false
any p (t ∷ ts) = p t || any p ts

abbrev pub mentions_user : String → Token → Bool
mentions_user id (Token.user_mention x) = id == x
mentions_user id _ = false

abbrev pub mentions_role : String → Token → Bool
mentions_role id (Token.role_mention x) = id == x
mentions_role id _ = false

abbrev pub is_everyone : Token → Bool
is_everyone Token.mention_everyone = true
is_everyone _ = false

contains-insert :
    (x y : String) (xs : List String) → contains (insert x xs) y ≡ (y == x || contains xs y)
unfolding insert contains
contains-insert x y xs = ground (arith, ==_iff y x)

-- The three parts of the results that decide who is notified.
abbrev Notes : MessageResults → List Token → MessageResults → Type 0
Notes r ts r' =
    ((id : String)
      → contains r'.user_mentions id ≡ (contains r.user_mentions id || any (mentions_user id) ts))
    × ((id : String)
        → contains r'.role_mentions id ≡ (contains r.role_mentions id || any (mentions_role id) ts))
    × (r'.mentions_everyone ≡ (r.mentions_everyone || any is_everyone ts))

note-users :
    (r : MessageResults) (t : Token) (id : String)
    → contains (note r t).user_mentions id ≡ (contains r.user_mentions id || mentions_user id t)
unfolding note
note-users r (Token.user_mention x) id = ground (arith, contains-insert x id r.user_mentions)
note-users r _ id = ground arith

note-roles :
    (r : MessageResults) (t : Token) (id : String)
    → contains (note r t).role_mentions id ≡ (contains r.role_mentions id || mentions_role id t)
unfolding note
note-roles r (Token.role_mention x) id = ground (arith, contains-insert x id r.role_mentions)
note-roles r _ id = ground arith

note-everyone :
    (r : MessageResults) (t : Token)
    → (note r t).mentions_everyone ≡ (r.mentions_everyone || is_everyone t)
unfolding note
note-everyone r t = ground arith

note_all-Notes : (ts : List Token) (r : MessageResults) → Notes r ts (note_all r ts)
unfolding note_all
note_all-Notes [] r = (λ id. ground arith, λ id. ground arith, ground arith)
note_all-Notes (t ∷ ts) r =
    let (users, roles, everyone) = note_all-Notes ts (note r t) in
    (
      λ id. ground (arith, users id, note-users r t id),
      λ id. ground (arith, roles id, note-roles r t id),
      ground (arith, everyone, note-everyone r t),
    )

-- Every message is parsed, and what decides who is notified is read off its counted tokens: a user or
-- role is in the results exactly if a counted token mentions it, and everyone exactly if a counted
-- token is `@everyone`.
pub parse_message_mentions :
    (tokens : List Token)
    → (us : List Token) × (r : MessageResults) × (parse_message_iter tokens ≡ some us)
      × (parse_message tokens ≡ some r)
      × ((id : String) → contains r.user_mentions id ≡ any (mentions_user id) us)
      × ((id : String) → contains r.role_mentions id ≡ any (mentions_role id) us)
      × (r.mentions_everyone ≡ any is_everyone us)
unfolding parse_message contains
parse_message_mentions tokens =
    let us = counted tokens in
    let e = parse-counted tokens in
    let (users, roles, everyone) = note_all-Notes us default in
    (us, note_all default us, e, ground arith, users, roles, everyone)
