-- ===== src/Messages/Store.antt =====
-- The messages and files of the reference database
-- (crates/core/database/src/models/messages/ops/reference.rs and files/ops/reference.rs).
use dawnchat_api.Prelude.{
  Bool, true, false, not, ◌&&◌, none, some, List, [], ◌∷◌, ◌++◌, String, ◌==◌, string_eq,
  if◌then◌else◌,
}
use dawnchat_api.Errors.{ErrorType, Result, ok, err, ◌>>=◌}
use dawnchat_api.Models.{get, contains}
use dawnchat_api.Messages.Model.{Message, Reactions, File, FileUsedFor, FileUsedForType}

abbrev pub Messages : Type 0
Messages = List (String × Message)

abbrev pub Files : Type 0
Files = List (String × File)

-- `get_mut` of a `HashMap`, and the assignment through it.
unfoldable pub modify {ℓ} : {V : Type ℓ} → (V → V) → String → List (String × V) → List (String × V)
modify f k [] = []
modify f k ((j, v) ∷ m) = if j == k then (j, f v) ∷ m else (j, v) ∷ modify f k m

-- `remove` of a `HashMap`.
unfoldable pub remove_key {ℓ} : {V : Type ℓ} → String → List (String × V) → List (String × V)
remove_key k [] = []
remove_key k ((j, v) ∷ m) = if j == k then m else (j, v) ∷ remove_key k m

-- `insert_message`.
unfoldable pub insert_message : Messages → Message → Result Messages
unfolding get
insert_message messages message = elim (get messages message.id) [
  | some found ↦ err (ErrorType.database_error "insert" "message")
  | none ↦ ok ((message.id, message) ∷ messages)
]

-- `fetch_message`.
unfoldable pub fetch_message : Messages → String → Result Message
unfolding get
fetch_message messages id = elim (get messages id) [
  | some found ↦ ok found
  | none ↦ err ErrorType.not_found
]

-- The last element and those before it.
unfoldable pub pop {ℓ} : {A : Type ℓ} → A → List A → List A × A
pop x [] = ([], x)
pop x (y ∷ ys) = let rest = pop y ys in (x ∷ rest.0, rest.1)

-- The rest of a vector after `swap_remove` of its first element: the last one takes the place.
unfoldable pub swap_in {ℓ} : {A : Type ℓ} → List A → List A
unfolding pop
swap_in [] = []
swap_in (x ∷ xs) = let rest = pop x xs in rest.1 ∷ rest.0

-- `swap_remove` of an `IndexMap`.
unfoldable pub swap_remove_key {ℓ} : {V : Type ℓ} → String → List (String × V) → List (String × V)
unfolding swap_in
swap_remove_key k [] = []
swap_remove_key k ((j, v) ∷ m) = if j == k then swap_in m else (j, v) ∷ swap_remove_key k m

-- `swap_remove` of an `IndexSet`.
unfoldable pub swap_remove : String → List String → List String
unfolding swap_in
swap_remove x [] = []
swap_remove x (y ∷ ys) = if y == x then swap_in ys else y ∷ swap_remove x ys

-- `insert` of an `IndexSet`: a new element goes to the end.
unfoldable pub insert_last : String → List String → List String
unfolding contains
insert_last x xs = if contains xs x then xs else xs ++ x ∷ []

unfoldable pub with_reaction : String → String → Reactions → Reactions
unfolding get modify insert_last
with_reaction emoji user reactions = elim (get reactions emoji) [
  | some users ↦ modify (insert_last user) emoji reactions
  | none ↦ reactions ++ (emoji, user ∷ []) ∷ []
]

unfoldable pub without_reaction : String → String → Reactions → Reactions
unfolding modify swap_remove
without_reaction emoji user reactions = modify (swap_remove user) emoji reactions

-- A change of the reactions of the message, if there is such a message.
unfoldable pub change_reactions : (Reactions → Reactions) → Messages → String → Result Messages
unfolding get modify
change_reactions f messages id = elim (get messages id) [
  | some found ↦ ok (modify (λ m. record m { reactions = f m.reactions }) id messages)
  | none ↦ err ErrorType.not_found
]

-- `add_reaction`.
unfoldable pub add_reaction : Messages → String → String → String → Result Messages
unfolding change_reactions with_reaction
add_reaction messages id emoji user = change_reactions (with_reaction emoji user) messages id

-- `remove_reaction`.
unfoldable pub remove_reaction : Messages → String → String → String → Result Messages
unfolding change_reactions without_reaction
remove_reaction messages id emoji user = change_reactions (without_reaction emoji user) messages id

-- `clear_reaction`.
unfoldable pub clear_reaction : Messages → String → String → Result Messages
unfolding change_reactions swap_remove_key
clear_reaction messages id emoji = change_reactions (swap_remove_key emoji) messages id

-- `delete_message`.
unfoldable pub delete_message : Messages → String → Result Messages
unfolding get remove_key
delete_message messages id = elim (get messages id) [
  | some found ↦ ok (remove_key id messages)
  | none ↦ err ErrorType.not_found
]

-- `delete_messages`: the test of `retain`, as it is written.
unfoldable pub delete_messages : Messages → String → List String → Messages
unfolding contains
delete_messages [] channel ids = []
delete_messages ((id, message) ∷ rest) channel ids =
    if not (message.channel == channel) && not (contains ids id)
    then (id, message) ∷ delete_messages rest channel ids
    else delete_messages rest channel ids

-- `find_and_use_attachment`.
unfoldable pub find_and_use_attachment :
    Files → String → String → FileUsedFor → String → Result (File × Files)
unfolding get modify
find_and_use_attachment files id tag used_for uploader_id = elim (get files id) [
  | none ↦ err ErrorType.not_found
  | some file ↦
      if file.tag == tag
      then (let used = record file { uploader_id = some uploader_id; used_for = some used_for } in
          ok (used, modify (λ f. used) id files))
      else err ErrorType.not_found
]

-- `File::use_attachment`.
unfoldable pub use_attachment : Files → String → String → String → Result (File × Files)
unfolding find_and_use_attachment
use_attachment files id parent uploader_id =
    find_and_use_attachment files id "attachments"
      (record { object_type = FileUsedForType.message; id = parent }) uploader_id

-- `contains_key` for all of the ids.
unfoldable pub has_all : Files → List String → Bool
unfolding get
has_all files [] = true
has_all files (id ∷ ids) = elim (get files id) [ none ↦ false | some file ↦ has_all files ids ]

unfoldable pub mark_all : Files → List String → Files
unfolding modify
mark_all files [] = files
mark_all files (id ∷ ids) = mark_all (modify (λ f. record f { reported = some true }) id files) ids

-- `mark_attachments_as_deleted`; the field that is set is `reported`.
unfoldable pub mark_attachments_as_deleted : Files → List String → Result Files
unfolding has_all mark_all
mark_attachments_as_deleted files ids =
    if has_all files ids then ok (mark_all files ids) else err ErrorType.not_found

-- `fetch_messages_by_id`: all of the messages, or the error for one of them.
unfoldable pub fetch_messages_by_id : Messages → List String → Result (List Message)
unfolding fetch_message
fetch_messages_by_id messages [] = ok []
fetch_messages_by_id messages (id ∷ ids) = do
  message ← fetch_message messages id
  rest ← fetch_messages_by_id messages ids
  ok (message ∷ rest)
