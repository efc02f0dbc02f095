-- ===== src/Messages/Reacting.antt =====
-- What a reaction, and taking one back, does to the stored message.
use dawnchat_api.Prelude.{
  ℕ, suc, ◌≤◌, max, true, false, none, some, List, [], ◌∷◌, ◌++◌, String, ◌≡◌, refl, inl, inr,
  arith, Bool-cases, Option-cases, ◌==◌, ==_iff, ==_refl, string_eq, nat_eq, leb,
}
use dawnchat_api.Errors.{ok, Result-cases}
use dawnchat_api.Models.{get, contains, length}
use dawnchat_api.Messages.Model.{Message, Reactions}
use dawnchat_api.Messages.World.{World, Event}
use dawnchat_api.Messages.Store
use dawnchat_api.Messages.Store.{
  Messages, modify, pop, swap_in, swap_remove_key, insert_last, with_reaction, change_reactions,
}
use dawnchat_api.Messages.Reactions.{
  Emojis, can_use, emoji_can_use, is_full, is_last, write, add_reaction, remove_reaction,
}
use dawnchat_api.Messages.Deletion.{written}

pub get-modify :
    {V : Type 0} (f : V → V) (k : String) (m : List (String × V)) (v : V)
    → get m k ≡ some v
    → get (modify f k m) k ≡ some (f v)
unfolding get modify
get-modify f k [] v h = ground arith
get-modify f k ((j, x) ∷ m) v h = ground (arith, get-modify f k m v)

length-modify :
    {V : Type 0} (f : V → V) (k : String) (m : List (String × V)) → length (modify f k m) ≡ length m
unfolding modify
length-modify f k [] = refl
length-modify f k ((j, x) ∷ m) = ground (arith, length-modify f k m)

-- No two entries have one key.
abbrev pub KeysDistinct : {V : Type 0} → List (String × V) → Type 0
KeysDistinct [] = Unit
KeysDistinct ((j, v) ∷ m) = (get m j ≡ none) × KeysDistinct m

pop-lacks :
    {V : Type 0} (k : String) (x : String × V) (m : List (String × V))
    → get (x ∷ m) k ≡ none
    → (get (pop x m).0 k ≡ none) × (((pop x m).1.0 == k) ≡ false)
unfolding get pop
pop-lacks k x [] h = ground arith
pop-lacks k x (y ∷ m) h = ground (arith, pop-lacks k y m)

get-swap_remove_key :
    {V : Type 0} (k : String) (m : List (String × V))
    → KeysDistinct m
    → get (swap_remove_key k m) k ≡ none
unfolding get swap_remove_key swap_in
get-swap_remove_key k [] h = refl
get-swap_remove_key k ((j, v) ∷ []) h = ground arith
get-swap_remove_key k ((j, v) ∷ x ∷ m) h = elim (Bool-cases (j == k)) [
  | inl same ↦ ground (arith, ==_iff j k, pop-lacks k x m)
  | inr other ↦ ground (arith, get-swap_remove_key k (x ∷ m) h.1)
]

contains-last : (x : String) (xs : List String) → contains (xs ++ x ∷ []) x ≡ true
unfolding contains
contains-last x [] = ground (arith, ==_refl x)
contains-last x (y ∷ ys) = ground (arith, contains-last x ys)

contains-insert_last : (x : String) (xs : List String) → contains (insert_last x xs) x ≡ true
unfolding insert_last
contains-insert_last x xs = ground (arith, contains-last x xs)

-- A change of the reactions that succeeds.
changed :
    (f : Reactions → Reactions) (messages after : Messages) (id : String) (m : Message)
    → get messages id ≡ some m
    → change_reactions f messages id ≡ ok after
    → get after id ≡ some (record m { reactions = f m.reactions })
unfolding change_reactions
changed f messages after id m h e =
    let same : after ≡ modify (λ m. record m { reactions = f m.reactions }) id messages =
      ground arith in
    rw same (get-modify _ id messages m h)

get-last :
    {V : Type 0} (m : List (String × V)) (k : String) (v : V)
    → get m k ≡ none
    → get (m ++ (k, v) ∷ []) k ≡ some v
unfolding get
get-last [] k v h = ground (arith, ==_refl k)
get-last ((j, x) ∷ m) k v h = ground (arith, get-last m k v)

length-last : {A : Type 0} (xs : List A) (x : A) → length (xs ++ x ∷ []) ≡ suc (length xs)
length-last [] x = refl
length-last (y ∷ ys) x = ground (arith, length-last ys x)

one : (user : String) → contains (user ∷ []) user ≡ true
unfolding contains
one user = ground (arith, ==_refl user)

-- The reactions with one more: the user is among those who reacted with the emoji, and there is at
-- most one emoji more, none if somebody had used it.
with_reaction-has :
    (emoji user : String) (reactions : Reactions)
    → (users : List String) × (get (with_reaction emoji user reactions) emoji ≡ some users)
      × (contains users user ≡ true)
unfolding with_reaction
with_reaction-has emoji user reactions = elim (Option-cases (get reactions emoji)) [
  | inl first ↦ (user ∷ [], ground (arith, get-last reactions emoji (user ∷ []) first), one user)
  | inr (users, known) ↦ (
    insert_last user users,
    ground (arith, get-modify (insert_last user) emoji reactions users known),
    contains-insert_last user users,
  )
]

length-with_reaction :
    (limit : ℕ) (self : Message) (emoji user : String)
    → is_full limit self emoji ≡ false
    → length (with_reaction emoji user self.reactions) ≤ max limit (length self.reactions)
unfolding with_reaction is_full
length-with_reaction limit self emoji user h = elim (Option-cases (get self.reactions emoji)) [
  | inl first ↦
      let added : with_reaction emoji user self.reactions
          ≡ self.reactions ++ (emoji, user ∷ []) ∷ [] =
        ground arith in
      let room : leb limit (length self.reactions) ≡ false = ground arith in
      rw (added, length-last self.reactions (emoji, user ∷ [])) (ground arith)
  | inr (users, known) ↦
      let changed_one : with_reaction emoji user self.reactions
          ≡ modify (insert_last user) emoji self.reactions =
        ground arith in
      rw (changed_one, length-modify (insert_last user) emoji self.reactions) (omega arith)
]

last_of_one :
    (self : Message) (user emoji : String)
    → get self.reactions emoji ≡ some (user ∷ [])
    → is_last self user emoji ≡ ok true
unfolding is_last
last_of_one self user emoji only = ground (arith, one user)

module _ {C : Type 0} where
  added :
      (ctx : Emojis) (self : Message) (user emoji : String) (w w' : World C)
      → add_reaction ctx self user emoji w ≡ some (ok tt, w')
      → (is_full ctx.message_reactions self emoji ≡ false)
        × (can_use self.interactions emoji ≡ true)
        × (write
              (λ messages. change_reactions (with_reaction emoji user) messages self.id)
              (record w {
                events =
                    w.events
                    ++ Event.message_react self.channel self.id self.channel user emoji ∷ [];
              })
            ≡ some (ok tt, w'))
  unfolding add_reaction Store.add_reaction
  added ctx self user emoji w w' e = elim (Bool-cases (is_full ctx.message_reactions self emoji)) [
    | inl full ↦ ground arith
    | inr room ↦ elim (Bool-cases (can_use self.interactions emoji)) [
      | inr forbidden ↦ ground arith
      | inl allowed ↦ elim (Result-cases (emoji_can_use ctx emoji)) [
        | inl (_, lost) ↦ ground arith
        | inr (usable, known) ↦ elim (Bool-cases usable) [
          | inr unusable ↦ ground arith
          | inl good ↦ (room, allowed, ground arith)
        ]
      ]
    ]
  ]

  -- A reaction that succeeds, to a message as it is stored: the emoji is allowed on the message, the
  -- user is then among those who reacted with it, and the number of different emojis stays within the
  -- limit, or is what it was if that was above the limit.
  pub add_reaction_recorded :
      (ctx : Emojis) (self : Message) (user emoji : String) (w w' : World C)
      → get w.messages self.id ≡ some self
      → add_reaction ctx self user emoji w ≡ some (ok tt, w')
      → (can_use self.interactions emoji ≡ true)
        × (m : Message) × (users : List String) × (get w'.messages self.id ≡ some m)
        × (get m.reactions emoji ≡ some users)
        × (contains users user ≡ true)
        × (length m.reactions ≤ max ctx.message_reactions (length self.reactions))
  add_reaction_recorded ctx self user emoji w w' stored e =
      let f = with_reaction emoji user in
      let (room, allowed, run) = added ctx self user emoji w w' e in
      let (users, held, contained) = with_reaction-has emoji user self.reactions in
      (
        allowed,
        record self { reactions = f self.reactions },
        users,
        changed f w.messages w'.messages self.id self stored
            (written (λ messages. change_reactions f messages self.id) _ w' run),
        held,
        contained,
        length-with_reaction ctx.message_reactions self emoji user room,
      )

  -- Taking back the reaction of a user who, when the message was read, was the only one to have
  -- reacted with the emoji, takes out the emoji: also what others reacted with it since.
  pub removal_of_last_wipes :
      (self m : Message) (user emoji : String) (w w' : World C)
      → get self.reactions emoji ≡ some (user ∷ [])
      → get w.messages self.id ≡ some m
      → KeysDistinct m.reactions
      → remove_reaction self user emoji w ≡ some (ok tt, w')
      → (after : Message) × (get w'.messages self.id ≡ some after)
        × (get after.reactions emoji ≡ none)
  unfolding remove_reaction Store.clear_reaction
  removal_of_last_wipes self m user emoji w w' only stored distinct e =
      let last : is_last self user emoji ≡ ok true = last_of_one self user emoji only in
      let f = swap_remove_key emoji in
      let w1 = record w {
        events =
            w.events ++ Event.message_unreact self.channel self.id self.channel user emoji ∷ [];
      } in
      let run : write (λ messages. change_reactions f messages self.id) w1 ≡ some (ok tt, w') =
        ground arith in
      (
        record m { reactions = f m.reactions },
        changed f w1.messages w'.messages self.id m stored
            (written (λ messages. change_reactions f messages self.id) w1 w' run),
        get-swap_remove_key emoji m.reactions distinct,
      )
