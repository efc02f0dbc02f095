-- ===== src/Messages/Deletion.antt =====
-- Who deletes messages, and which messages are left.
use dawnchat_api.Prelude.{
  true, false, not, ◌&&◌, some, List, [], ◌∷◌, map, String, ◌≡◌, sym, ap, ◌∙◌, ◌⊎◌, inl, inr, arith,
  Bool-cases, Option-cases, ◌==◌, ==_iff, string_eq,
}
use dawnchat_api.Errors.{Result, ok, Result-cases}
use dawnchat_api.Permissions.Flags.{ChannelPermission}
use dawnchat_api.Permissions.Value.{
  PermissionValue, has_channel_permission, throw_if_lacking_channel_permission,
}
use dawnchat_api.Permissions.Calculate.{calculate_channel_permissions}
use dawnchat_api.Models.{User, Channel, get, contains}
use dawnchat_api.DatabaseQuery.State
use dawnchat_api.DatabaseQuery.Methods.{database_query}
use dawnchat_api.Messages.Model.{Message}
use dawnchat_api.Messages.World.{World, ◌>>◌}
use dawnchat_api.Messages.Store.{
  Messages, delete_messages, fetch_messages_by_id, delete_message, remove_key, fetch_message,
}
use dawnchat_api.Messages.Runs.{>>=-runs}
use dawnchat_api.Messages.Checks.{or_empty}
use dawnchat_api.Messages.Routes.{Routes, as_message_in_channel, permissions_in}
use dawnchat_api.Messages.Reactions.{write}
use dawnchat_api.Messages.Delete.{
  bulk_delete, ids_in, delete, check_author, delete_route, mark_attachments,
}

-- The reference database keeps a message only if it is in another channel and not named.
delete_messages-kept :
    (messages : Messages) (channel : String) (ids : List String) (k : String) (m : Message)
    → get (delete_messages messages channel ids) k ≡ some m
    → ((m.channel == channel) ≡ false) × (contains ids k ≡ false)
unfolding delete_messages get
delete_messages-kept [] channel ids k m h = ground arith
delete_messages-kept ((j, v) ∷ rest) channel ids k m h =
    elim (Bool-cases (not (v.channel == channel) && not (contains ids j))) [
      | inr dropped ↦ delete_messages-kept rest channel ids k m (ground arith)
      | inl kept ↦ elim (Bool-cases (j == k)) [
        | inl same ↦ ground (arith, ==_iff j k)
        | inr other ↦ delete_messages-kept rest channel ids k m (ground arith)
      ]
    ]

-- A bulk deletion that succeeds leaves, in the reference database, no message of the channel at all,
-- whichever messages it was asked for.
pub bulk_delete_clears_channel :
    {C : Type 0} (channel : String) (ids : List String) (w w' : World C)
    → bulk_delete channel ids w ≡ some (ok tt, w')
    → (k : String) (m : Message) → get w'.messages k ≡ some m
    → (m.channel == channel) ≡ false
unfolding bulk_delete
bulk_delete_clears_channel channel ids w w' e k m h =
    elim (Result-cases (fetch_messages_by_id w.messages ids)) [
      | inl (missing, failed) ↦ ground arith
      | inr (found, fetched) ↦
          let left : w'.messages ≡ delete_messages w.messages channel (ids_in channel found) =
            ground arith in
          (delete_messages-kept w.messages channel (ids_in channel found) k m
            (ap (λ ms. get ms k) (sym left) ∙ h)).0
    ]

-- The user's permissions in the channel include `ManageMessages`.
abbrev pub MayManage : Routes → User → String → Type 0
MayManage ctx user target =
    (channel : Channel) × (permissions : PermissionValue) × (q : State.State) × (ctx.fetch_channel
        target
      ≡ ok channel)
    × (calculate_channel_permissions (database_query ctx.database ctx.now)
          (State.with_channel (State.new user) channel)
        ≡ some (permissions, q))
    × (has_channel_permission permissions ChannelPermission.manage_messages ≡ true)

removed :
    (messages after : Messages) (id : String)
    → delete_message messages id ≡ ok after
    → after ≡ remove_key id messages
unfolding delete_message
removed messages after id e = elim (Option-cases (get messages id)) [
  | inl missing ↦ ground arith
  | inr (m, found) ↦ ground arith
]

module _ {C : Type 0} where
  found_in_channel :
      (msg target : String) (w w1 : World C) (m : Message)
      → as_message_in_channel msg target w ≡ some (ok m, w1)
      → (get w.messages msg ≡ some m) × (m.channel ≡ target) × (w1 ≡ w)
  unfolding as_message_in_channel fetch_message
  found_in_channel msg target w w1 m e = elim (Option-cases (get w.messages msg)) [
    | inl missing ↦ ground arith
    | inr (found, present) ↦ ground (arith, ==_iff found.channel target)
  ]

  marked :
      (ids : List String) (w w1 : World C)
      → mark_attachments ids w ≡ some (ok tt, w1)
      → w1.messages ≡ w.messages
  unfolding mark_attachments
  marked ids w w1 e = ground arith

  pub written :
      (f : Messages → Result Messages) (w w1 : World C)
      → write f w ≡ some (ok tt, w1)
      → f w.messages ≡ ok w1.messages
  unfolding write
  written f w w1 e = elim (Result-cases (f w.messages)) [
    | inl (_, failed) ↦ ground arith
    | inr (messages, done) ↦ ground arith
  ]

  deleted :
      (m : Message) (w w' : World C)
      → delete m w ≡ some (ok tt, w')
      → w'.messages ≡ remove_key m.id w.messages
  unfolding delete
  deleted m w w' e =
      let marks = mark_attachments (map (λ file. file.id) (or_empty m.attachments)) in
      let drop = write (λ messages. delete_message messages m.id) in
      let (_, w2, both, announced) = >>=-runs (marks >> drop) _ w tt w' e in
      let (_, w1, mark, gone) = >>=-runs marks _ w tt w2 both in
      let kept : w'.messages ≡ w2.messages = ground arith in
      let same : w1.messages ≡ w.messages = marked _ w w1 mark in
      kept
      ∙ removed w1.messages w2.messages m.id
          (written (λ messages. delete_message messages m.id) w1 w2 gone)
      ∙ ap (remove_key m.id) same

  permitted :
      (ctx : Routes) (user : User) (target : String) (m : Message) (w w1 : World C)
      → check_author ctx user target m w ≡ some (ok tt, w1)
      → ((m.author ≡ user.id) ⊎ MayManage ctx user target) × (w1 ≡ w)
  unfolding check_author permissions_in throw_if_lacking_channel_permission
  permitted ctx user target m w w1 e = elim (Bool-cases (m.author == user.id)) [
    | inl own ↦ (inl ((==_iff m.author user.id).0 own), ground arith)
    | inr other ↦ elim (Result-cases (ctx.fetch_channel target)) [
      | inl (_, lost) ↦ ground arith
      | inr (channel, found) ↦
          elim (Option-cases (
            calculate_channel_permissions (database_query ctx.database ctx.now)
              (State.with_channel (State.new user) channel))) [
                | inl stuck ↦ ground arith
                | inr ((permissions, q), done) ↦
                    elim (Bool-cases
                      (has_channel_permission permissions ChannelPermission.manage_messages)) [
                        | inl held ↦
                            (inr (channel, permissions, q, found, done, held), ground arith)
                        | inr lacking ↦ ground arith
                      ]
              ]
    ]
  ]

  -- The route deletes a message only if it was found in the given channel and the user is its author or
  -- holds `ManageMessages` there; and it takes out of the stored messages the one with its id.
  pub delete_route_allowed :
      (ctx : Routes) (user : User) (target msg : String) (w w' : World C)
      → delete_route ctx user target msg w ≡ some (ok tt, w')
      → (m : Message) × (get w.messages msg ≡ some m)
        × (m.channel ≡ target)
        × ((m.author ≡ user.id) ⊎ MayManage ctx user target)
        × (w'.messages ≡ remove_key m.id w.messages)
  unfolding delete_route
  delete_route_allowed ctx user target msg w w' e =
      let (m, w1, fetched, rest) = >>=-runs (as_message_in_channel msg target) _ w tt w' e in
      let (stored, here, same) = found_in_channel msg target w w1 m fetched in
      let (_, w2, checked, last) = >>=-runs (check_author ctx user target m) _ w1 tt w' rest in
      let (allowed, kept) = permitted ctx user target m w1 w2 checked in
      let gone : w'.messages ≡ remove_key m.id w2.messages = deleted m w2 w' last in
      let start : w2.messages ≡ w.messages = ap (λ v. v.messages) (kept ∙ same) in
      (m, stored, here, allowed, gone ∙ ap (remove_key m.id) start)
