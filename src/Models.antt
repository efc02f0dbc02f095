-- ===== src/Models.antt =====
-- The database's records (crates/core/database/src/models: users, servers, server_members and
-- channels, each in its model.rs). Attachments, profiles, statuses, categories and voice settings
-- are left out: no modelled operation reads them. A `HashMap` that the code iterates is a list of
-- its entries in the order of the iteration. A `Timestamp` is a number of milliseconds.
mod Relation
pub use Relation.{RelationshipStatus, Relationship}
use dawnchat_api.Prelude.{
  ℕ, suc, Bool, true, false, ◌||◌, String, Option, List, ltb, not, ◌==◌, string_eq, none, some, [],
  ◌∷◌, if◌then◌else◌,
}
use dawnchat_api.Errors.{Result, ok, err, ◌>>=◌}
use dawnchat_api.Permissions.Value.{ℤ, pos, negsuc, OverrideField}

pub record BotInformation : Type 0 where
  pub owner : String

pub record User : Type 0 where
  pub id : String
  pub username : String
  pub discriminator : String
  pub display_name : Option String
  pub relations : Option (List Relationship)
  pub privileged : Bool
  pub bot : Option BotInformation
  pub suspended_until : Option ℕ

pub record Role : Type 0 where
  pub id : String
  pub name : String
  pub permissions : OverrideField
  pub colour : Option String
  pub hoist : Bool
  pub rank : ℤ

pub record Server : Type 0 where
  pub id : String
  pub owner : String
  pub name : String
  pub description : Option String
  pub channels : List String
  pub roles : List (String × Role)
  pub default_permissions : ℤ
  pub nsfw : Bool
  pub analytics : Bool
  pub discoverable : Bool

pub record MemberCompositeKey : Type 0 where
  pub server : String
  pub user : String

pub record Member : Type 0 where
  pub id : MemberCompositeKey
  pub joined_at : ℕ
  pub nickname : Option String
  pub roles : List String
  pub timeout : Option ℕ
  pub can_publish : Bool
  pub can_receive : Bool

pub record DirectMessage : Type 0 where
  pub id : String
  pub active : Bool
  pub recipients : List String
  pub last_message_id : Option String

pub record Group : Type 0 where
  pub id : String
  pub name : String
  pub owner : String
  pub description : Option String
  pub recipients : List String
  pub last_message_id : Option String
  pub permissions : Option ℤ
  pub nsfw : Bool

pub record TextChannel : Type 0 where
  pub id : String
  pub server : String
  pub name : String
  pub description : Option String
  pub last_message_id : Option String
  pub default_permissions : Option OverrideField
  pub role_permissions : List (String × OverrideField)
  pub nsfw : Bool
  pub slowmode : Option ℕ

-- `Channel`, each variant over its fields.
pub data Channel : Type 0 where
  -- id, user
  saved_messages : String → String → Channel
  direct_message : DirectMessage → Channel
  group : Group → Channel
  text_channel : TextChannel → Channel

-- `contains` of a vector of ids.
unfoldable pub contains : List String → String → Bool
contains [] x = false
contains (y ∷ ys) x = x == y || contains ys x

-- `get` of a `HashMap` with ids as keys.
unfoldable pub get {ℓ} : {V : Type ℓ} → List (String × V) → String → Option V
get [] k = none
get ((j, v) ∷ m) k = if j == k then some v else get m k

-- `is_empty` of a vector.
abbrev pub is_empty {ℓ} : {A : Type ℓ} → List A → Bool
is_empty [] = true
is_empty (x ∷ xs) = false

-- `len` of a vector.
abbrev pub length {ℓ} : {A : Type ℓ} → List A → ℕ
length [] = 0
length (x ∷ xs) = suc (length xs)

-- `Ord` of `i64`.
abbrev pub lt_i64 : ℤ → ℤ → Bool
lt_i64 (pos a) (pos b) = ltb a b
lt_i64 (pos a) (negsuc b) = false
lt_i64 (negsuc a) (pos b) = true
lt_i64 (negsuc a) (negsuc b) = ltb b a

-- `Member::in_timeout`, at the time `now`.
unfoldable pub in_timeout : ℕ → Member → Bool
in_timeout now member = elim member.timeout [ none ↦ false | some timeout ↦ ltb now timeout ]

-- What the permission calculation reads from the database (crates/core/database/src/models/*/ops.rs).
pub record Database : Type 0 where
  pub fetch_user : String → Result User
  pub fetch_server : String → Result Server
  -- server id, user id
  pub fetch_member : String → String → Result Member
  pub fetch_mutual_server_ids : String → String → Result (List String)
  pub fetch_mutual_channel_ids : String → String → Result (List String)

-- `User::has_mutual_connection`.
unfoldable pub has_mutual_connection : Database → User → String → Result Bool
has_mutual_connection db self user_b = do
  servers ← db.fetch_mutual_server_ids self.id user_b
  if not (is_empty servers)
      then ok true
      else (do channels ← db.fetch_mutual_channel_ids self.id user_b; ok (not (is_empty channels)))
