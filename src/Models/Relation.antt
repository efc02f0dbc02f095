-- ===== src/Models/Relation.antt =====
-- The relationships of a user (crates/core/database/src/models/users/model.rs).
use dawnchat_api.Prelude.{String}

-- `RelationshipStatus` of the database crate.
pub data RelationshipStatus : Type 0 where
  none user friend outgoing incoming blocked blocked_other : RelationshipStatus

pub record Relationship : Type 0 where
  pub id : String
  pub status : RelationshipStatus
