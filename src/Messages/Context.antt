-- ===== src/Messages/Context.antt =====
-- What the creation of a message reads and does not change.
use dawnchat_api.Prelude.{ℕ, Bool, List, String}
use dawnchat_api.Models.{Database}
use dawnchat_api.BulkPermissions.Query.{BulkDatabase}
use dawnchat_api.Parser.Tokens.{Token}

-- The clock, the other collections of the database, the
-- lexer of the parser, and the configuration.
pub record Context : Type 0 where
  pub now : ℕ
  pub database : Database
  pub bulk : BulkDatabase
  pub tokens : String → List Token
  pub byte_len : String → ℕ
  pub mass_mentions_enabled : Bool
  pub message_replies : ℕ
  pub message_embeds : ℕ
