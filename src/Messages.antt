-- ===== src/Messages.antt =====
-- Messages (crates/core/database/src/models/messages): what a message is, how it is created from a
-- request, and its reactions.
pub mod Model
pub mod Flags
pub mod World
pub mod Store
pub mod Runs
pub mod Checks
pub mod Context
pub mod Mentions
pub mod Replies
pub mod Build
pub mod Send
pub mod Create
pub mod Created
pub mod FlagBits
pub mod MassMentions
pub mod Seen
pub mod UserMentions
pub mod Untouched
pub mod Announced
pub mod Outcome
pub mod ReplyLists
pub mod Reactions
pub mod Routes
pub mod Delete
pub mod Deletion
pub mod Reacting
mod Sample
mod Tests
