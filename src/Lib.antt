-- ===== src/Lib.antt =====
-- Verification of the core logic of the chat server.
--
-- The program is a set of services (the REST API in crates/delta, the websocket server in
-- crates/bonfire, daemons and file services) over shared crates in crates/core. What decides who may
-- do what, and what a message or a request does, lies in those crates: the permission calculation
-- asks a query object, which reads the database; the REST routes guard changes with the value; users
-- relate to one another by friend requests and blocks; each request passes the rate limiter, and the
-- mentions in a message are found by the parser; every failure is an error value with an HTTP status.
--
-- Which file models what:
-- - Prelude, Bits: shared names, Boolean equality, and the bits of numbers.
-- - Errors: `ErrorType` and `Result` (crates/core/result/src/lib.rs). The place where an error was
--   made is not kept.
-- - Status: `respond_to` and `into_response` (crates/core/result/src/rocket.rs, axum.rs).
-- - Permissions/Flags: the flags and the fixed sets (crates/core/permissions/src/models/channel.rs,
--   user.rs). A `u64` is a number below 2 ^ 64.
-- - Permissions/Value: `PermissionValue`, `Override`, `OverrideField` and the guard
--   `throw_permission_override` (crates/core/permissions/src/models/mod.rs, server.rs). An `i64` is
--   an integer, its casts are written out.
-- - Permissions/Query, Permissions/Calculate: the trait `PermissionQuery` as a record of twenty
--   actions on a state, each of which may panic, and the three calculations over any such record
--   (crates/core/permissions/src/trait.rs, impl.rs). Permissions/Bitwise, Override, Sequence,
--   Ensures and Visible hold the proofs.
-- - Models: users, servers, roles, members and channels (crates/core/database/src/models), with the
--   database as a record of the five reads that the query makes.
-- - DatabaseQuery: `DatabasePermissionQuery` (crates/core/database/src/util/permissions.rs). State is
--   the record and its builder, Roles the overrides of roles and their order, Methods the twenty
--   methods and `calc_user`; Order, Highest, Users, Total, Channels and Outsiders hold the proofs. The
--   time of a calculation is a parameter: it is one reading of the clock for the whole calculation.
-- - BulkPermissions: `BulkDatabasePermissionQuery` and the calculation for many members at once
--   (crates/core/database/src/util/bulk_permissions.rs). Query is the record and its builder,
--   Calculate the calculation; View and Agreement hold the proofs, which relate it to DatabaseQuery.
-- - Messages: the creation of a message from a request, its flags, reactions and deletion
--   (crates/core/database/src/models/messages/model.rs) over the reference database
--   (models/messages/ops/reference.rs, models/files/ops/reference.rs). Model has the records
--   (crates/core/models/src/v0 for those of the API), Flags the flags, Store the database, World what
--   a handler changes and its monad, Context what it reads. `create_from_api` is Create, in the order
--   of its parts Checks (with the nonces of util/idempotency.rs), Mentions, Replies, Build and Send;
--   its mentions use Parser, DatabaseQuery and BulkPermissions. Reactions and Delete are the other
--   methods, Routes and Delete the routes (crates/delta/src/routes/channels/message_react.rs,
--   message_unreact.rs, message_delete.rs). Created, Untouched, Announced and Outcome, FlagBits,
--   MassMentions, Seen, UserMentions, ReplyLists, Reacting and Deletion hold the proofs. The lexer,
--   the cache of nonces, the test for a ULID and the length of a text are parameters; a new id is an
--   argument. What is published and queued is a list of events; the queues do not fill up.
-- - Roles: the roles of servers (crates/core/database/src/models/servers/model.rs and
--   ops/reference.rs) in Store, and in Routes the routes that create, edit, delete and order roles and
--   set their permissions (crates/delta/src/routes/servers), which use DatabaseQuery. What a route
--   does with the voice server after its change is a parameter that can only make it fail, a map of
--   roles is a list in the order in which it is iterated. ChannelStore has the overrides of roles in
--   channels (crates/core/database/src/models/channels) and the route that sets them
--   (crates/delta/src/routes/channels/permissions_set.rs). Authority, Guards, ChannelGuards,
--   Ordering, Places and Reordering hold the proofs.
-- - Users/Relations, Users/Scene: relationships in memory and in the store of the reference driver,
--   and the methods `apply_relationship`, `add_friend`, `remove_friend`, `block_user` and
--   `unblock_user` (crates/core/database/src/models/users/model.rs, ops/reference.rs). A call works
--   on a scene: both users in memory, the store, and the events that were published. Lookup, Apply,
--   Friends and Exchange hold the proofs.
-- - Ratelimits/Limiter: `Entry` and `Ratelimiter::from` (crates/core/ratelimits/src/ratelimiter.rs);
--   each reading of the clock is an input of its own, the hasher is a parameter. Step and Window hold
--   the proofs. Ratelimits/Resolver: the buckets of the REST API (crates/delta/src/util/ratelimits.rs).
-- - Presence/Redis, Presence/Sessions: sessions and the set of online users
--   (crates/core/presence/src/operations.rs, lib.rs). Redis is a record of six commands, each of
--   which may fail, with what Redis documents of them as hypotheses; the random number, the region's
--   name and the formatting of an entry are inputs. Each call runs alone: interleavings of calls of
--   two processes are not modelled. Of `filter_online` it is the variant without the patch of Redis.
--   Invariant, Removal, Leaving, Online and Region hold the proofs.
-- - Subscriptions/Queue: the queue of changes to a connection's subscriptions
--   (crates/bonfire/src/events/state.rs) and what the loop in crates/bonfire/src/websocket.rs does
--   with it, if Redis answers. The cache of active servers is a library's, and what it yields is an
--   input. Flush holds the proofs.
-- - Parser/Tokens: the iterator and the results (crates/core/parser/src/lib.rs). The lexer is
--   generated by a library, so a message is the list of its tokens. Blocks and Results hold the
--   proofs.
--
-- Bounds: the only fuel is that of the parser's iterator, one unit for each token of the message and
-- two more; that it is enough for every message is proved. All other functions are structural.
-- Numbers without a stated width do not overflow where the limits of the program hold.
--
-- Not modelled: the MongoDB driver, the message broker, voice, file storage and configuration (calls
-- of external services), the records of the public API (no logic), the services for files, embeds
-- and GIFs (calls of libraries), the cache of websocket connections, the
-- coalescing service, background tasks, edits and searches of messages, and the other routes. A `HashMap` that the code iterates is the list
-- of its entries in the order of the iteration, so the theorems hold for every such order.
pub mod Prelude
pub mod Bits
pub mod Errors
pub mod Permissions
pub mod Models
pub mod DatabaseQuery
pub mod BulkPermissions
pub mod Ratelimits
pub mod Users
pub mod Presence
pub mod Subscriptions
pub mod Parser
pub mod Status
pub mod Messages
pub mod Roles
