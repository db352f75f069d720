-- ===== src/Lib.antt =====
-- AgentC7: the stores and the message log of the broker.
--
-- AgentC7 lets a team of people and agents share objectives, channels and messages. The server
-- keeps them in SQLite; the core package holds what does not depend on the runtime. The parts
-- modelled here, each with its files:
--
--   Objectives   apps/server/src/objectives.ts, SqliteObjectivesStore. Table and Rows are the two
--                tables and the prepared statements, Objectives and its children Watching and
--                Reading the methods, under their names; a mutation returns what the method
--                returns or throws, with the store that it leaves.
--   Channels     apps/server/src/channels.ts, SqliteChannelStore: Slug (validateSlug), Rows (the
--                statements), Store and Membership (the methods), and of apps/server/src/app.ts
--                the route POST /channels/:slug/members, which calls the store.
--   EventLog     packages/core/src/event-log.ts, InMemoryEventLog (Memory, Matching), and
--                apps/server/src/sqlite-event-log.ts, SqliteEventLog (Sqlite).
--   Broker       packages/core/src/registry.ts (Registry) and packages/core/src/broker.ts (Registry
--                for register, subscribe and seedMembers, Push for push up to its wait for the
--                log, from there to its fan-out, and after it, Pool for boundedParallel).
--   Enrollments  apps/server/src/enrollments.ts: Store (the statements and texts), Methods (mint,
--                lookupByUserCode, approve, reject, pollByDeviceCode, listPending, purgeExpired,
--                and the two functions of apps/server/src/kek.ts that they call). The hash of a
--                device code and the cipher are parameters; where a theorem needs of the cipher
--                that it opens what it sealed, that is its hypothesis KekWorks.
--   Sessions     apps/server/src/sessions.ts: Store (the methods), Spec (what an id is bound to,
--                apart from the table, and that the store follows it).
--   Tokens       apps/server/src/tokens.ts: Store (the methods; insert takes the raw token beside
--                the fields that it shares with insertHashed), History (calls in a row). The hash
--                is a parameter.
--   Files        apps/server/src/files/filesystem-store.ts and paths.ts: Paths (the functions on
--                paths, a path being the list of its segments, the last one first), Rows (the
--                statements), Access (the permissions and the reads), Directories, Write, Remove and
--                Move (the methods, by name). writeFile is write_start and write_finish, between
--                which it waits for the blob; what the blob store answers is an argument, and who is
--                a member of an objective a parameter. PathLaws and Ancestors are about the paths,
--                Counts, Unique and Sound with its siblings about what every call keeps, History
--                about calls in a row, Protection and Removal about whose rows change.
--   Trace        packages/cli/src/runtime/trace/http1.ts (Bytes, Http1 and Body, up to
--                parseHttp1Message) and http1-reassembler.ts (Reassembler, by name). Framing and
--                Stability say what a reader of the parser relies on, as the records IsParser and
--                IsStable; Loops, Ends, Drains, Pairing, Closing, Responses, Exchanges, Cutting and
--                Chunking are about the reassembler with any parser that has them.
--   Members      apps/server/src/members.ts (Permissions: resolvePermissions), team-store.ts (Store:
--                the presets and the reads of members, a loaded member being its row with the
--                permissions; Creation: addMember), and of apps/server/src/app.ts the routes POST
--                /members and PATCH and DELETE /members/:name, which answer a status with the
--                team and the tokens after it. What the schemas accept is an argument. Admins,
--                Governed and Updating are about the administrators, Appending and Joining about
--                the new member, Deletion about the deletion of a preset.
--   Prelude      lists over the native numbers, stable ordering, texts and Boolean tests.
--
-- How the parts meet: a route calls one method of a store and broadcasts the events that it
-- returns; a message of a channel carries the channel in `data.thread`, which the log reads back;
-- the fan-out of a channel is the list of names that the channel store gives to `push` of the
-- broker, which appends to the log before it delivers; an approved enrollment hands out a token
-- that the token store then resolves.
--
-- State and statements. A table is the list of its rows in the order of ROWID. An UPDATE maps, a
-- DELETE filters, a SELECT is a filter, its ORDER BY a stable insertion sort (ties in the order of
-- ROWID), and `get` finds the first row. Primary keys and the unique index on active slugs are
-- tests at the INSERT or UPDATE that they guard. A transaction that fails leaves the tables as
-- they were. A JSON column is the value that it encodes. The clock and the random part of an id
-- are arguments of the operation. A time is a natural number.
--
-- The fan-out of the broker is a step relation on its runners: a step is what one runner does
-- between two waits, and the theorems hold for every sequence of steps, so for every order in which
-- the callbacks settle. A callback is its identity, and whether it resolves is a parameter.
--
-- Histories are lists of calls, where each call runs to its end: the methods of the stores are
-- synchronous, but for three that wait: `push` of the broker for the log, and then for its fan-out,
-- `writeFile` for the blob, and the route that changes a member for the body of the request. Each of
-- these is two operations, the second on the state of its own time. Recursion on fuel
-- is in the base-36 text of an objective's counter and the decimal text of a file's suffix, which
-- get one more round than the number, where a number has fewer digits; and in the loops of the
-- HTTP parser and the reassembler, which get as many rounds as the buffer has bytes, where each
-- round takes one off at least.
--
-- Not modelled: the schema's creation and migration, HTTP and authentication but for the routes
-- above, push notifications, the TOTP codes of members, the blobs on the disk,
-- and the packages of the command line (but for Trace) and of the web, which read what these stores
-- write.
pub mod Prelude
pub mod Objectives
pub mod Channels
pub mod EventLog
pub mod Broker
pub mod Enrollments
pub mod Sessions
pub mod Tokens
pub mod Files
pub mod Trace
pub mod Members
