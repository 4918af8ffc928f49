-- ===== src/Lib.antt =====
-- Verification of the chat support backend: the logic of its services, modelled from the TypeScript code
-- under src/, with the theorems that make it correct.
--
-- The program. Customers have one support thread each (a conversation); agents and admins are the staff.
-- The routes and the socket gateways authenticate a request, check what it may do and call the
-- services. The services keep documents in MongoDB and, in Redis, presence, counters and a cache
-- of histories; both are shared by all server processes, and sockets are reached over an
-- adapter. The routing of conversations to agents reads presence and the agents' settings, takes
-- and gives back chat slots by counters in the agents' profiles, and is called by the chat
-- gateway, by the timers and by the admins' routes.
--
-- The files, with the code that each models:
--   Access              src/common/auth/permissions.ts
--   Errors              src/common/errors/http-error.ts
--   Documents           src/modules/*/models/*.types.ts
--   Realtime/Rooms, Realtime/Events, Realtime/Sockets   src/realtime/rooms.ts, the events that the
--                       services send and the sockets (src/realtime/socket.types.ts)
--   Realtime/Handler    src/realtime/socket-handler.ts (`onEvent`, its limiter, its errors)
--   Realtime/Handshake  src/realtime/socket-auth.middleware.ts
--   Throttle            src/common/middleware/rate-limit.ts
--   Mongo, Redis        the operations of the two stores that the code uses, as parameters
--   Server              how an asynchronous handler runs (below); Server/Triples reasons about it
--   Users/Service       src/modules/users/users.service.ts, users.mapper.ts
--   Auth/Service        src/modules/auth/auth.service.ts
--   Auth/Guards         src/common/guards
--   Chat/Side           src/modules/chat/chat-side.ts
--   Chat/Conversations, Chat/Assigning   src/modules/chat/services/conversations.service.ts: the reads
--                       and the threads of customers; the changes of agent and of status
--   Chat/Pages          src/modules/chat/chat.mapper.ts, src/common/utils/pagination.ts
--   Chat/Cache          src/modules/chat/services/message-cache.service.ts
--   Chat/Messages       src/modules/chat/services/messages.service.ts; Chat/Calls joins its calls
--   Chat/Rooms, Chat/Gateway   src/modules/chat/chat.gateway.ts: the rooms and the typing of a socket; the
--                       handlers of messages
--   Chat/Export         src/modules/chat/services/chat-export.service.ts, the CSV lines
--   Agents/Service      src/modules/agents/services/agents.service.ts, agents.mapper.ts
--   Agents/Ranking, Agents/Assignment, Agents/Moves, Agents/Rebalance
--                       src/modules/agents/services/assignment.service.ts: the order of candidates; the
--                       automatic assignment and the claim; transfer, close, requeue and the hooks;
--                       the timer that repairs
--   Agents/Requests     what may run of the routing, as one type
--   Presence/Memory     src/modules/presence/presence.store.ts, `MemoryPresenceStore`
--   Presence/Leases     the same file, `RedisPresenceStore`
--   Presence/Service    src/modules/presence/presence.service.ts, presence.gateway.ts
--   Push/Jobs, Push/Subscriptions, Push/Sender, Push/Queue, Push/Crypto
--                       src/modules/push: the documents and jobs; push-subscriptions.service.ts,
--                       web-push.sender.ts, push-queue.service.ts, push.crypto.ts
--   Metrics/Figures, Metrics/Counters, Metrics/Service   src/modules/metrics/metrics.service.ts and
--                       metrics.gateway.ts: the figures, the counters, the series and the broadcast
--   Metrics/Analytics   src/modules/metrics/analytics.service.ts
--   Tests               runs on small databases, and inputs that meet the theorems' hypotheses
-- The modules below a component are named for what they prove.
--
-- How code becomes definitions. Methods keep their names in snake case. An asynchronous method is a
-- function from a world to a result and a world: the database, the clock, what has been sent to sockets
-- and started in the background. Each awaited call of a store is one atomic access. Between two
-- accesses other requests, on this and on other servers, may run: the world holds a list of turns, one
-- for each access to come, and a turn says what the others do to the database, how much time passes and
-- whether the access fails. A theorem about all turns of a kind is one about all interleavings of a
-- handler with others of that kind. `throw` is the error of the result type; a promise that is not
-- awaited is recorded as started. What a process or the adapter keeps, the rooms of sockets, typing
-- timers and grace timers, changes in synchronous steps where the code does not await. Ids, names and hashes are numbers, dates are milliseconds, and texts
-- that the code looks into are lists of UTF-16 code units. A query is a Boolean test on documents and an
-- update a function on one.
--
-- Two components of the database are for the proofs alone, and no code reads or writes them: the slots
-- of an agent that other requests have taken and not yet settled, and the writers of a conversation
-- that have not yet moved the version of its cache on.
--
-- Parameters. MongoDB is the record `Mongo`, Redis the records `Redis` and `Commands` (the sets of the
-- presence store), bcrypt the record `Bcrypt`, BullMQ's queue the record `BullMq`, and node:crypto with
-- the platform's encodings and JSON the record `Crypto`; `IsDocumented`, `IsRedis`, `IsCommands`,
-- `IsBcrypt`, `IsBullMq` and `IsCrypto` state what their manuals promise. Mongo/Memory and
-- `Redis.local` meet the first two, the tests the others, and the tests run on these. What a push service
-- answers, what Intl makes of a time in a zone, what the session store leaves when a session is
-- destroyed, `updatedAt`, the zod schemas and the lists of sockets of one server are parameters of the
-- definitions that use them. No definition runs on fuel: every loop
-- of the code that is modelled goes through a list or down a number.
--
-- Not modelled: the wiring of express, socket.io, sessions and configuration; controllers and DTOs, which
-- pass values on; the promise chain of `autoAssign` that orders the assignments of one conversation
-- within a process, since turns allow more interleavings; keys that Redis lets run out, except as what
-- others may do; reads that the code starts together stand one after another; when BullMQ runs and
-- repeats a job; `streamAll`, the export's response stream and its JSON form, and the Prometheus text.
pub mod Prelude
pub mod Access
pub mod Errors
pub mod Documents
pub mod Realtime
pub mod Mongo
pub mod Redis
pub mod Server
pub mod Chat
pub mod Users
pub mod Presence
pub mod Metrics
pub mod Push
pub mod Auth
pub mod Agents
pub mod Throttle
pub mod Tests
