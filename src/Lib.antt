-- ===== src/Lib.antt =====
-- HyperSolid: a verification library of the trading server, that is its automation engine, its
-- stores, its access control and its HTTP routes, and of the app's order flow. The server
-- (server/src) runs strategies for its users: a scheduler wakes up, looks at the strategies in the
-- store, the marks and the book, and places or cancels orders through executors that sign for the
-- owner. Owners reach the strategies by HTTP requests with a session token, and approve an agent
-- that signs for them. A dead-man switch is armed for owners whose strategies run. The app
-- (mobile/src) places orders itself and keeps a ledger of what it meant to send.
--
-- The files, and the code that each is about:
-- - Prelude, with Prelude/Tests, Prelude/Lists, Prelude/Keys, Prelude/Assoc and Prelude/Sets:
--   Boolean tests, lists, keys, a JavaScript Map as an association list and a Set as a list of its
--   members.
-- - Number, with Number/Defs and Number/Fixed: a JavaScript number as an interface of operations,
--   with an instance on whole cents for the tests. No proof about the engine uses a law of
--   arithmetic.
-- - Strategies/Types: server/src/strategies/types.ts. Strategies/Rules: dca.ts, twap.ts, tpsl.ts,
--   trailing.ts, conditional.ts, scheduled.ts and grid.ts there, and server/src/risk/guards.ts.
--   Strategies/GridLimit: gridLimit.ts. Strategies/Store: MemoryStrategyStore in store.ts.
--   Strategies/Values and Strategies/Validate: validate.ts, and Strategies/Accepted and
--   Strategies/Encoded, over the JSON of Strategies/Json, what it lets through. Each function has
--   the name of its source in snake case.
-- - Strategies/Sqlite: SqliteStrategyStore in server/src/strategies/sqliteStore.ts. Tables has the
--   two tables and each statement on them; Updates and Refines relate a table to the map of the
--   in-memory store, Orders the table of rungs; Replay has the writes as data, Alike and Fills
--   keep the relation over each, and Refinement reads both stores.
-- - Strategies/Activity: MemoryActivityStore in server/src/strategies/activityStore.ts, with
--   proofs in Strategies/Newest.
-- - Access: server/src/auth (Token: token.ts; Sessions: auth.ts, with proofs in Challenges) and
--   server/src/agent/agentManager.ts (Agents, with proofs in Custody).
-- - Api: server/src/http/app.ts. Types has the state of the app, the requests and the replies;
--   Account the routes on sessions, agents and push; Automation those on strategies and the kill
--   switch; Handler dispatches. Keyed, Cases, Calm, Refusals, Untouched, Owned, Guarded and Switch
--   have proofs on what a request may change, and Deleted one on a deleted grid and the scheduler
--   together. Each request draws its random values from an argument, and the JSON body of a
--   request is a dictionary of the values of Strategies/Values.
-- - Scheduler: `tick` in server/src/engine/scheduler.ts. Scheduler/Context has its arguments and
--   the interfaces of server/src/agent that it calls; Scheduler/Session the state and the monad of
--   its statements; Scheduler/Entries the passes of DCA, TWAP, scheduled and conditional orders;
--   Scheduler/Stops those of stops and trailing stops; Scheduler/Grid the crossing grid;
--   Scheduler/Rungs, Scheduler/Drain and Scheduler/Resting the grid of resting orders;
--   Scheduler/Tick the whole. Scheduler/Sends is a logic for what a statement sends and
--   Scheduler/Keeps one for what it keeps; Scheduler/Allowed, RestingAllowed, Lifecycle,
--   Evolution, RestingEvolution, Settled, Reads and, for the ids of RungTags, Tagged use them on
--   each pass, and Scheduler/Safety on the whole. Scheduler/Placing is about one order and what is
--   written once it is confirmed, Scheduler/Confirmed about those writes, Scheduler/Slots about
--   the steps of DCA and TWAP strategies, and Scheduler/OneShots about those of scheduled and
--   conditional orders. Scheduler/Drained is about the end of a grid. Scheduler/Batches:
--   `cancelMany` in server/src/agent/restingExecutor.ts, whose loop runs on the number of cancels,
--   which is enough since each batch takes one at least.
-- - DeadMan: server/src/engine/deadMan.ts (Budget, Health, Heartbeat),
--   server/src/agent/deadManExecutor.ts (Heartbeat) and mobile/src/lib/deadManBudget.ts (Device),
--   with proofs in Limit, Alerts, Owners and Device.
-- - Intents: mobile/src/lib/hyperliquid/intentLedger.ts (Ledger) and the parts of
--   mobile/src/services/exchange.ts that send by it (Submit, Steps), with proofs in Settled and
--   Identity.
-- - Orders: mobile/src/lib/hyperliquid. Rules is order.ts and builderFee.ts, Assets is assetId.ts
--   and cloid.ts, Build the orders and brackets of buildOrder.ts, Actions its ladders and TWAPs
--   and cancel.ts, with proofs in Sound, Tickets and Brackets, and Status the normalized statuses of
--   order.ts. The digits of a number are a parameter.
-- - Push: server/src/push/pushQuietHours.ts (QuietHours), notifier.ts (Notifier, with proofs in
--   Counts and Gates) and receiptPoller.ts (Receipts, with proofs in Polled), and
--   server/src/strategies/notifyingStrategyStore.ts (Completed, with proofs in Once). Push/Stores:
--   pushTokenStore.ts, pushPrefStore.ts and pushQuietHoursStore.ts in server/src/push, with proofs
--   in Kept.
-- - Routing: mobile/src/lib/routing/selectRoute.ts (Route), with proofs in Separation.
-- The files called Tests hold runs on concrete data and the theorems there, on the data of
-- Scheduler/Fixtures among others.
--
-- How the code is modelled. An asynchronous function is a function from the state to an outcome
-- and a state; an outcome is a value or `thrown`, and a state that was written before an exception
-- stays written. Everything outside that the scheduler, the dead-man switch, the ledger and the
-- push services call, that is the exchange and the network, is a world of any type, and each call
-- of an interface is a function on it that the theorems do not restrict. What the remote signer
-- answers to a request for a key is an argument of that call, and so may differ from call to call.
-- The sessions keep the calls that were sent, so that what is sent can be spoken of. `tick` reads
-- the store once at its start, as the code does, and each pass works on that list; the two stores
-- of the source agree there, since a pass reads no field of a strategy after it has written it.
-- Loops run over lists or count to a number known at the start. The digest of an order id
-- (SHA-256), the minute of the day in a timezone and the JSON of a number are parameters. Times
-- are whole milliseconds where the clock alone gives them. An order id is a string that is not
-- empty. Requests that reach the server while a tick waits for an answer are not interleaved with
-- it, and the activity log does not throw.
--
-- Text that the platform makes or takes apart is a parameter: the base64url of JSON, the HMAC, the
-- split of a token, the check of a wallet's signature, `toLowerCase`.
--
-- Not modelled: the parsing of HTTP requests, the metrics and the app's configuration, the
-- migration of an old file of the SQLite store and the stores over SQLite that are not named
-- above, the signers and the code that reads the exchange's metadata and books, the parts of the
-- app that draw, the Go backend and the workers.

pub mod Prelude
pub mod Number
pub mod Access
pub mod Api
pub mod DeadMan
pub mod Intents
pub mod Orders
pub mod Push
pub mod Routing
pub mod Scheduler
pub mod Strategies
