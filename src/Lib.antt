-- ===== src/Lib.antt =====
-- The backend of Gusto, a meal subscription: each user deposits money for a cycle of 30 days, is
-- offered a meal a day at the best price, and decides on it; an approved meal is ordered at Swiggy.
--
-- The parts modelled, the file of each, and how they interact. Paths are from the repository's root.
-- - Escrow: apps/escrow-service/src/modules/wallet and modules/rollover. `WalletService` and
--   `RolloverService` act on the `subscriptions` table: `deposit`, `debit`, `tick`, `reserve`,
--   `capture_reservation` (captureReservation), `release_reservation` (releaseReservation),
--   `redistribute`, and the two consumers of apps/escrow-service/src/events/consumers. Escrow/Api has
--   the routes of wallet.controller.ts: `serve` answers a request. Escrow/Spec is the account that
--   the order flow relies on.
-- - Hacker: apps/coupon-optimization-service/src/modules/hacker. Hacker/Types has the contracts of
--   packages/contracts/src/dto; Hacker/Filler and Hacker/Algorithm are hacker.algorithm.ts,
--   Hacker/Mapping the two mappers of mapping/, Hacker/Service is hacker.service.ts. Hacker/Sorting
--   is the stable sort of the language.
-- - Orders: apps/order-execution-service/src/modules. `OrderService` and `ConfirmationGateService` act
--   on the `orders` table and call the wallets of Escrow through `wallet_call` (EscrowClient), whose
--   call or answer may be lost. Orders/Api has the routes of order.controller.ts.
-- - Workflow: apps/orchestrator-service/src/modules/workflow and modules/decision. Workflow/Phase is
--   workflow.state-machine.ts, Workflow/Selection is selectNextCandidate and the menu it reads,
--   Workflow/Service the handlers of workflow.service.ts, Workflow/Api the routes. Workflow/Machine is
--   the day of one user as a step relation on the row. Workflow/Machine/Phases is what each
--   request does to the stored phase.
-- - Scheduler: apps/scheduler-service/src/modules/cron/cohort-scheduler.ts: `dispatch_due_cohorts` is
--   one cron run over the `schedule_config` table, Scheduler/Config the route of modules/schedule-config;
--   Scheduler/Due has what one run sends, Scheduler/Daily the runs of a day.
-- - Gateway: apps/mcp-gateway-service/src/modules. Gateway/Redis has the data, cache.service.ts
--   and token-provider.service.ts; `call_tool` is callTool of food-mcp.client.ts, `try_tool` its loop.
--   Gateway/Limiter is rate-limiter.middleware.ts. The orders and the optimizer reach Swiggy through
--   it, by answers that are their inputs.
-- - Auth: apps/auth-service/src/modules. oauth.service.ts over the sessions and users; Auth/Vault is
--   token-vault.service.ts, Auth/Guard the session tokens of packages/auth-middleware and
--   jwt-issuer.service.ts with jwt-auth.guard.ts of apps/api-gateway, Auth/Api the routes, Auth/Proxy
--   the routes of apps/api-gateway/src/routing in front of them.
-- - Notification: apps/notification-service/src/modules/dispatch and modules/contact-preference, with
--   the consumers of src/events in Notification/Consumers. Orders and Workflow ask it to notify.
-- - EventBus: EventSubscriber of packages/event-bus/src/subscriber.ts: `process_message` is
--   processMessage, `subscriber_step` a call of on or stop or a round of poll. The consumers of Escrow
--   (Escrow/Consumers) and Notification are its handlers.
-- - Common: shared names, integers over the native numbers, tables, results of handlers. Examples: the
--   theorems at concrete data.
--
-- A handler is a function from a state to a result and a state; what was written before an exception
-- stays written. A database transaction or a request is one step. What other services, the network,
-- the clock and `randomUUID` answer are inputs. Amounts are whole paise; the message texts of
-- exceptions are left out, their status is kept.
--
-- Bounds: the two-pointer scan has as many turns of fuel as there are candidates, and each turn
-- brings its two indices one closer; a tool call is posted at most 5 times; a request reads at most
-- 6 menu pages; a cycle has 30 days.
-- `new Date(text)`, `localeCompare`, `toUpperCase`, SHA-256, JSON texts, base64, AES, jsonwebtoken
-- and Redis' SCAN are parameters.
--
-- Not modelled: the unique index on `swiggyOrderRef` (the references of Swiggy are taken to be
-- distinct); the four bytes of the Prisma Int columns, as amounts are not bounded; which of several failures of the three parallel calls of runScoutPhase is thrown; cycle
-- dates, as a table of one date is modelled; the publisher of the event bus, a call of the AWS SDK, and
-- the configuration of the SDK's clients; the Python ai-agent-service, whose ranking is an input; a
-- Redis that is down, but for the tool calls; configuration, logging and deployment.
pub mod Common
pub mod EventBus
pub mod Escrow
pub mod Auth
pub mod Gateway
pub mod Hacker
pub mod Notification
pub mod Orders
pub mod Workflow
pub mod Scheduler
pub mod Examples
