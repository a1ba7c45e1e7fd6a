-- ===== src/Lib.antt =====
-- A model of RedisSMQ, a message queue of producers and consumers over Redis (src/system).
--
-- A producer gives messages to the broker, which enqueues them or schedules them; a consumer dequeues
-- a message into its own processing queue, gives it to the user's function, and lets the broker
-- acknowledge it or try it again. Workers beside the consumers bring delayed, scheduled and requeued
-- messages back and collect the processing queues of consumers that are gone. All shared state is in
-- Redis.
--
-- Which file models what:
--   Message: src/system/message.ts, the message, its setters, its defaults (Defaults), what holds of
--     every message (Valid).
--   Keys: src/system/common/redis-keys/redis-keys.ts, the names of the keys (Names), reading them back
--     (Parse, Extract), and that they do not collide (Distinct).
--   Redis: the stored values (Value), the content of a database (Keyspace), the commands (Command), the
--     scripts of src/system/redis-client/lua (Scripts), code as the requests it sends (Program,
--     Requests), the
--     server as a parameter (Server), and src/system/redis-client/redis-client.ts (Client).
--   LockManager: src/system/common/lock-manager/lock-manager.ts over Redlock.
--   Handlers: src/system/message-manager, a module for each handler; Common is common.ts and Manager is
--     message-manager.ts; getNextScheduledTimestamp is in Timestamp.
--   PowerManager: src/system/common/power-manager, and in Ticker src/system/common/ticker.
--   Broker: src/system/broker.ts.
--   QueueManager: src/system/queue-manager/queue-manager.ts.
--   Heartbeat: src/system/consumer/heartbeat.ts.
--   Workers: src/system/workers, one tick of each worker.
--   Consumer: src/system/consumer/consumer.ts, what is done with a received message, and in Rate
--     consumer-message-rate.ts.
--     Consumer/Cycle is the cycle from message to message.
--   ConsumerWorkers: src/system/consumer/consumer-workers.ts, and in Cluster several consumers over one
--     lock, with one tick (Ticks), the end (Quits), and what holds of them together (Alone).
--   Producer: src/system/producer/producer.ts.
--   Base: src/system/base.ts, the start and the shutdown of producers and consumers, the tasks of the
--     consumer included.
--   MessageFlow: the broker's operations on one queue against an abstract queue: the places of a message
--     (Places), one operation (Steps), any operations (Refine), counting (Counts, Conserved), a
--     consumer that runs (Drain), what the ticks of the workers do to it (Workers), and a message
--     that comes back by them (Redelivered).
--   PriorityFlow: the same for a queue with priorities: what is stored (Stored), one operation (Steps),
--     any operations (Refine), and the order of delivery (Order).
--   MessageRate: src/system/message-rate.ts, the publishing of the rates.
--   WorkerRunner: src/system/common/worker-runner/worker-runner.ts.
--   Frontends: message-manager-frontend.ts and queue-manager-frontend.ts.
--   StatsWorker: src/monitor-server/workers/stats.worker.ts, one tick (Tick), sizes (Sizes, Measured).
--   MonitorServer: src/monitor-server, an HTTP interface to the managers: the classes of requests (Dto),
--     the services (Services), routes and middlewares (Routing), handlers and controllers (Handlers,
--     Controllers), what a request is answered (Served, Answers) and does (Deleted, Requeued and
--     Moves, Listed), the responses and verdicts to expect (Expected),
--     and the start and the stop (Server, Lifecycle).
--   Errors and Prelude are shared by all; Tests holds runs at concrete inputs.
--
-- How the code is modelled. A method that calls back is a Program: the requests that it sends, and what
-- it does with each answer; callbacks are continuations, and an error that is thrown or passed on ends
-- the program. Functions without Redis are plain functions. A Server is any database that can be
-- observed as a Keyspace and whose commands, transactions and scripts do what Redis documents, unless it
-- refuses the request and changes nothing; a reliable one refuses none. Texts are lists of character
-- codes. JSON texts are represented by the objects that they are made from. Times, counts and scores are
-- natural numbers in milliseconds. The clock, fresh ids, the CRON parser, toLowerCase, and what
-- the packages of the HTTP server do by the decorators of a class are arguments.
--
-- Bounds: the polls of a priority queue and the retries of a lock that is waited for are counted by an
-- argument; at 0 the call has not returned. The rounds of a consumer are counted likewise, and more
-- rounds than there are messages are enough. Everything else is structural.
--
-- Not modelled: connections and the loading of scripts, events that nobody in the library listens to,
-- log lines, the processes of the workers, the frontends of consumer and producer, which only pass calls
-- on, usage figures of heartbeats, and of src/monitor-server the matching of a path to its route, the
-- set-up of koa and of socket.io and what is sent to the sockets. The package async is used in two
-- ways: waterfall is a parameter in Base, and in the methods that send requests its steps are the
-- sequence of the program. Tasks of async.each and async.parallel are taken one after the other in
-- their order.
pub mod Prelude
pub mod Errors
pub mod Message
pub mod MessageFlow
pub mod PriorityFlow
pub mod Keys
pub mod Redis
pub mod LockManager
pub mod Handlers
pub mod PowerManager
pub mod Base
pub mod WorkerRunner
pub mod Broker
pub mod QueueManager
pub mod Frontends
pub mod Heartbeat
pub mod Workers
pub mod Consumer
pub mod ConsumerWorkers
pub mod Producer
pub mod StatsWorker
pub mod MessageRate
pub mod MonitorServer
pub mod Tests
