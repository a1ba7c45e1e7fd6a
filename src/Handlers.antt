-- ===== src/Handlers.antt =====
-- src/system/message-manager: the handlers, each method a program over Redis. The module variable
-- `namespace` of redis-keys.ts, the time `now` and the object `fresh` that `new Message()` makes
-- where a stored message is read are arguments.
pub mod Common
pub mod Enqueue
pub mod Processing
pub mod Dequeue
pub mod Timestamp
pub mod Schedule
pub mod Delay
pub mod Requeue
pub mod Manager
