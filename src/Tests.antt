-- ===== src/Tests.antt =====
-- Runs of the models at concrete inputs.
mod Flow
mod Priorities
mod Schedules
mod Services
mod Threads
mod Samples
mod Queues
mod Refusals
mod Workers
mod Requests
mod Monitor
mod Clients
mod Objects
