-- ===== src/Redis.antt =====
-- The Redis server as the program uses it: values, the documented commands, programs of requests,
-- the interface of a server, and src/system/redis-client.
pub mod Value
pub mod Keyspace
pub mod Command
pub mod Program
pub mod Server
pub mod Requests
pub mod Client
pub mod Scripts
pub mod Simulation
