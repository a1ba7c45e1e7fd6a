-- ===== src/Tests/Refusals.antt =====
-- Examples with a server that has lost its connection.
use redis_smq.Prelude.{codes, some, ◌≡◌, refl}
use redis_smq.Errors.{Error, server_error}
use redis_smq.Redis.Keyspace.{Keyspace}
use redis_smq.Redis.Program.{failed, request_effect, request_reply, request_blocks}
use redis_smq.Redis.Server.{Server, run}
use redis_smq.Broker.{timeout, retry, acknowledge_message}
use redis_smq.Broker.Refused.{retry-acknowledge_message_refused}
use redis_smq.Tests.Samples.{orders, order, version, broker, processing, at_work}

abbrev no_connection : Error
no_connection = server_error (codes "ECONNREFUSED")

abbrev unreachable : Server
unreachable = record {
  Db = Keyspace;
  view = λ d. d;
  fault = λ r d. some no_connection;
  blocks = request_blocks;
  answer = request_reply;
  next = request_effect;
  blocks_documented = λ r d. refl;
  answer_documented = λ r d. refl;
  next_documented = λ r d. refl;
}

retry-acknowledge_message_refused_example :
    (run unreachable (retry broker 2000 orders processing order timeout) at_work
      ≡ (failed no_connection, at_work))
    × (run unreachable (acknowledge_message broker orders processing) at_work
        ≡ (failed no_connection, at_work))
retry-acknowledge_message_refused_example =
    retry-acknowledge_message_refused unreachable at_work no_connection (λ r. refl) broker version
      refl orders processing 2000 order timeout
