-- ===== src/MonitorServer/Requeued.antt =====
-- src/monitor-server: the requests that requeue an acknowledged or a dead-lettered message.
use redis_smq.Prelude.{Text, some}
use redis_smq.Message.{Message}
use redis_smq.Keys.Names.{queue_keys}
use redis_smq.Redis.Value.{Value}
use redis_smq.Redis.Keyspace.{Keyspace}
use redis_smq.Redis.Command.{Command}
use redis_smq.Redis.Program.{Program}
use redis_smq.Redis.Server.{Server}
use redis_smq.Handlers.Requeue.{requeue_list_message}
use redis_smq.MonitorServer.Dto.{Classes, RequeueMessageRequest}
use redis_smq.MonitorServer.Services
use redis_smq.MonitorServer.Services.{Application, is_given}
use redis_smq.MonitorServer.Handlers
use redis_smq.MonitorServer.Routing.{Action}
use redis_smq.MonitorServer.Controllers.Messages
use redis_smq.MonitorServer.Deleted.{Settled, acknowledged, dead_lettered, list_key}

abbrev pub requeue_action : Settled → Classes → Action
requeue_action acknowledged classes = Messages.requeue_acknowledged_message classes
requeue_action dead_lettered classes = Messages.requeue_dead_lettered_message classes

-- The list that a request is for.
abbrev pub list_for : Settled → RequeueMessageRequest → Text
list_for w dto = list_key w (queue_keys dto.ns dto.queue_name)

abbrev requeuing : Settled → Application → RequeueMessageRequest → Program (Unit {0})
requeuing w app dto =
    requeue_list_message app.namespace app.fresh app.now dto.queue_name (some dto.ns)
      (list_for w dto) dto.sequence_id dto.id (is_given dto.priority) dto.priority
