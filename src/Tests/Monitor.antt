-- ===== src/Tests/Monitor.antt =====
-- Requests to the monitor server, and its start and stop.
use redis_smq.Prelude.{
  Text, text_eq, codes, true, false, none, some, List, [], ◌∷◌, ◌++◌, ◌≡◌, refl, arith,
}
use redis_smq.Errors.{ok, err, power_manager_error}
use redis_smq.Message.Defaults.{new_message}
use redis_smq.Keys.Names.{queue_keys}
use redis_smq.Redis.Value.{Value}
use redis_smq.Redis.Keyspace.{Keyspace, set_list, set_lock, remove_first}
use redis_smq.Redis.Program.{done}
use redis_smq.Redis.Command.{Command}
use redis_smq.Redis.Server.{result, content, run}
use redis_smq.WorkerRunner.{worker_files, ends_with}
use redis_smq.MonitorServer.Dto.{
  refused, valid, Validated, Response, GetMessagesRequest, DeleteMessageRequest, messages,
}
use redis_smq.MonitorServer.Routing.{
  Context, request_validator, action_router, error_handler, serve,
}
use redis_smq.MonitorServer.Controllers.Messages
use redis_smq.MonitorServer.Served.{answer_for, serve_lem}
use redis_smq.MonitorServer.Expected.{
  no_content, with_data, not_valid, internal_error, has_no_errors,
}
use redis_smq.MonitorServer.Handlers.{delete_dead_lettered_message_handler}
use redis_smq.MonitorServer.Deleted.{
  dead_lettered, delete_action, lock_key, delete_request-found, delete_request-elsewhere,
}
use redis_smq.MonitorServer.Listed
use redis_smq.MonitorServer.Listed.{get_action, page_for, page_request_lem}
use redis_smq.MonitorServer.Server.{
  MonitorServer, Config, config_of, Answers, listen, quit, new_monitor_server,
}
use redis_smq.MonitorServer.Lifecycle.{start_and_stop, idle, start_and_stop_lem, listen-pending}
use redis_smq.Tests.Samples.{
  server, server-IsReliable, shop, orders, worker, order, with_list, at_key, differ,
}
use redis_smq.Tests.Requests.{classes, app}

-- The message m1 at the head of the list of a queue, with a priority of 3 in strokes.
abbrev first_order : Context
first_order = record {
  params = (codes "ns", shop) ∷ (codes "queueName", orders) ∷ (codes "id", codes "m1") ∷ [];
  query = (codes "priority", codes "p|||") ∷ [];
  body = [];
}

abbrev other_order : Context
other_order = record {
  params = (codes "ns", shop) ∷ (codes "queueName", orders) ∷ (codes "id", codes "m2") ∷ [];
  query = [];
  body = [];
}

abbrev nameless : Context
nameless = record { params = []; query = []; body = [] }

abbrev dead : Text
dead = (queue_keys shop orders).key_queue_dl

abbrev one_dead : Keyspace
one_dead = with_list dead (Value.message order ∷ [])

abbrev asked : DeleteMessageRequest
asked = record { ns = shop; queue_name = orders; id = codes "m1"; sequence_id = 0 }

abbrev all_valid : Response → Validated Response
all_valid = valid

serve_lem_example :
    (result server (serve (delete_action dead_lettered classes) app first_order) one_dead
      ≡ answer_for all_valid
          (result server (delete_dead_lettered_message_handler app asked) one_dead))
    × (content server (serve (delete_action dead_lettered classes) app first_order) one_dead
        ≡ content server (delete_dead_lettered_message_handler app asked) one_dead)
unfolding text_eq
serve_lem_example =
    serve_lem server one_dead (Messages.delete_dead_lettered_message classes) app first_order
      (valid asked) all_valid (has_no_errors refl) (λ r. has_no_errors refl)

serve_invalid_run :
    run server (serve (delete_action dead_lettered classes) app nameless) one_dead
    ≡ (done (not_valid (refused (codes "ns"))), one_dead)
unfolding run serve request_validator action_router error_handler
serve_invalid_run = refl

delete_request-found_example :
    (result server (serve (delete_action dead_lettered classes) app first_order) one_dead
      ≡ done no_content)
    × (content server (serve (delete_action dead_lettered classes) app first_order) one_dead
        ≡ set_lock (lock_key dead_lettered) none (
            set_list dead
              (remove_first (Value.message order) (one_dead.lists dead))
              (set_lock (lock_key dead_lettered) (some worker) one_dead)))
unfolding text_eq new_message
delete_request-found_example =
    delete_request-found server server-IsReliable one_dead dead_lettered classes app first_order
      asked (has_no_errors refl) refl order (rw (at_key dead (Value.message order ∷ [])) refl) refl
      (has_no_errors refl)

delete_request-elsewhere_example :
    (result server (serve (delete_action dead_lettered classes) app other_order) one_dead
      ≡ done internal_error)
    × (content server (serve (delete_action dead_lettered classes) app other_order) one_dead
        ≡ set_lock
            (lock_key dead_lettered)
            none
            (set_lock (lock_key dead_lettered) (some worker) one_dead))
unfolding text_eq new_message
delete_request-elsewhere_example =
    delete_request-elsewhere server server-IsReliable one_dead dead_lettered classes app other_order
      (record { ns = shop; queue_name = orders; id = codes "m2"; sequence_id = 0 })
      (has_no_errors refl) refl (some (Value.message order))
      (rw (at_key dead (Value.message order ∷ [])) refl) (differ (codes "m1") (codes "m2") refl)

abbrev of_orders : GetMessagesRequest
of_orders = record { ns = shop; queue_name = orders; skip = none; take = none }

page_request_lem_example :
    (result server (serve (get_action Listed.dead_lettered classes) app first_order) one_dead
      ≡ done (with_data (messages (page_for of_orders (order ∷ [])))))
    × (content server (serve (get_action Listed.dead_lettered classes) app first_order) one_dead
        ≡ one_dead)
unfolding text_eq
page_request_lem_example =
    page_request_lem server server-IsReliable one_dead classes app first_order of_orders
      (has_no_errors refl) Listed.dead_lettered (order ∷ []) (omega arith)
      (at_key dead (Value.message order ∷ [])) (has_no_errors refl)

abbrev beside : Text → Text → Text
beside dir file = dir ++ codes "/" ++ file

abbrev dir : Text
dir = codes "workers"

abbrev files : List Text
files = codes "stats.worker.js" ∷ codes "stats.worker.d.ts" ∷ []

start_and_stop_lem_example :
    start_and_stop beside dir
      (config_of (some (record { enabled = true })))
      (record { api_client = ok tt; files = ok files; stats_client = ok tt })
      (idle [] 0)
    ≡ ok (idle (codes "workers/stats.worker.js" ∷ []) 1)
unfolding worker_files ends_with text_eq
start_and_stop_lem_example = start_and_stop_lem beside dir files [] 0

abbrev not_enabled : Config
not_enabled = config_of (some (record { enabled = false }))

abbrev answers : Answers
answers = record { api_client = ok tt; files = ok files; stats_client = ok tt }

abbrev refused_start : MonitorServer
refused_start = (listen beside dir not_enabled answers new_monitor_server).0

listen-pending_example :
    (listen beside dir not_enabled answers refused_start ≡ (refused_start, err power_manager_error))
    × (quit refused_start ≡ (refused_start, err power_manager_error))
listen-pending_example =
    listen-pending beside dir not_enabled not_enabled answers answers new_monitor_server refl
