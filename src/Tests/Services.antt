-- ===== src/Tests/Services.antt =====
-- Examples of the life cycles, of the threads and of the statistics.
use redis_smq.Prelude.{codes, true, none, [], ◌∷◌, ◌≡◌, refl, arith}
use redis_smq.Errors.{ok, err, server_error, panic_error}
use redis_smq.Message.{MessageQueue}
use redis_smq.Redis.Keyspace.{empty}
use redis_smq.Redis.Program.{done, ◌>>◌}
use redis_smq.Redis.Server.{result, content}
use redis_smq.PowerManager.{up, down, is_running}
use redis_smq.Base.{Instance, new_instance, Waterfall, Answers, Kind}
use redis_smq.Base.Run.{run, shutdown, emit_up}
use redis_smq.Base.Tasks.{in_turn}
use redis_smq.Base.Lifecycle.{run-shutdown}
use redis_smq.WorkerRunner
use redis_smq.WorkerRunner.{WorkerRunner}
use redis_smq.WorkerRunner.Shutdown.{shutdown-exits, exits}
use redis_smq.StatsWorker.{no_stats}
use redis_smq.StatsWorker.Tick.{get_rates, get_queue_size}
use redis_smq.StatsWorker.Measured.{get_queue_size-IsMeasured, IsMeasured}
use redis_smq.StatsWorker
use redis_smq.Consumer.Rate.{new_message_rate, get_rate_fields, increment, processing}
use redis_smq.MessageRate.{on_tick}
use redis_smq.MessageRate.Published.{on_tick-get_rates, with_rates}
use redis_smq.Tests.Samples.{
  server, server-IsReliable, shop, orders, worker, names_ok, orders_queue, at_work,
}

-- `waterfall` as a function.
abbrev waterfall : Waterfall
waterfall = record {
  waterfall = in_turn;
  waterfall_nil = λ i. refl;
  waterfall_finished = λ t ts i i' e. rw e refl;
  waterfall_failed = λ t ts i i' x e. rw e refl;
  waterfall_thrown = λ t ts i i' x e. rw e refl;
  waterfall_never = λ t ts i i' e. rw e refl;
}

-- The second client of a consumer cannot be had.
abbrev no_client : Answers
no_client = record {
  shared_client = ok true;
  message_queue = ok tt;
  consumer_client = err (server_error (codes "ECONNREFUSED"));
  heartbeat_client = ok true;
  processing_queue = ok tt;
}

abbrev monitored_consumer : Kind
monitored_consumer = record { is_consumer = true; monitor_enabled = true }

run-shutdown_example :
    (i : Instance) × (emit_up waterfall monitored_consumer no_client new_instance ≡ ok i)
    × (run waterfall monitored_consumer no_client new_instance ≡ err panic_error)
    × (is_running i.power_manager ≡ true)
    × (i.ups ≡ 1)
    × (shutdown waterfall monitored_consumer i ≡ ok (record new_instance { ups = 1; downs = 1 }))
run-shutdown_example = run-shutdown waterfall true true no_client

abbrev two_threads : WorkerRunner
two_threads = record {
  power_manager = record { state = up; pending_state = none };
  workers = codes "delay.worker.js" ∷ codes "gc.worker.js" ∷ [];
  awaited = none;
  killed = [];
  callbacks = 0;
}

shutdown-exits_example :
    (s : WorkerRunner) × (WorkerRunner.shutdown two_threads ≡ ok s)
    × (exits 2 s
        ≡ ok (record {
          power_manager = record { state = down; pending_state = none };
          workers = [];
          awaited = none;
          killed = codes "gc.worker.js" ∷ codes "delay.worker.js" ∷ [];
          callbacks = 1;
        }))
shutdown-exits_example = shutdown-exits two_threads refl

abbrev bills_queue : MessageQueue
bills_queue = record { name = codes "bills"; ns = shop }

get_queue_size-IsMeasured_example :
    (content server (get_queue_size (bills_queue ∷ orders_queue ∷ []) no_stats) at_work ≡ at_work)
    × (stats' : StatsWorker.Stats) × (result server
          (get_queue_size (bills_queue ∷ orders_queue ∷ []) no_stats)
          at_work
        ≡ done stats')
    × IsMeasured at_work shop orders stats'.queues
get_queue_size-IsMeasured_example =
    get_queue_size-IsMeasured server server-IsReliable at_work (bills_queue ∷ []) [] orders_queue
      no_stats (omega arith, omega arith, (omega arith, omega arith, tt))

on_tick-get_rates_example :
    result server
      (on_tick shop orders worker 2000 (increment processing 7 new_message_rate)
        >> get_rates 2400 no_stats)
      empty
    ≡ done
        (with_rates shop orders worker (get_rate_fields (increment processing 7 new_message_rate)))
on_tick-get_rates_example =
    on_tick-get_rates shop orders b'c' (codes "1") names_ok 2000 2400 server server-IsReliable empty
      (increment processing 7 new_message_rate) (omega arith) refl
