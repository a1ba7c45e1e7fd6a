-- ===== src/Tests/Threads.antt =====
-- An example of several consumers over one lock.
use redis_smq.Prelude.{
  Text, codes, text_eq, Text-discrete, Bool, true, false, none, some, List, [], ◌∷◌, ◌++◌, ◌≡◌,
  refl,
}
use redis_smq.Errors.{Result, ok}
use redis_smq.Redis.Keyspace.{empty, update}
use redis_smq.Redis.Program.{exec, request_blocks, request_reply, request_effect}
use redis_smq.PowerManager.{up}
use redis_smq.PowerManager.Ticker.{Ticker, new_ticker, next_tick, fire}
use redis_smq.WorkerRunner
use redis_smq.Keys.{namespaced_key}
use redis_smq.WorkerRunner.{WorkerRunner, new_worker_runner}
use redis_smq.ConsumerWorkers.{ConsumerWorkers, new_consumer_workers, on_tick}
use redis_smq.ConsumerWorkers.Cluster.{
  Cluster, workers_lock, runs, after, starts, ticks, Reachable, initially, step,
}
use redis_smq.ConsumerWorkers.Alone.{Reachable-one_runs}

abbrev join : Text → Text → Text
join dir file = dir ++ codes "/" ++ file

abbrev answer : Result (List Text)
answer = ok (codes "delay.worker.js" ∷ codes "index.js" ∷ [])

abbrev consumer : Bool → Ticker → WorkerRunner → ConsumerWorkers
consumer acquired t r = record {
  ticker = t;
  locker_manager = record { lock_key = workers_lock; retry_on_fail = false; acquired = acquired };
  worker_runner = r;
}

abbrev ticker : Bool → Ticker
ticker timeout = record {
  power_manager = record { state = up; pending_state = none };
  on_next = none;
  timeout = timeout;
  interval = false;
  downs = 0;
}

abbrev threads : WorkerRunner
threads = record new_worker_runner {
  power_manager = record { state = up; pending_state = none };
  workers = codes "workers/delay.worker.js" ∷ [];
}

abbrev first : Text
first = codes "a"

abbrev second : Text
second = codes "ab"

abbrev tick_of : Text → Cluster → Cluster
tick_of me g = after me g.consumers (
    exec
      (on_tick me join (codes "workers") answer (consumer false (ticker false) new_worker_runner))
      g.content)

abbrev two_consumers : Cluster
two_consumers = record {
  consumers =
      update (update (λ me. none) first (some (consumer false (ticker true) new_worker_runner)))
        second (some (consumer false (ticker true) new_worker_runner));
  content = empty;
}

abbrev both_ticked : Cluster
both_ticked = tick_of second (tick_of first two_consumers)

both_ticked-Reachable : Reachable both_ticked
unfolding new_consumer_workers new_ticker next_tick fire text_eq Text-discrete
both_ticked-Reachable =
    step
      (step
        (step
          (step (initially empty)
            (starts first (consumer false (ticker true) new_worker_runner) refl refl))
          (starts second (consumer false (ticker true) new_worker_runner) refl refl))
        (ticks first (consumer false (ticker true) new_worker_runner) (ticker false) join
          (codes "workers") answer refl refl))
      (ticks second (consumer false (ticker true) new_worker_runner) (ticker false) join
        (codes "workers") answer refl refl)

Reachable-one_runs_example :
    (both_ticked.content.locks workers_lock ≡ some first)
    × (runs (consumer false (ticker true) new_worker_runner) ≡ false)
unfolding on_tick exec text_eq request_blocks request_reply request_effect WorkerRunner.run
    namespaced_key
Reachable-one_runs_example =
    Reachable-one_runs both_ticked-Reachable first second (consumer true (ticker true) threads)
      (consumer false (ticker true) new_worker_runner) refl refl (λ p. cc p) refl
