-- ===== src/ConsumerWorkers/Cluster.antt =====
-- src/system/consumer/consumer-workers.ts: several consumers over one database. A tick or an end of one
-- consumer is one step: it sends one request. No lease of the lock runs out.
use redis_smq.Prelude.{Text, Bool, Option, none, some, List, ◌≡◌}
use redis_smq.Errors.{Result, ok}
use redis_smq.Redis.Keyspace.{Keyspace, update}
use redis_smq.Redis.Program.{Outcome, done, failed, waiting, exec}
use redis_smq.Keys.Names.{get_global_keys}
use redis_smq.PowerManager.{is_running}
use redis_smq.PowerManager.Ticker.{Ticker, on_tick_fn, fire}
use redis_smq.WorkerRunner.{new_worker_runner}
use redis_smq.ConsumerWorkers.{ConsumerWorkers, new_consumer_workers, on_tick, quit_workers}

-- The consumers by the random values under which they take the lock.
pub record Cluster : Type 0 where
  pub consumers : Text → Option ConsumerWorkers
  pub content : Keyspace

abbrev pub workers_lock : Text
workers_lock = get_global_keys.key_lock_consumer_workers_runner

-- Whether the threads of a consumer run.
abbrev pub runs : ConsumerWorkers → Bool
runs c = is_running c.worker_runner.power_manager

-- A consumer whose tick fails ends with its exception.
abbrev pub survivor : Outcome ConsumerWorkers → Option ConsumerWorkers
survivor (done c) = some c
survivor (failed e) = none
survivor waiting = none

abbrev pub after :
    Text → (Text → Option ConsumerWorkers) → Outcome ConsumerWorkers × Keyspace → Cluster
after me consumers x = record { consumers = update consumers me (survivor x.0); content = x.1 }

abbrev pub gone :
    Text → (Text → Option ConsumerWorkers) → Outcome ConsumerWorkers × Keyspace → Cluster
gone me consumers x = record { consumers = update consumers me none; content = x.1 }

-- One consumer starts, its timer fires, or it quits, or someone else changes the database and leaves the lock alone.
pub data Step (g : Cluster) : Cluster → Type 0 where
  starts :
      (me : Text) (c : ConsumerWorkers)
      → g.consumers me ≡ none
      → new_consumer_workers new_worker_runner ≡ ok c
      → Step g (record g { consumers = update g.consumers me (some c) })
  ticks :
      (me : Text) (c : ConsumerWorkers) (t : Ticker) (join : Text → Text → Text) (dir : Text)
      (answer : Result (List Text))
      → g.consumers me ≡ some c
      → fire c.ticker ≡ (t, some on_tick_fn)
      → Step g (
          after me g.consumers
            (exec (on_tick me join dir answer (record c { ticker = t })) g.content))
  quits :
      (me : Text) (c : ConsumerWorkers)
      → g.consumers me ≡ some c
      → Step g (gone me g.consumers (exec (quit_workers me c) g.content))
  changes :
      (s : Keyspace)
      → s.locks workers_lock ≡ g.content.locks workers_lock
      → Step g (record g { content = s })

-- What comes of a database with no consumers.
pub data Reachable : Cluster → Type 0 where
  initially : (s : Keyspace) → Reachable (record { consumers = λ me. none; content = s })
  step : {g g' : Cluster} → Reachable g → Step g g' → Reachable g'
