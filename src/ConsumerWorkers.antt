-- ===== src/ConsumerWorkers.antt =====
-- src/system/consumer/consumer-workers.ts: the consumer that holds the lock runs the workers' threads.
pub mod Cluster
pub mod Ticks
pub mod Quits
pub mod Alone
use redis_smq.Prelude.{Text, Bool, false, not, ◌&&◌, List, length, if◌then◌else◌}
use redis_smq.Errors.{Result, ok, err, ◌>>=◌}
use redis_smq.Keys.Names.{get_global_keys}
use redis_smq.Redis.Program
use redis_smq.Redis.Program.{Program, pure, raise, lift}
use redis_smq.PowerManager.{is_running}
use redis_smq.PowerManager.Ticker.{Ticker, new_ticker, next_tick, quit}
use redis_smq.LockManager.{LockManager, new_lock_manager, acquire_lock, release_lock}
use redis_smq.WorkerRunner
use redis_smq.WorkerRunner.{WorkerRunner, shutdown}
use redis_smq.WorkerRunner.Shutdown.{exits}

pub record ConsumerWorkers : Type 0 where
  pub ticker : Ticker
  pub locker_manager : LockManager
  pub worker_runner : WorkerRunner

-- The constructor; the thread runner is one that is given.
unfoldable pub new_consumer_workers : WorkerRunner → Result ConsumerWorkers
unfolding new_ticker next_tick
new_consumer_workers runner = do
  t ← new_ticker
  t' ← next_tick t
  ok (record {
    ticker = t';
    locker_manager = new_lock_manager get_global_keys.key_lock_consumer_workers_runner false;
    worker_runner = runner;
  })

unfoldable pub ticked : ConsumerWorkers → Result ConsumerWorkers
unfolding next_tick
ticked c = do t ← next_tick c.ticker; ok (record c { ticker = t })

-- The callback of `run`: an error is emitted, and there is no next tick.
abbrev pub after_run : ConsumerWorkers → WorkerRunner × Result (Unit {0}) → Program ConsumerWorkers
after_run c (r, err e) = raise e
after_run c (r, ok u) = lift (ticked (record c { worker_runner = r }))

-- The callback of `acquireLock`. `answer` is what the directory of the workers holds.
abbrev when_locked :
    (Text → Text → Text)
    → Text
    → Result (List Text)
    → ConsumerWorkers
    → LockManager × Bool
    → Program ConsumerWorkers
when_locked join dir answer c (lm, locked) =
    let c' = record c { locker_manager = lm } in
    if locked && not (is_running c.worker_runner.power_manager)
    then Program.◌>>=◌ (lift (WorkerRunner.run join dir answer c.worker_runner)) (after_run c')
    else lift (ticked c')

-- `onTick`: an error of the lock is emitted, and there is no next tick.
unfoldable pub on_tick :
    Text
    → (Text → Text → Text)
    → Text
    → Result (List Text)
    → ConsumerWorkers
    → Program ConsumerWorkers
unfolding ticked acquire_lock is_running
on_tick me join dir answer c =
    Program.◌>>=◌ (acquire_lock 0 me c.locker_manager) (when_locked join dir answer c)

-- `stopTicker` and `shutdownWorkers`; each thread exits when it is sent SIGHUP.
unfoldable pub stopped : ConsumerWorkers → Result ConsumerWorkers
unfolding quit shutdown exits
stopped c = do
  t ← quit c.ticker
  r ← shutdown c.worker_runner
  r' ← exits (length c.worker_runner.workers) r
  ok (record c { ticker = t; worker_runner = r' })

-- `quit`: the ticker, the threads, and the lock.
unfoldable pub quit_workers : Text → ConsumerWorkers → Program ConsumerWorkers
unfolding stopped release_lock
quit_workers me c = Program.◌>>=◌ (lift (stopped c)) λ c'.
    Program.◌>>=◌ (release_lock me c'.locker_manager) λ lm. pure (record c' { locker_manager = lm })
