-- ===== src/WorkerRunner.antt =====
-- src/system/common/worker-runner/worker-runner.ts: the threads of the workers, by their paths.
-- A thread's `error` event and what is done when the process exits are left out.
pub mod Shutdown
use redis_smq.Prelude.{
  Text, codes, text_eq, ℕ, ◌+◌, Bool, true, false, ◌||◌, Option, none, some, List, [], ◌∷◌, ◌++◌,
  map, split_last, if◌then◌else◌,
}
use redis_smq.Errors.{Error, Result, ok, err, worker_runner_error, ◌>>=◌}
use redis_smq.PowerManager.{
  PowerManager, new_power_manager, is_going_up, is_running, going_up, going_down, commit,
}

pub record WorkerRunner : Type 0 where
  pub power_manager : PowerManager
  pub workers : List Text
  -- the thread whose exit the shutdown waits for, and the threads that were sent SIGHUP
  pub awaited : Option Text
  pub killed : List Text
  -- how often the callback of `shutdown` was called
  pub callbacks : ℕ

abbrev pub new_worker_runner : WorkerRunner
new_worker_runner = record {
  power_manager = new_power_manager;
  workers = [];
  awaited = none;
  killed = [];
  callbacks = 0;
}

unfoldable pub ends_with : Text → Text → Bool
ends_with suffix [] = text_eq [] suffix
ends_with suffix (c ∷ s) = text_eq (c ∷ s) suffix || ends_with suffix s

-- `.filter((i) => i.match(/\.worker\.js$/))`
unfoldable pub worker_files : List Text → List Text
unfolding ends_with
worker_files [] = []
worker_files (i ∷ is) =
    let rest = worker_files is in if ends_with (codes ".worker.js") i then i ∷ rest else rest

-- `run`, by what `readdir` answers; `join` is that of path. The result is what the callback is given.
unfoldable pub run :
    (Text → Text → Text)
    → Text
    → Result (List Text)
    → WorkerRunner
    → Result (WorkerRunner × Result (Unit {0}))
unfolding going_up commit worker_files
run join dir answer r = do
  p ← going_up r.power_manager
  elim answer [
    | err e ↦ ok (record r { power_manager = p }, err e)
    | ok reply ↦ do
      q ← commit p
      ok (
        record r { power_manager = q; workers = r.workers ++ map (join dir) (worker_files reply) },
        ok tt,
      )
  ]

-- `shutdownFn`, by what `this.workers.pop()` takes.
abbrev pub shutdown_next : Option (List Text × Text) → WorkerRunner → Result WorkerRunner
shutdown_next (some (rest, worker)) r =
    ok (record r { workers = rest; awaited = some worker; killed = r.killed ++ worker ∷ [] })
shutdown_next none r = do
  p ← commit r.power_manager
  ok (record r { power_manager = p; awaited = none; callbacks = r.callbacks + 1 })

unfoldable pub shutdown_fn : WorkerRunner → Result WorkerRunner
unfolding commit
shutdown_fn r = shutdown_next (split_last r.workers) r

unfoldable pub shutdown : WorkerRunner → Result WorkerRunner
unfolding is_running going_down shutdown_fn
shutdown r =
    if is_running r.power_manager
    then (do p ← going_down r.power_manager; shutdown_fn (record r { power_manager = p }))
    else ok (record r { callbacks = r.callbacks + 1 })

abbrev if_awaited : Text → WorkerRunner → Option Text → Result WorkerRunner
if_awaited worker r none = ok r
if_awaited worker r (some w) = if text_eq w worker then shutdown_fn r else ok r

-- A thread exits: that is an error while the runner goes up or is running; the one that the shutdown
-- waits for lets it go on.
unfoldable pub on_exit : Text → WorkerRunner → Result WorkerRunner
unfolding is_going_up is_running shutdown_fn
on_exit worker r =
    if is_going_up r.power_manager || is_running r.power_manager
    then err worker_runner_error
    else if_awaited worker r r.awaited
