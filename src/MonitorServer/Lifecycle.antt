-- ===== src/MonitorServer/Lifecycle.antt =====
-- src/monitor-server/index.ts: the server is started and stopped.
use redis_smq.Prelude.{
  Text, ℕ, ◌+◌, true, false, none, some, List, [], ◌++◌, map, length, ◌≡◌, refl, ap, ◌∙◌,
}
use redis_smq.Errors.{Result, ok, err, power_manager_error, ◌>>=◌}
use redis_smq.PowerManager.{
  PowerManager, new_power_manager, up, down, going_up, going_down, switch_state, commit,
}
use redis_smq.WorkerRunner.{WorkerRunner, worker_files}
use redis_smq.WorkerRunner
use redis_smq.WorkerRunner.Shutdown.{exits, last_first, shutdown-exits}
use redis_smq.MonitorServer.Server.{
  Config, config_of, bootstrap, MonitorServer, Answers, Settled, on_workers, on_bootstrap,
  on_going_up, listen, on_listening, quit, shutdown_workers, after_shutdown,
}

-- A promise, with its error as that of the whole.
abbrev of_promise : Settled → Result MonitorServer
of_promise (m, ok u) = ok m
of_promise (m, err e) = err e

-- A start, and then a stop in which every thread that is waited for exits.
unfoldable pub start_and_stop :
    (Text → Text → Text) → Text → Config → Answers → MonitorServer → Result MonitorServer
unfolding listen on_listening quit shutdown_workers exits after_shutdown
start_and_stop join dir config answers m = do
  started ← of_promise (listen join dir config answers m)
  running ← on_listening started
  stopping ← of_promise (quit running)
  waiting ← shutdown_workers stopping
  r ← exits (length stopping.worker_runner.workers) waiting.worker_runner
  after_shutdown (record waiting { worker_runner = r })

-- A server that is not running, after some threads were killed and some shutdowns of them were done.
abbrev pub idle : List Text → ℕ → MonitorServer
idle killed callbacks = record {
  power_manager = new_power_manager;
  worker_runner = record {
    power_manager = new_power_manager;
    workers = [];
    awaited = none;
    killed = killed;
    callbacks = callbacks;
  };
  subscribe_client = false;
  api_server = false;
  listening = false;
}

abbrev running_workers : List Text → List Text → ℕ → WorkerRunner
running_workers workers killed callbacks = record {
  power_manager = record { state = up; pending_state = none };
  workers = workers;
  awaited = none;
  killed = killed;
  callbacks = callbacks;
}

abbrev end_of_stop : WorkerRunner → MonitorServer
end_of_stop r = record {
  power_manager = record { state = up; pending_state = some down };
  worker_runner = r;
  subscribe_client = true;
  api_server = true;
  listening = false;
}

module _ (join : Text → Text → Text) (dir : Text) (names : List Text) where
  abbrev workers_of : List Text
  workers_of = map (join dir) (worker_files names)

  abbrev enabled : Config
  enabled = config_of (some (record { enabled = true }))

  abbrev all_well : Answers
  all_well = record { api_client = ok tt; files = ok names; stats_client = ok tt }

  -- A server that is not running and whose monitor is enabled, where the clients and the files of the
  -- workers are there: it is started, accepts requests, and is stopped, without an error; each thread
  -- that was started for a worker's file is sent SIGHUP, the last one first, and in the end the
  -- server is as it was before the start, so that it can be started again.
  pub start_and_stop_lem :
      (killed : List Text) (callbacks : ℕ)
      → start_and_stop join dir enabled all_well (idle killed callbacks)
        ≡ ok (idle (killed ++ last_first workers_of) (callbacks + 1))
  unfolding start_and_stop listen on_listening quit shutdown_workers after_shutdown bootstrap
      WorkerRunner.run going_up going_down switch_state commit
  start_and_stop_lem killed callbacks =
      let (s, accepted, ended) =
        shutdown-exits (running_workers workers_of killed callbacks) refl in
      ap
        (λ x. x >>= (λ w. ok (end_of_stop w)) >>= λ waiting.
          exits (length workers_of) waiting.worker_runner >>= λ r.
          after_shutdown (record waiting { worker_runner = r }))
        accepted
      ∙ ap (λ x. x >>= λ r. after_shutdown (record (end_of_stop s) { worker_runner = r })) ended

module _ (join : Text → Text → Text) (dir : Text) where
  abbrev pending_up : PowerManager
  pending_up = record { state = down; pending_state = some up }

  refused :
      (config : Config) (answers : Answers) (m : MonitorServer)
      → m.power_manager ≡ pending_up
      → (listen join dir config answers m ≡ (m, err power_manager_error))
        × (quit m ≡ (m, err power_manager_error))
  unfolding listen quit going_up going_down switch_state
  refused config answers m e = (rw e refl, rw e refl)

  on_workers-power_manager :
      (client : Result (Unit {0})) (m : MonitorServer)
      (o : Result (WorkerRunner × Result (Unit {0})))
      → (on_workers client m o).0.power_manager ≡ m.power_manager
  on_workers-power_manager client m (err e) = refl
  on_workers-power_manager client m (ok (r, err e)) = refl
  on_workers-power_manager (err e) m (ok (r, ok u)) = refl
  on_workers-power_manager (ok u') m (ok (r, ok u)) = refl

  on_bootstrap-power_manager :
      (answers : Answers) (m : MonitorServer) (o : Result (Unit {0}))
      → (on_bootstrap join dir answers m o).0.power_manager ≡ m.power_manager
  unfolding WorkerRunner.run
  on_bootstrap-power_manager answers m (err e) = refl
  on_bootstrap-power_manager answers m (ok u) =
      on_workers-power_manager answers.stats_client (record m { api_server = true })
        (WorkerRunner.run join dir answers.files m.worker_runner)

  listen_lem :
      (config : Config) (answers : Answers) (m : MonitorServer)
      → m.power_manager ≡ new_power_manager
      → (listen join dir config answers m).0.power_manager ≡ pending_up
  unfolding listen going_up switch_state
  listen_lem config answers m e =
      ap (λ p. (on_going_up join dir config answers m (going_up p)).0.power_manager) e
      ∙ on_bootstrap-power_manager answers (record m { power_manager = pending_up })
          (bootstrap answers.api_client config)

  -- A server that is down with no change pending is told to listen: whatever comes of it, also where
  -- its monitor is not enabled, or a client or the workers fail, until the HTTP server calls back the
  -- server can neither be told to listen again nor to quit: both fail with the error of the power
  -- manager, and change nothing.
  pub listen-pending :
      (config config' : Config) (answers answers' : Answers) (m : MonitorServer)
      → m.power_manager ≡ new_power_manager
      → (listen join dir config' answers' (listen join dir config answers m).0
          ≡ ((listen join dir config answers m).0, err power_manager_error))
        × (quit (listen join dir config answers m).0
            ≡ ((listen join dir config answers m).0, err power_manager_error))
  listen-pending config config' answers answers' m e =
      refused config' answers' _ (listen_lem config answers m e)
