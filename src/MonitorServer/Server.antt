-- ===== src/MonitorServer/Server.antt =====
-- src/monitor-server/index.ts: the life cycle of the server. What it awaits is given by its answers; the
-- set-up of koa and of socket.io, and the statistics that are passed on to the sockets, are left out.
use redis_smq.Prelude.{Text, Bool, true, false, not, Option, none, some, List, if◌then◌else◌}
use redis_smq.Errors.{
  Result, ok, err, throw_if, argument_error, configuration_error, panic_error, ◌>>=◌, ◌>>◌,
}
use redis_smq.PowerManager.{PowerManager, new_power_manager, going_up, going_down, commit}
use redis_smq.WorkerRunner.{WorkerRunner, new_worker_runner}
use redis_smq.WorkerRunner

-- `config.monitor`, as far as it is read here.
pub record MonitorConfig : Type 0 where
  pub enabled : Bool

-- The argument of `bootstrap`: nothing, a value that is not an object, or a configuration.
pub data Config : Type 0 where
  missing not_an_object : Config
  config_of : Option MonitorConfig → Config

abbrev is_enabled : Option MonitorConfig → Bool
is_enabled none = false
is_enabled (some monitor) = monitor.enabled

-- `bootstrap`, by what `RedisClient.getNewInstance` answers.
unfoldable pub bootstrap : Result (Unit {0}) → Config → Result (Unit {0})
bootstrap client missing = err argument_error
bootstrap client not_an_object = err argument_error
bootstrap client (config_of monitor) =
    throw_if (not (is_enabled monitor)) configuration_error >> client

-- The server's variables; of the two that may be null, whether they are set.
pub record MonitorServer : Type 0 where
  pub power_manager : PowerManager
  pub worker_runner : WorkerRunner
  pub subscribe_client : Bool
  pub api_server : Bool
  -- whether the HTTP server accepts requests
  pub listening : Bool

abbrev pub new_monitor_server : MonitorServer
new_monitor_server = record {
  power_manager = new_power_manager;
  worker_runner = new_worker_runner;
  subscribe_client = false;
  api_server = false;
  listening = false;
}

-- What `listen` awaits: the two clients, and the files of the workers.
pub record Answers : Type 0 where
  pub api_client : Result (Unit {0})
  pub files : Result (List Text)
  pub stats_client : Result (Unit {0})

-- The state when a promise is settled, and how it is.
abbrev pub Settled : Type 0
Settled = MonitorServer × Result (Unit {0})

abbrev pub on_subscribed : Result (Unit {0}) → MonitorServer → Settled
on_subscribed (err e) m = (m, err e)
on_subscribed (ok u) m = (record m { subscribe_client = true; listening = true }, ok tt)

abbrev pub on_workers :
    Result (Unit {0}) → MonitorServer → Result (WorkerRunner × Result (Unit {0})) → Settled
on_workers stats_client m (err e) = (m, err e)
on_workers stats_client m (ok (r, err e)) = (record m { worker_runner = r }, err e)
on_workers stats_client m (ok (r, ok u)) =
    on_subscribed stats_client (record m { worker_runner = r })

abbrev pub on_bootstrap :
    (Text → Text → Text) → Text → Answers → MonitorServer → Result (Unit {0}) → Settled
on_bootstrap join dir answers m (err e) = (m, err e)
on_bootstrap join dir answers m (ok u) =
    on_workers answers.stats_client (record m { api_server = true })
      (WorkerRunner.run join dir answers.files m.worker_runner)

abbrev pub on_going_up :
    (Text → Text → Text) → Text → Config → Answers → MonitorServer → Result PowerManager → Settled
on_going_up join dir config answers m (err e) = (m, err e)
on_going_up join dir config answers m (ok p) =
    on_bootstrap join dir answers (record m { power_manager = p })
      (bootstrap answers.api_client config)

-- `listen`, up to `httpServer.listen`.
unfoldable pub listen : (Text → Text → Text) → Text → Config → Answers → MonitorServer → Settled
unfolding going_up bootstrap WorkerRunner.run
listen join dir config answers m = on_going_up join dir config answers m (going_up m.power_manager)

-- The callback of `httpServer.listen`.
unfoldable pub on_listening : MonitorServer → Result MonitorServer
unfolding commit
on_listening m = do p ← commit m.power_manager; ok (record m { power_manager = p })

-- Where `quit` stops to wait for the HTTP server and then for the workers.
abbrev pub on_going_down : MonitorServer → Result PowerManager → Settled
on_going_down m (err e) = (m, err e)
on_going_down m (ok p) =
    if not m.api_server
    then (record m { power_manager = p }, err panic_error)
    else if not m.subscribe_client
    then (record m { power_manager = p; listening = false }, err panic_error)
    else (record m { power_manager = p; listening = false }, ok tt)

-- `quit`, up to `workerRunner.shutdownAsync`.
unfoldable pub quit : MonitorServer → Settled
unfolding going_down
quit m = on_going_down m (going_down m.power_manager)

unfoldable pub shutdown_workers : MonitorServer → Result MonitorServer
unfolding WorkerRunner.shutdown
shutdown_workers m = do
  r ← WorkerRunner.shutdown m.worker_runner
  ok (record m { worker_runner = r })

-- `quit` from where the workers are shut down.
unfoldable pub after_shutdown : MonitorServer → Result MonitorServer
unfolding commit
after_shutdown m = do
  p ← commit m.power_manager
  ok (record m { power_manager = p; api_server = false; subscribe_client = false })
