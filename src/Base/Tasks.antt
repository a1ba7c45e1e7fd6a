-- ===== src/Base/Tasks.antt =====
-- src/system/base.ts: the tasks of a shutdown, one after the other.
use redis_smq.Prelude.{Bool, true, false, List, [], ◌∷◌, ◌≡◌, refl, ap, ◌∙◌, none, some}
use redis_smq.PowerManager.{PowerState, PowerManager, up, down}
use redis_smq.Base.{Instance, Ending, finished, Task}
use redis_smq.Base.Run.{
  tear_down_broker, tear_down_message_rate, tear_down_shared_redis_client,
  tear_down_consumer_workers, tear_down_heartbeat, tear_down_consumer_redis_client, base_tasks_down,
  tasks_down, tear_down,
}

abbrev pub or_stop : Ending × Instance → Ending × Instance → Ending × Instance
or_stop (finished, i) rest = rest
or_stop x rest = x

-- The tasks one after the other.
abbrev pub in_turn : List Task → Task
in_turn [] i = (finished, i)
in_turn (t ∷ ts) i = or_stop (t i) (in_turn ts (t i).1)

in_turn-finished :
    (t : Task) (ts : List Task) (i : Instance) {i' : Instance}
    → t i ≡ (finished, i')
    → in_turn (t ∷ ts) i ≡ in_turn ts i'
in_turn-finished t ts i e = rw e refl

-- Tearing down one object.
module _ (i : Instance) where
  tear :
      (there : Bool) (forget : Instance → Instance)
      → (there ≡ false → i ≡ forget i)
      → tear_down there forget i ≡ (finished, forget i)
  tear true forget same = refl
  tear false forget same = ap (λ j. (finished, j)) (same refl)

  tear_down_broker_lem : tear_down_broker i ≡ (finished, record i { broker = false })
  unfolding tear_down_broker
  tear_down_broker_lem =
      tear i.broker (λ j. record j { broker = false }) (λ e. ap (λ b. record i { broker = b }) e)

  tear_down_message_rate_lem :
      tear_down_message_rate i ≡ (finished, record i { message_rate = false })
  unfolding tear_down_message_rate
  tear_down_message_rate_lem =
      tear i.message_rate (λ j. record j { message_rate = false })
        (λ e. ap (λ b. record i { message_rate = b }) e)

  tear_down_shared_redis_client_lem :
      tear_down_shared_redis_client i ≡ (finished, record i { shared_redis_client = false })
  unfolding tear_down_shared_redis_client
  tear_down_shared_redis_client_lem =
      tear i.shared_redis_client (λ j. record j { shared_redis_client = false })
        (λ e. ap (λ b. record i { shared_redis_client = b }) e)

  tear_down_consumer_workers_lem :
      tear_down_consumer_workers i ≡ (finished, record i { consumer_workers = false })
  unfolding tear_down_consumer_workers
  tear_down_consumer_workers_lem =
      tear i.consumer_workers (λ j. record j { consumer_workers = false })
        (λ e. ap (λ b. record i { consumer_workers = b }) e)

  tear_down_heartbeat_lem : tear_down_heartbeat i ≡ (finished, record i { heartbeat = false })
  unfolding tear_down_heartbeat
  tear_down_heartbeat_lem =
      tear i.heartbeat (λ j. record j { heartbeat = false })
        (λ e. ap (λ b. record i { heartbeat = b }) e)

  tear_down_consumer_redis_client_lem :
      tear_down_consumer_redis_client i ≡ (finished, record i { consumer_redis_client = false })
  unfolding tear_down_consumer_redis_client
  tear_down_consumer_redis_client_lem =
      tear i.consumer_redis_client (λ j. record j { consumer_redis_client = false })
        (λ e. ap (λ b. record i { consumer_redis_client = b }) e)

base_torn_down :
    (i : Instance)
    → in_turn base_tasks_down i
      ≡ (finished, record i { broker = false; message_rate = false; shared_redis_client = false })
unfolding base_tasks_down
base_torn_down i =
    let i₁ = record i { broker = false } in
    let i₂ = record i₁ { message_rate = false } in
    in_turn-finished tear_down_broker (tear_down_message_rate ∷ tear_down_shared_redis_client ∷ [])
      i (tear_down_broker_lem i)
    ∙ in_turn-finished tear_down_message_rate (tear_down_shared_redis_client ∷ []) i₁
        (tear_down_message_rate_lem i₁)
    ∙ in_turn-finished tear_down_shared_redis_client [] i₂ (tear_down_shared_redis_client_lem i₂)

-- Without the objects that a shutdown tears down.
abbrev pub torn_down : Bool → Instance → Instance
torn_down true i = record i {
  broker = false;
  message_rate = false;
  shared_redis_client = false;
  consumer_workers = false;
  heartbeat = false;
  consumer_redis_client = false;
}
torn_down false i = record i { broker = false; message_rate = false; shared_redis_client = false }

pub tasks_down_lem :
    (is_consumer monitor_enabled : Bool) (i : Instance)
    → in_turn
        (tasks_down (record { is_consumer = is_consumer; monitor_enabled = monitor_enabled }))
        i
      ≡ (finished, torn_down is_consumer i)
unfolding tasks_down
tasks_down_lem false m i = base_torn_down i
tasks_down_lem true m i =
    let i₁ = record i { consumer_workers = false } in
    let i₂ = record i₁ { heartbeat = false } in
    let i₃ = record i₂ { consumer_redis_client = false } in
    in_turn-finished tear_down_consumer_workers
      (tear_down_heartbeat ∷ tear_down_consumer_redis_client ∷ base_tasks_down) i
      (tear_down_consumer_workers_lem i)
    ∙ in_turn-finished tear_down_heartbeat (tear_down_consumer_redis_client ∷ base_tasks_down) i₁
        (tear_down_heartbeat_lem i₁)
    ∙ in_turn-finished tear_down_consumer_redis_client base_tasks_down i₂
        (tear_down_consumer_redis_client_lem i₂)
    ∙ base_torn_down i₃

abbrev pub at_rest : PowerState → PowerManager
at_rest s = record { state = s; pending_state = none }

-- In the middle of a change.
abbrev pub going : PowerState → PowerManager
going up = record { state = down; pending_state = some up }
going down = record { state = up; pending_state = some down }
