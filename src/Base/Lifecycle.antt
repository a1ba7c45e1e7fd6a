-- ===== src/Base/Lifecycle.antt =====
-- src/system/base.ts: what a start and a shutdown leave.
use redis_smq.Prelude.{
  Bool, true, false, ◌+◌, List, [], ◌∷◌, if◌then◌else◌, ◌≡◌, refl, ap, ◌∙◌, sym,
}
use redis_smq.Errors.{Result, ok, err, panic_error, ◌>>=◌}
use redis_smq.PowerManager.{
  up, down, is_going_up, going_up, going_down, switch_state, commit, is_running, is_up,
}
use redis_smq.Base.{
  Instance, new_instance, Ending, finished, never, failed, thrown, Task, Waterfall, Answers, Kind,
  tasks_up, handle_error,
}
use redis_smq.Base.Run.{
  tasks_down, end_of_tasks, count_down, count_up, run, shutdown, emit_up, message_next,
}
use redis_smq.Base.Tasks.{in_turn, or_stop, torn_down, tasks_down_lem, at_rest, going}
use redis_smq.Base.Start.{Started, starting, started, can_ask, asks}

module _ (w : Waterfall) where
  first-in_turn :
      (t : Task) (ts : List Task) (i : Instance) (x : Ending × Instance)
      → t i ≡ x
      → ((i' : Instance) → w.waterfall ts i' ≡ in_turn ts i')
      → w.waterfall (t ∷ ts) i ≡ or_stop x (in_turn ts x.1)
  first-in_turn t ts i (finished, i') e rest = w.waterfall_finished t ts i i' e ∙ rest i'
  first-in_turn t ts i (never, i') e rest = w.waterfall_never t ts i i' e
  first-in_turn t ts i (failed x, i') e rest = w.waterfall_failed t ts i i' x e
  first-in_turn t ts i (thrown x, i') e rest = w.waterfall_thrown t ts i i' x e

  waterfall-in_turn : (ts : List Task) (i : Instance) → w.waterfall ts i ≡ in_turn ts i
  waterfall-in_turn [] i = w.waterfall_nil i
  waterfall-in_turn (t ∷ ts) i = first-in_turn t ts i (t i) refl (waterfall-in_turn ts)

  -- An instance that is up, after its shutdown.
  shutdown_up :
      (is_consumer m : Bool) (i : Instance)
      → shutdown w
          (record { is_consumer = is_consumer; monitor_enabled = m })
          (record i { power_manager = at_rest up })
        ≡ ok
            (record (torn_down is_consumer i) { power_manager = at_rest down; downs = i.downs + 1 })
  unfolding shutdown going_down switch_state commit
  shutdown_up true m i = ap (end_of_tasks count_down) (
      waterfall-in_turn (tasks_down (record { is_consumer = true; monitor_enabled = m })) _
      ∙ tasks_down_lem true m (record i { power_manager = going down }))
  shutdown_up false m i = ap (end_of_tasks count_down) (
      waterfall-in_turn (tasks_down (record { is_consumer = false; monitor_enabled = m })) _
      ∙ tasks_down_lem false m (record i { power_manager = going down }))

abbrev at_the_end : Instance → Instance
at_the_end j = record j { power_manager = at_rest down; ups = j.ups + 1; downs = j.downs + 1 }

stopped :
    (is_consumer : Bool) (i : Instance)
    → torn_down is_consumer i ≡ starting
    → (i.power_manager ≡ going up)
      × (i.ups ≡ 0)
      × (record (torn_down is_consumer (record i { ups = i.ups + 1 })) {
        power_manager = at_rest down;
        downs = i.downs + 1;
      }
          ≡ record new_instance { ups = 1; downs = 1 })
stopped true i e = (ap (λ j. j.power_manager) e, ap (λ j. j.ups) e, ap at_the_end e)
stopped false i e = (ap (λ j. j.power_manager) e, ap (λ j. j.ups) e, ap at_the_end e)

message_next_lem :
    (is_consumer m : Bool) (i : Instance)
    → message_next
        (record { is_consumer = is_consumer; monitor_enabled = m })
        (count_up (record i { power_manager = at_rest up }))
      ≡ (if asks is_consumer i
          then ok (count_up (record i { power_manager = at_rest up }))
          else err panic_error)
unfolding message_next handle_error is_running is_up is_going_up
message_next_lem true m i = refl
message_next_lem false m i = refl

module _ (w : Waterfall) (is_consumer m : Bool) where
  abbrev kind : Kind
  kind = record { is_consumer = is_consumer; monitor_enabled = m }

  -- A start that came to UP so, its listener, and the shutdown after it.
  abbrev ThenShutdown : Bool → Result Instance → Type 0
  ThenShutdown asked r =
      (i : Instance) × (r ≡ ok i)
      × (message_next kind i ≡ (if asked then ok i else err panic_error))
      × (is_running i.power_manager ≡ true)
      × (i.ups ≡ 1)
      × (shutdown w kind i ≡ ok (record new_instance { ups = 1; downs = 1 }))

  abbrev up_after : Instance → Instance
  up_after i = count_up (record i { power_manager = at_rest up })

  committed :
      (i : Instance)
      → torn_down is_consumer i ≡ starting
      → ThenShutdown (asks is_consumer i) (end_of_tasks count_up (finished, i))
  unfolding commit is_running is_up
  committed i e =
      let (p, u, gone) = stopped is_consumer i e in
      (
        up_after i,
        ap (λ q. commit q >>= (λ p'. ok (count_up (record i { power_manager = p' })))) p,
        message_next_lem is_consumer m i,
        refl,
        ap (λ n. n + 1) u,
        shutdown_up w is_consumer m (record i { ups = i.ups + 1 }) ∙ ap ok gone,
      )

  by_ending :
      (a : Answers) (x : Ending × Instance)
      → Started is_consumer a x
      → ThenShutdown (can_ask is_consumer a) (end_of_tasks count_up x)
  by_ending a (finished, i) (c, h, s) = rw (sym s) (committed i h)
  by_ending a (failed e, i) (c, h, s) = rw (sym s) (committed i h)
  by_ending a (never, i) h = absurd (cc h.0)
  by_ending a (thrown e, i) h = absurd (cc h.0)

  come_up : (a : Answers) → ThenShutdown (can_ask is_consumer a) (emit_up w kind a new_instance)
  unfolding emit_up going_up switch_state
  come_up a =
      rw (waterfall-in_turn w (tasks_up kind a) starting)
        (by_ending a (in_turn (tasks_up kind a) starting) (started is_consumer m a))

  -- Whatever the calls of the start answer, for a producer or a consumer, with or without monitoring:
  -- `run` of a new instance comes to emit UP, once, with the instance running, also when a task of the
  -- start failed. It then ends without an exception if the instance is a producer, or a consumer whose
  -- two clients and whose queue were set up; for any other consumer, the listener of UP throws. From
  -- the instance with UP emitted, a `shutdown` comes to its end, emits DOWN once, and leaves everything
  -- else as it was before the start: the power manager is down with nothing pending, and every object
  -- is forgotten.
  pub run-shutdown :
      (a : Answers)
      → (i : Instance) × (emit_up w kind a new_instance ≡ ok i)
        × (run w kind a new_instance ≡ (if can_ask is_consumer a then ok i else err panic_error))
        × (is_running i.power_manager ≡ true)
        × (i.ups ≡ 1)
        × (shutdown w kind i ≡ ok (record new_instance { ups = 1; downs = 1 }))
  unfolding run
  run-shutdown a =
      let (i, e, n, r, u, d) = come_up a in (i, e, ap (λ s. s >>= message_next kind) e ∙ n, r, u, d)
