-- ===== src/StatsWorker/Measured.antt =====
-- src/monitor-server/workers/stats.worker.ts: each size is counted for the queue that it belongs to.
use redis_smq.Prelude.{
  Text, of_text_eq, ℕ, Bool, true, false, ◌&&◌, some, List, [], ◌∷◌, ◌++◌, ◌≡◌, refl, ap, ap₂, sym,
  ◌∙◌, Bool-cases, inl, inr,
}
use redis_smq.Message.{MessageQueue}
use redis_smq.Keys.Names.{queue_keys}
use redis_smq.Keys.Parse.{NoBar, extract_data}
use redis_smq.Redis.Keyspace.{Keyspace}
use redis_smq.Redis.Command.{effect}
use redis_smq.Redis.Program.{done, exec, effects, request_effect, request_reply, request_blocks}
use redis_smq.Redis.Server.{Server, IsReliable, result, content, on_server}
use redis_smq.StatsWorker.{Stats, StatsQueue, at_queue, is_queue, new_queue}
use redis_smq.StatsWorker.Tick.{
  handle_size, handle_result, size_keys, all_keys, all_commands, get_queue_size,
}
use redis_smq.StatsWorker.Sizes.{
  queue_at, pending, prioritized, dead_lettered, acknowledged, sizes_of, all_sizes, counts_lem,
  measured, HasNoBars, is_queue-new, at_queue_twice, handle_size-queue, handle_size-priority,
  handle_size-dl, handle_size-acknowledged,
}

both : (a b : Bool) → (a && b) ≡ true → (a ≡ true) × (b ≡ true)
both true true h = (refl, refl)
both true false h = absurd (cc h)
both false b h = absurd (cc h)

module _ (s : Keyspace) where
  module _ (q : MessageQueue) (ns_ok : NoBar q.ns) (name_ok : NoBar q.name)
      (es : List StatsQueue) where
    abbrev at : (StatsQueue → StatsQueue) → List StatsQueue
    at f = at_queue q.ns q.name f es

    -- One more of the sizes.
    one_more :
        (key : Text) (size : ℕ) (f g : StatsQueue → StatsQueue) {es' : List StatsQueue}
        → es' ≡ at f
        → ((e : StatsQueue) → is_queue q.ns q.name (f e) ≡ is_queue q.ns q.name e)
        → ((ds : List StatsQueue)
            → handle_size (extract_data key) size ds ≡ at_queue q.ns q.name g ds)
        → handle_size (extract_data key) size es' ≡ at (λ e. g (f e))
    one_more key size f g before keeps step =
        ap (handle_size (extract_data key) size) before
        ∙ step (at f)
        ∙ at_queue_twice q.ns q.name f g keeps es

    abbrev set_pending : StatsQueue → StatsQueue
    set_pending e = record e { pending_messages = pending s q.ns q.name }

    abbrev set_prioritized : StatsQueue → StatsQueue
    set_prioritized e = record e { pending_messages_with_priority = prioritized s q.ns q.name }

    abbrev set_dead : StatsQueue → StatsQueue
    set_dead e = record e { dead_lettered_messages = dead_lettered s q.ns q.name }

    abbrev set_acknowledged : StatsQueue → StatsQueue
    set_acknowledged e = record e { acknowledged_messages = acknowledged s q.ns q.name }

    handle_one :
        (keys : List Text) (sizes : List ℕ)
        → handle_result (size_keys q ++ keys) (sizes_of s q ++ sizes) es
          ≡ handle_result keys sizes (at (measured s q))
    unfolding handle_result
    handle_one keys sizes =
        let a = pending s q.ns q.name in
        let b = prioritized s q.ns q.name in
        let c = dead_lettered s q.ns q.name in
        let d = acknowledged s q.ns q.name in
        let first = handle_size-queue q ns_ok name_ok a es in
        let second =
          one_more (queue_keys q.ns q.name).key_queue_priority b set_pending set_prioritized first
            (λ e. refl) (handle_size-priority q ns_ok name_ok b) in
        let third =
          one_more (queue_keys q.ns q.name).key_queue_dl c (λ e. set_prioritized (set_pending e))
            set_dead second (λ e. refl) (handle_size-dl q ns_ok name_ok c) in
        ap (handle_result keys sizes) (
          one_more (queue_keys q.ns q.name).key_queue_acknowledged_messages d
            (λ e. set_dead (set_prioritized (set_pending e))) set_acknowledged third (λ e. refl)
            (handle_size-acknowledged q ns_ok name_ok d))

  abbrev measure_all : List MessageQueue → List StatsQueue → List StatsQueue
  measure_all [] es = es
  measure_all (q ∷ qs) es = measure_all qs (at_queue q.ns q.name (measured s q) es)

  handle_result_lem :
      (qs : List MessageQueue) (es : List StatsQueue)
      → HasNoBars qs
      → handle_result (all_keys qs) (all_sizes s qs) es ≡ measure_all qs es
  unfolding handle_result
  handle_result_lem [] es h = refl
  handle_result_lem (q ∷ qs) es h =
      handle_one q h.0 h.1 es (all_keys qs) (all_sizes s qs)
      ∙ handle_result_lem qs (at_queue q.ns q.name (measured s q) es) h.2

  -- The entry of a queue has the lengths of that queue.
  abbrev pub IsMeasured : Text → Text → List StatsQueue → Type 0
  IsMeasured ns name es =
      (e : StatsQueue) × (queue_at ns name es ≡ some e)
      × (e.pending_messages ≡ pending s ns name)
      × (e.pending_messages_with_priority ≡ prioritized s ns name)
      × (e.dead_lettered_messages ≡ dead_lettered s ns name)
      × (e.acknowledged_messages ≡ acknowledged s ns name)

  at_queue-IsMeasured :
      (q : MessageQueue) (es : List StatsQueue)
      → IsMeasured q.ns q.name (at_queue q.ns q.name (measured s q) es)
  unfolding queue_at at_queue
  at_queue-IsMeasured q [] =
      rw (is_queue-new q.ns q.name)
        (measured s q (new_queue q.ns q.name), refl, refl, refl, refl, refl)
  at_queue-IsMeasured q (e ∷ es) = elim (Bool-cases (is_queue q.ns q.name e)) [
    | inl b ↦ rw b (rw (queue_at, b) (measured s q e, refl, refl, refl, refl, refl))
    | inr b ↦ rw b (rw (queue_at, b) (at_queue-IsMeasured q es))
  ]

  module _ (ns name : Text) where
    queue_at-here :
        (x : StatsQueue) (es : List StatsQueue)
        → is_queue ns name x ≡ true
        → queue_at ns name (x ∷ es) ≡ some x
    unfolding queue_at
    queue_at-here x es b = rw b refl

    queue_at-there :
        (x : StatsQueue) (es : List StatsQueue)
        → is_queue ns name x ≡ false
        → queue_at ns name (x ∷ es) ≡ queue_at ns name es
    unfolding queue_at
    queue_at-there x es b = rw b refl

    same_entry :
        (es es' : List StatsQueue)
        → queue_at ns name es' ≡ queue_at ns name es
        → IsMeasured ns name es
        → IsMeasured ns name es'
    same_entry es es' same (e, entry, a, b, c, d) = (e, same ∙ entry, a, b, c, d)

    names_of :
        (x : StatsQueue) → is_queue ns name x ≡ true → (x.namespace ≡ ns) × (x.queue_name ≡ name)
    names_of x b = let h = both _ _ b in (of_text_eq _ _ h.0, of_text_eq _ _ h.1)

    -- Behind an entry of another queue.
    later :
        (x : StatsQueue) (es es' : List StatsQueue)
        → (IsMeasured ns name es → IsMeasured ns name es')
        → IsMeasured ns name (x ∷ es)
        → IsMeasured ns name (x ∷ es')
    later x es es' rest h = elim (Bool-cases (is_queue ns name x)) [
      | inl b ↦ same_entry (x ∷ es) (x ∷ es') (queue_at-here x es' b ∙ sym (queue_at-here x es b)) h
      | inr b ↦
          same_entry es' (x ∷ es') (queue_at-there x es' b)
            (rest (same_entry (x ∷ es) es (sym (queue_at-there x es b)) h))
    ]

  -- Measuring another queue, or the same one again, keeps an entry measured.
  kept :
      (q : MessageQueue) (ns name : Text) (es : List StatsQueue)
      → IsMeasured ns name es
      → IsMeasured ns name (at_queue q.ns q.name (measured s q) es)
  unfolding at_queue queue_at
  kept q ns name [] h = absurd (cc h.1)
  kept q ns name (x ∷ es) h = elim (Bool-cases (is_queue q.ns q.name x)) [
    | inl b ↦ elim (Bool-cases (is_queue ns name x)) [
      | inl b' ↦
          let mine = names_of q.ns q.name x b in
          let given = names_of ns name x b' in
          let ns_same = sym mine.0 ∙ given.0 in
          let name_same = sym mine.1 ∙ given.1 in
          rw b (
            measured s q x,
            queue_at-here ns name (measured s q x) es b',
            ap₂ (pending s) ns_same name_same,
            ap₂ (prioritized s) ns_same name_same,
            ap₂ (dead_lettered s) ns_same name_same,
            ap₂ (acknowledged s) ns_same name_same,
          )
      | inr b' ↦ rw b (
          same_entry ns name (x ∷ es) (measured s q x ∷ es)
            (queue_at-there ns name (measured s q x) es b' ∙ sym (queue_at-there ns name x es b'))
            h)
    ]
    | inr b ↦ rw b (later ns name x es _ (kept q ns name es) h)
  ]

  all_measured :
      (after : List MessageQueue) (ns name : Text) (es : List StatsQueue)
      → IsMeasured ns name es
      → IsMeasured ns name (measure_all after es)
  all_measured [] ns name es h = h
  all_measured (q ∷ after) ns name es h =
      all_measured after ns name (at_queue q.ns q.name (measured s q) es) (kept q ns name es h)

  measured_at :
      (before after : List MessageQueue) (q : MessageQueue) (es : List StatsQueue)
      → IsMeasured q.ns q.name (measure_all (before ++ q ∷ after) es)
  measured_at [] after q es =
      all_measured after q.ns q.name (at_queue q.ns q.name (measured s q) es)
        (at_queue-IsMeasured q es)
  measured_at (p ∷ before) after q es =
      measured_at before after q (at_queue p.ns p.name (measured s p) es)

  effects_none : (qs : List MessageQueue) → effects (all_commands qs) s ≡ s
  unfolding effects effect
  effects_none [] = refl
  effects_none (q ∷ qs) = effects_none qs

  exec-get_queue_size :
      (qs : List MessageQueue) (stats : Stats)
      → HasNoBars qs
      → exec (get_queue_size qs stats) s
        ≡ (done (record stats { queues = measure_all qs stats.queues }), s)
  unfolding get_queue_size exec request_effect request_reply request_blocks
  exec-get_queue_size [] stats h = refl
  exec-get_queue_size (q ∷ qs) stats h =
      ap₂ (λ x t. (done (record stats { queues = x }), t))
        (ap (λ ns. handle_result (all_keys (q ∷ qs)) ns stats.queues) (counts_lem s (q ∷ qs))
          ∙ handle_result_lem (q ∷ qs) stats.queues h)
        (effects_none (q ∷ qs))

-- For any queues whose names do not hold the separator, on a reliable server and for any statistics
-- before: `getQueueSize` succeeds and changes nothing in the database, and afterwards each of the
-- queues has an entry with its own four sizes: the lengths of its list of pending messages, of its
-- sorted set of priorities, of its dead-letter list and of its list of acknowledged messages.
pub get_queue_size-IsMeasured :
    (S : Server) (reliable : IsReliable S) (d : S.Db) (before after : List MessageQueue)
    (q : MessageQueue) (stats : Stats)
    → HasNoBars (before ++ q ∷ after)
    → (content S (get_queue_size (before ++ q ∷ after) stats) d ≡ S.view d)
      × (stats' : Stats) × (result S (get_queue_size (before ++ q ∷ after) stats) d ≡ done stats')
      × IsMeasured (S.view d) q.ns q.name stats'.queues
get_queue_size-IsMeasured S reliable d before after q stats h =
    let ran =
      on_server S reliable _ d (exec-get_queue_size (S.view d) (before ++ q ∷ after) stats h) in
    (ran.1, _, ran.0, measured_at (S.view d) before after q stats.queues)
