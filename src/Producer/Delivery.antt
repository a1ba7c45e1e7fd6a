-- ===== src/Producer/Delivery.antt =====
-- src/system/producer/producer.ts with src/system/broker.ts: from a producer to a consumer.
use redis_smq.Prelude.{
  Text, text_eq, text_eq_refl, text_eq_ne, ℕ, true, false, Option, some, List, [], ◌∷◌, ◌++◌, ◌≡◌,
  refl, arith, ap, ◌∙◌, split_last-append,
}
use redis_smq.Message.{Message, is_schedulable, reset, set_queue, set_published_at}
use redis_smq.Message.Anew.{anew}
use redis_smq.Keys.{RedisKey}
use redis_smq.Keys.Names.{queue_keys}
use redis_smq.Redis.Value.{Value}
use redis_smq.Redis.Keyspace.{Keyspace, set_list}
use redis_smq.Redis.Command.{Command, effect, reply, blocks, bulk, is_nonempty, move_last}
use redis_smq.Redis.Client.{string_of}
use redis_smq.Redis.Program.{
  Program, done, exec, exec_command, exec-bind, continue, request_effect, request_reply,
  request_blocks, if_ok, ◌>>=◌, ◌>>◌, pure,
}
use redis_smq.Redis.Server.{on_server, Server, IsReliable, result, content}
use redis_smq.Handlers.Processing.Settling.{to_queue, processing_key, HasNames}
use redis_smq.Handlers.Dequeue.{dequeue, new_dequeue_handler}
use redis_smq.Handlers.Enqueue.{enqueue}
use redis_smq.Broker.{Broker, enqueue_message, dequeue_message}
use redis_smq.PowerManager.{PowerManager, is_up}
use redis_smq.Producer.{prepare, proceed, produce_message, at_once}

is_nonempty-append : (xs : List Value) (v : Value) → is_nonempty (xs ++ v ∷ []) ≡ true
is_nonempty-append [] v = refl
is_nonempty-append (x ∷ xs) v = refl

-- The message as a consumer receives it.
abbrev pub delivered : Text → Text → ℕ → Message → Message
delivered namespace name now m = anew now namespace name m

abbrev pub queue_key : Text → Text → Text
queue_key namespace name = (queue_keys namespace name).key_queue

-- The producer's part, and then a consumer's call of `dequeueMessage`.
abbrev pub produce_then_dequeue :
    Broker → (Text → ℕ → ℕ) → ℕ → ℕ → Text → Text → Message → Program (Option Value)
produce_then_dequeue b next_cron polls now name id m =
    proceed b next_cron now (prepare b.namespace name m)
    >> dequeue_message b polls
        (new_dequeue_handler b.namespace name (processing_key b.namespace name id))

module _ (b : Broker) (lifo : b.priority_queue ≡ false) (name : Text) where
  abbrev pushed : Value → Keyspace → Keyspace
  pushed v s =
      set_list (queue_key b.namespace name) (s.lists (queue_key b.namespace name) ++ v ∷ []) s

  pub exec-proceed :
      (next_cron : Text → ℕ → ℕ) (now : ℕ) (m : Message) (s : Keyspace)
      → is_schedulable m ≡ false
      → exec (proceed b next_cron now (prepare b.namespace name m)) s
        ≡ (done true, pushed (Value.message (delivered b.namespace name now m)) s)
  unfolding proceed prepare reset set_queue is_schedulable enqueue_message enqueue exec
      request_effect request_reply request_blocks effect reply blocks set_published_at
  exec-proceed next_cron now m s plain = simp (plain, lifo)

  module _ (id : Text) (names : HasNames b.namespace name id) (polls : ℕ) where
    pub exec-dequeue :
        (xs : List Value) (v : Value) (s : Keyspace)
        → s.lists (queue_key b.namespace name) ≡ xs ++ v ∷ []
        → exec
            (dequeue_message b polls
              (new_dequeue_handler b.namespace name (processing_key b.namespace name id)))
            s
          ≡ (
            done (some v),
            move_last
                (queue_key b.namespace name)
                (processing_key b.namespace name id)
                (some (xs, v))
                s,
          )
    unfolding dequeue_message dequeue exec blocks reply effect
    exec-dequeue xs v s e = rw lifo (
        exec_command
          (Command.brpoplpush (queue_key b.namespace name) (processing_key b.namespace name id))
          (λ r. if_ok pure r >>= λ x. pure (string_of x)) s {r = bulk v}
          {s' = move_last (queue_key b.namespace name) (processing_key b.namespace name id)
            (some (xs, v)) s}
          (simp (e, is_nonempty-append xs v)) (simp (e, split_last-append xs v))
          (simp (e, split_last-append xs v)))

    abbrev moved : Value → Keyspace → Keyspace
    moved v s =
        move_last (queue_key b.namespace name) (processing_key b.namespace name id)
          (some (s.lists (queue_key b.namespace name), v)) (pushed v s)

    exec-produce_then_dequeue :
        (next_cron : Text → ℕ → ℕ) (now : ℕ) (m : Message) (s : Keyspace)
        → is_schedulable m ≡ false
        → exec (produce_then_dequeue b next_cron polls now name id m) s ≡ (
          done (some (Value.message (delivered b.namespace name now m))),
          moved (Value.message (delivered b.namespace name now m)) s,
        )
    exec-produce_then_dequeue next_cron now m s plain =
        exec-bind
          (λ _.
            dequeue_message b polls
              (new_dequeue_handler b.namespace name (processing_key b.namespace name id)))
          (proceed b next_cron now (prepare b.namespace name m)) s
        ∙ ap
            (λ x. continue x (λ _.
              dequeue_message b polls
                (new_dequeue_handler b.namespace name (processing_key b.namespace name id))))
            (exec-proceed next_cron now m s plain)
        ∙ exec-dequeue (s.lists (queue_key b.namespace name))
            (Value.message (delivered b.namespace name now m))
            (pushed (Value.message (delivered b.namespace name now m)) s) (simp (text_eq_refl))

    from_processing :
        text_eq (processing_key b.namespace name id) (queue_key b.namespace name) ≡ false
    from_processing = to_queue b.namespace name id names RedisKey.queue (omega arith)

    from_queue : text_eq (queue_key b.namespace name) (processing_key b.namespace name id) ≡ false
    from_queue = text_eq_ne _ _ λ e. cc (
      from_processing,
      ap (text_eq (processing_key b.namespace name id)) e,
      text_eq_refl (processing_key b.namespace name id),
    )

    moved_lists :
        (v : Value) (s : Keyspace)
        → ((moved v s).lists (queue_key b.namespace name) ≡ s.lists (queue_key b.namespace name))
          × ((moved v s).lists (processing_key b.namespace name id)
              ≡ v ∷ s.lists (processing_key b.namespace name id))
    moved_lists v s = (simp (from_processing, text_eq_refl), simp (from_queue, text_eq_refl))

-- A producer that is up sends a message that is not scheduled, without priorities, to a queue, on a
-- reliable server and with names that do not hold the separator; then a consumer dequeues. The
-- producer goes on at once, and the consumer receives that very message (the last one in is the first
-- one out), reset, with its queue and the present time. The queue is as it was before, and the message
-- stands in the consumer's processing queue, before what was there.
pub produce_then_dequeue_lem :
    (S : Server) (reliable : IsReliable S) (d : S.Db) (p : PowerManager) (b : Broker)
    (next_cron : Text → ℕ → ℕ) (polls now : ℕ) (name id : Text) (m : Message)
    → is_up p ≡ true
    → b.priority_queue ≡ false
    → HasNames b.namespace name id
    → is_schedulable m ≡ false
    → (produce_message p b name next_cron now m
        ≡ at_once (proceed b next_cron now (prepare b.namespace name m)))
      × (result S (produce_then_dequeue b next_cron polls now name id m) d
          ≡ done (some (Value.message (delivered b.namespace name now m))))
      × ((content S (produce_then_dequeue b next_cron polls now name id m) d).lists
            (queue_key b.namespace name)
          ≡ (S.view d).lists (queue_key b.namespace name))
      × ((content S (produce_then_dequeue b next_cron polls now name id m) d).lists
            (processing_key b.namespace name id)
          ≡ Value.message (delivered b.namespace name now m)
            ∷ (S.view d).lists (processing_key b.namespace name id))
unfolding produce_message
produce_then_dequeue_lem S reliable d p b next_cron polls now name id m powered lifo names plain =
    let v = Value.message (delivered b.namespace name now m) in
    let ran =
      on_server S reliable _ d
        (exec-produce_then_dequeue b lifo name id names polls next_cron now m (S.view d) plain) in
    let lists = moved_lists b lifo name id names polls v (S.view d) in
    (
      simp (powered),
      ran.0,
      ap (λ t. t.lists (queue_key b.namespace name)) ran.1 ∙ lists.0,
      ap (λ t. t.lists (processing_key b.namespace name id)) ran.1 ∙ lists.1,
    )
