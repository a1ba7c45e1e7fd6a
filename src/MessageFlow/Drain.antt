-- ===== src/MessageFlow/Drain.antt =====
-- src/system/consumer/consumer.ts: a running consumer comes to every message of its queue.
use redis_smq.Prelude.{
  ℕ, zero, suc, ◌+◌, ◌<◌, true, Option, List, [], ◌∷◌, ◌++◌, ◌≡◌, refl, ap, sym, ◌∙◌, arith, length,
  subst, Bool,
}
use redis_smq.Message.{Message}
use redis_smq.Redis.Value.{Value, create_from_message}
use redis_smq.Redis.Keyspace.{Keyspace}
use redis_smq.Redis.Command.{blocks}
use redis_smq.Redis.Program.{
  Program, waiting, exec, ◌>>=◌, pure, exec_blocked, exec-bind, exec_after, continue,
  request_blocks,
}
use redis_smq.Redis.Server.{Server, IsReliable, result, content, run-exec}
use redis_smq.Handlers.Dequeue.{dequeue, new_dequeue_handler}
use redis_smq.Broker.{
  Route, dead_letter, delay_before_requeuing, requeue_at_once, route, dequeue_message,
  unacknowledge_message,
}
use redis_smq.Consumer.{Action, acknowledge, unacknowledge, ConsumeEvent, handle_received_message}
use redis_smq.Consumer.Cycle.{Cycle, perform, perform_all, handle, received, rounds}
use redis_smq.MessageFlow.{
  Setting, processing_of, operation, Contents, ready, held, acknowledged, put, add_last, settle_by,
}
use redis_smq.MessageFlow.Places.{Represents, place_key, encode}
use redis_smq.MessageFlow.Steps.{
  Ends, IsReady, take_step, retry-Ends, acknowledge_message-Ends, bind-Ends,
}

-- The consumer of a setting.
abbrev pub cycle_of :
    Setting → Message → (ℕ → ℕ) → (ℕ → Message → List (Bool × ConsumeEvent)) → Cycle
cycle_of c fresh clock user = record {
  broker = c.broker;
  name = c.name;
  polls = c.polls;
  handler = new_dequeue_handler c.broker.namespace c.name (processing_of c);
  fresh = fresh;
  clock = clock;
  user = user;
}

-- What settling the held message makes of a queue.
abbrev pub settle_one : ℕ → Message → Action → Contents → Contents
settle_one now m acknowledge q = add_last acknowledged m (put held [] q)
settle_one now m (unacknowledge cause) q = settle_by (route now m cause) m (put held [] q)

settle_by-others :
    (r : Route) (m : Message) (q : Contents)
    → (settle_by r m q ready ≡ q ready) × (settle_by r m q held ≡ q held)
settle_by-others (dead_letter cause) m q = (refl, refl)
settle_by-others delay_before_requeuing m q = (refl, refl)
settle_by-others requeue_at_once m q = (refl, refl)

settle_one-others :
    (now : ℕ) (m : Message) (a : Action) (q : Contents)
    → (settle_one now m a q ready ≡ q ready) × (settle_one now m a q held ≡ [])
settle_one-others now m acknowledge q = (refl, refl)
settle_one-others now m (unacknowledge cause) q =
    settle_by-others (route now m cause) m (put held [] q)

abbrev pub reversed : List Message → List Message
reversed [] = []
reversed (m ∷ ms) = reversed ms ++ m ∷ []

module _ (clock : ℕ → ℕ) (action : ℕ → Message → Action) where
  -- The messages are settled one after the other, each by its action.
  unfoldable pub settle_all : ℕ → List Message → Contents → Contents
  settle_all zero ms q = q
  settle_all (suc k) [] q = q
  settle_all (suc k) (m ∷ ms) q =
      settle_all k ms
        (settle_one (clock k) m (action k m) (put held (m ∷ []) (put ready (reversed ms) q)))

module _ (c : Setting) (is_ready : IsReady c) (fresh : Message) (clock : ℕ → ℕ)
    (user : ℕ → Message → List (Bool × ConsumeEvent)) (action : ℕ → Message → Action) where
  abbrev consumer : Cycle
  consumer = cycle_of c fresh clock user

  perform-Ends :
      (now : ℕ) (a : Action) (m : Message) (s : Keyspace) (q : Contents)
      → q held ≡ m ∷ []
      → Represents c s q
      → Ends c (exec (perform consumer now m a) s) tt (settle_one now m a q)
  unfolding perform unacknowledge_message
  perform-Ends now acknowledge m s q only h = acknowledge_message-Ends c is_ready m s q only h
  perform-Ends now (unacknowledge cause) m s q only h =
      retry-Ends c is_ready m s q only h now m cause

  perform_one-Ends :
      (now : ℕ) (a : Action) (m : Message) (s : Keyspace) (q : Contents)
      → q held ≡ m ∷ []
      → Represents c s q
      → Ends c (exec (perform_all consumer now m (a ∷ [])) s) tt (settle_one now m a q)
  unfolding perform_all exec
  perform_one-Ends now a m s q only h =
      let ends = perform-Ends now a m s q only h in
      bind-Ends c (perform consumer now m a) (λ _. pure tt) s ends (refl, ends.1)

  abbrev asked : Program (Option Value)
  asked = dequeue_message c.broker c.polls consumer.handler

  blocked : (s : Keyspace) → s.lists (place_key c ready) ≡ [] → exec asked s ≡ (waiting, s)
  unfolding dequeue_message dequeue request_blocks blocks
  blocked s e = rw is_ready.lifo (exec_blocked _ _ s (simp e))

  module _
      (settles : (k : ℕ) (m : Message)
        → handle_received_message (clock k) m (user k m) ≡ action k m ∷ []) where
    handle-Ends :
        (k : ℕ) (m : Message) (s : Keyspace) (q : Contents)
        → q held ≡ m ∷ []
        → Represents c s q
        → Ends c (exec (handle consumer k m) s) 1 (settle_one (clock k) m (action k m) q)
    unfolding handle exec
    handle-Ends k m s q only h =
        let ends = perform_one-Ends (clock k) (action k m) m s q only h in
        rw (settles k m) (
          bind-Ends c (perform_all consumer (clock k) m (action k m ∷ [])) (λ _. pure 1) s ends
            (refl, ends.1))

    -- What one round leaves to do.
    round :
        (k : ℕ) (m : Message) (ms : List Message) (s : Keyspace) (q : Contents)
        → q ready ≡ reversed (m ∷ ms)
        → q held ≡ []
        → Represents c s q
        → (s' : Keyspace) × (exec (rounds consumer true (suc k) 1) s
            ≡ exec (rounds consumer true k 1) s')
          × Represents c s'
              (settle_one (clock k) m (action k m) (put held (m ∷ []) (put ready (reversed ms) q)))
    unfolding rounds create_from_message operation
    round k m ms s q e nothing h =
        let taken = take_step c is_ready (reversed ms) m s q e nothing h in
        let handled = handle-Ends k m (exec asked s).1 _ refl taken.1 in
        (
          (exec (handle consumer k m) (exec asked s).1).1,
          exec_after asked _ s taken.0
              ∙ exec_after (handle consumer k m) (λ n. rounds consumer true k (0 + n)) _ handled.0,
          handled.1,
        )

    abbrev go_on : ℕ → Option Value → Program (Unit {0})
    go_on k v = do m ← received consumer v; n ← handle consumer k m; rounds consumer true k (0 + n)

    -- With nothing to take, the consumer waits.
    idle :
        (k : ℕ) (s : Keyspace)
        → s.lists (place_key c ready) ≡ []
        → exec (rounds consumer true (suc k) 1) s ≡ (waiting, s)
    unfolding rounds
    idle k s e = exec-bind (go_on k) asked s ∙ ap (λ x. continue x (go_on k)) (blocked s e)

    drained :
        (ms : List Message) (k : ℕ) (s : Keyspace) (q : Contents)
        → length ms < k
        → q ready ≡ reversed ms
        → q held ≡ []
        → Represents c s q
        → ((exec (rounds consumer true k 1) s).0 ≡ waiting)
          × Represents c (exec (rounds consumer true k 1) s).1 (settle_all clock action k ms q)
          × (settle_all clock action k ms q ready ≡ [])
          × (settle_all clock action k ms q held ≡ [])
    unfolding settle_all
    drained ms zero s q more e nothing h = absurd (omega arith)
    drained [] (suc k) s q more e nothing h =
        rw (idle k s (h.lists ready ∙ ap encode e)) (refl, h, e, nothing)
    drained (m ∷ ms) (suc k) s q more e nothing h =
        let (s', same, h') = round k m ms s q e nothing h in
        let others =
          settle_one-others (clock k) m (action k m)
            (put held (m ∷ []) (put ready (reversed ms) q)) in
        rw same (drained ms k s' _ (omega arith) others.0 others.1 h')

-- A running consumer of a process that is connected to a server of a known version, without
-- priorities and with names that do not hold the separator, on a reliable server; whatever the user's
-- function does, provided that each handled message is settled exactly once. It comes to every message
-- that is ready, the last one first, and settles it by its action: with more rounds than messages the
-- run ends in waiting for the next message; no message is ready or held then, and each stands where
-- its action took it.
pub rounds-settle_all :
    (S : Server) (reliable : IsReliable S) (d : S.Db) (c : Setting) (is_ready : IsReady c)
    (fresh : Message) (clock : ℕ → ℕ) (user : ℕ → Message → List (Bool × ConsumeEvent))
    (action : ℕ → Message → Action) (ms : List Message) (k : ℕ) (q : Contents)
    → ((j : ℕ) (m : Message) → handle_received_message (clock j) m (user j m) ≡ action j m ∷ [])
    → length ms < k
    → Represents c (S.view d) q
    → q ready ≡ reversed ms
    → q held ≡ []
    → (result S (rounds (cycle_of c fresh clock user) true k 1) d ≡ waiting)
      × Represents c
          (content S (rounds (cycle_of c fresh clock user) true k 1) d)
          (settle_all clock action k ms q)
      × (settle_all clock action k ms q ready ≡ [])
      × (settle_all clock action k ms q held ≡ [])
rounds-settle_all S reliable d c is_ready fresh clock user action ms k q settles more h e nothing =
    let x = drained c is_ready fresh clock user action settles ms k (S.view d) q more e nothing h in
    let same = run-exec S reliable (rounds (cycle_of c fresh clock user) true k 1) d in
    (
      same.0 ∙ x.0,
      subst (λ s. Represents c s (settle_all clock action k ms q)) (sym same.1) x.1,
      x.2,
      x.3,
    )
