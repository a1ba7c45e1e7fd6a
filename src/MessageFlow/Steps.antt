-- ===== src/MessageFlow/Steps.antt =====
-- src/system/broker.ts: what one operation does to the lists of a queue.
use redis_smq.Prelude.{ℕ, false, Option, none, some, List, [], ◌∷◌, ◌++◌, ◌≡◌, refl, ap, ◌∙◌}
use redis_smq.Message.{Message, is_schedulable}
use redis_smq.Redis.Value.{Value}
use redis_smq.Redis.Keyspace.{Keyspace, set_list}
use redis_smq.Redis.Client.{Version}
use redis_smq.Redis.Program.{
  Program, Outcome, done, exec, exec-bind, continue, exec_after, pure, ◌>>=◌, ◌>>◌,
}
use redis_smq.Handlers.Processing.Settling.{HasNames}
use redis_smq.Broker.{
  UnacknowledgedCause, Route, dead_letter, delay_before_requeuing, requeue_at_once, route, retry,
  acknowledge_message,
}
use redis_smq.Broker.Retries.{routed, exec-follow, exec-acknowledge_message}
use redis_smq.Producer.Delivery.{exec-proceed, exec-dequeue, delivered}
use redis_smq.MessageFlow.{
  Setting, processing_of, produce, take_next, acknowledge, unacknowledge, operation, Contents,
  ready, held, acknowledged, dead, delayed, requeued, put, add_last, settle_by,
}
use redis_smq.MessageFlow.Places.{
  Represents, place_key, encode, encode-append, set_list-Represents, set_first-Represents,
  set_last-Represents,
}

-- A run that ends with a result in a database that represents an abstract queue.
abbrev pub Ends : {A : Type 0} → Setting → Outcome A × Keyspace → A → Contents → Type 0
Ends c x a q = (x.0 ≡ done a) × Represents c x.1 q

abbrev pub encode_reply : Option Message → Option Value
encode_reply none = none
encode_reply (some m) = some (Value.message m)

by-Ends :
    {A : Type 0} (c : Setting) {x : Outcome A × Keyspace} {a : A} {s : Keyspace} {q : Contents}
    → x ≡ (done a, s)
    → Represents c s q
    → Ends c x a q
by-Ends c e h = rw e (refl, h)

-- One run after another.
pub bind-Ends :
    {A B : Type 0} (c : Setting) (p : Program A) (f : A → Program B) (s : Keyspace) {a : A} {b : B}
    {q q' : Contents}
    → Ends c (exec p s) a q
    → Ends c (exec (f a) (exec p s).1) b q'
    → Ends c (exec (p >>= f) s) b q'
bind-Ends c p f s first rest = rw (exec_after p f s first.0) rest

-- The process is connected to a server of a known version, works without priorities, and its names
-- do not hold the separator.
pub record IsReady (c : Setting) : Type 0 where
  pub version : Version
  pub connected : c.broker.version ≡ some version
  pub lifo : c.broker.priority_queue ≡ false
  pub names : HasNames c.broker.namespace c.name c.id

module _ (c : Setting) (is_ready : IsReady c) where
  abbrev then_nothing : {A : Type 0} → Program A → Program (Option Value)
  then_nothing p = p >> pure none

  exec-then_nothing :
      {A : Type 0} (p : Program A) (s : Keyspace) {a : A} {s' : Keyspace}
      → exec p s ≡ (done a, s')
      → exec (then_nothing p) s ≡ (done none, s')
  unfolding exec
  exec-then_nothing p s e = exec-bind (λ _. pure none) p s ∙ ap (λ x. continue x (λ _. pure none)) e

  pub produce_step :
      (now : ℕ) (m : Message) (s : Keyspace) (q : Contents)
      → is_schedulable m ≡ false
      → Represents c s q
      → Ends c
          (exec (operation c (produce now m)) s)
          none
          (add_last ready (delivered c.broker.namespace c.name now m) q)
  unfolding operation
  produce_step now m s q plain h =
      by-Ends c
        (exec-then_nothing _ s
          (exec-proceed c.broker is_ready.lifo c.name c.next_cron now m s plain))
        (set_last-Represents c is_ready.names ready _ (h.lists ready) h)

  pub take_step :
      (ms : List Message) (m : Message) (s : Keyspace) (q : Contents)
      → q ready ≡ ms ++ m ∷ []
      → q held ≡ []
      → Represents c s q
      → Ends c
          (exec (operation c take_next) s)
          (some (Value.message m))
          (put held (m ∷ []) (put ready ms q))
  unfolding operation
  take_step ms m s q e nothing h =
      by-Ends c
        (exec-dequeue c.broker is_ready.lifo c.name c.id is_ready.names c.polls (encode ms)
          (Value.message m) s (h.lists ready ∙ ap encode e ∙ encode-append ms (m ∷ [])))
        (set_list-Represents c is_ready.names held (m ∷ [])
          (ap (λ t. Value.message m ∷ t) (taken.lists held ∙ ap encode nothing)) taken)
    where
      taken : Represents c (set_list (place_key c ready) (encode ms) s) (put ready ms q)
      taken = set_list-Represents c is_ready.names ready ms refl h

  module _ (m : Message) (s : Keyspace) (q : Contents) (only : q held ≡ m ∷ [])
      (h : Represents c s q) where
    one_held : s.lists (processing_of c) ≡ Value.message m ∷ []
    one_held = h.lists held ∙ ap encode only

    released : Represents c (set_list (processing_of c) [] s) (put held [] q)
    released = set_list-Represents c is_ready.names held [] refl h

    pub routed-Represents :
        (r : Route)
        → Represents c
            (routed c.broker.namespace c.name c.id r (Value.message m) s)
            (settle_by r m (put held [] q))
    routed-Represents (dead_letter cause) =
        set_last-Represents c is_ready.names dead m (h.lists dead) released
    routed-Represents delay_before_requeuing =
        set_first-Represents c is_ready.names delayed m (h.lists delayed) released
    routed-Represents requeue_at_once =
        set_first-Represents c is_ready.names requeued m (h.lists requeued) released

    pub exec-retry :
        (now : ℕ) (mine : Message) (cause : UnacknowledgedCause)
        → exec (retry c.broker now c.name (processing_of c) mine cause) s ≡ (
          done tt,
          routed c.broker.namespace c.name c.id (route now mine cause) (Value.message m) s,
        )
    unfolding retry
    exec-retry now mine cause =
        exec-follow s c.broker is_ready.version is_ready.connected c.name c.id is_ready.names
          (Value.message m) one_held h.is_list (route now mine cause)

    pub retry-Ends :
        (now : ℕ) (mine : Message) (cause : UnacknowledgedCause)
        → Ends c
            (exec (retry c.broker now c.name (processing_of c) mine cause) s)
            tt
            (settle_by (route now mine cause) m (put held [] q))
    retry-Ends now mine cause =
        by-Ends c (exec-retry now mine cause) (routed-Represents (route now mine cause))

    pub acknowledge_message-Ends :
        Ends c
          (exec (acknowledge_message c.broker c.name (processing_of c)) s)
          tt
          (add_last acknowledged m (put held [] q))
    acknowledge_message-Ends =
        by-Ends c
          (exec-acknowledge_message s c.broker is_ready.version is_ready.connected c.name c.id
            is_ready.names (Value.message m) one_held h.is_list)
          (set_last-Represents c is_ready.names acknowledged m (h.lists acknowledged) released)

    pub unacknowledge_step :
        (now : ℕ) (mine : Message) (cause : UnacknowledgedCause)
        → Ends c
            (exec (operation c (unacknowledge now mine cause)) s)
            none
            (settle_by (route now mine cause) m (put held [] q))
    unfolding operation exec
    unacknowledge_step now mine cause =
        let ends = retry-Ends now mine cause in
        bind-Ends c (retry c.broker now c.name (processing_of c) mine cause) (λ _. pure none) s ends
          (refl, ends.1)

    pub acknowledge_step :
        Ends c (exec (operation c acknowledge) s) none (add_last acknowledged m (put held [] q))
    unfolding operation exec
    acknowledge_step =
        bind-Ends c (acknowledge_message c.broker c.name (processing_of c)) (λ _. pure none) s
          acknowledge_message-Ends (refl, acknowledge_message-Ends.1)
