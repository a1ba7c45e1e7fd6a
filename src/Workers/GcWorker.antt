-- ===== src/Workers/GcWorker.antt =====
-- src/system/workers/gc.worker.ts: one tick. `async.each` is taken in the order of the queues, each
-- queue's requests before the next one's.
pub mod Online
pub mod Foreign
use redis_smq.Prelude.{Text, text_eq, ℕ, false, Option, none, some, List, [], ◌∷◌, if◌then◌else◌}
use redis_smq.Errors.{Error, Result, ok, err, panic_error}
use redis_smq.Message.{Message}
use redis_smq.Keys.Parse.{extract_data, ExtractedData, consumer}
use redis_smq.Redis.Value.{Value, create_from_message}
use redis_smq.Redis.Client
use redis_smq.Redis.Program.{Program, pure, raise, lift, ◌>>=◌, ◌>>◌}
use redis_smq.LockManager.{settle}
use redis_smq.Broker.{Broker, recovery, retry}
use redis_smq.QueueManager.{delete_processing_queue, get_processing_queues}
use redis_smq.Heartbeat.{is_alive}

-- The worker: its broker, and the id of the consumer that started it.
pub record GcWorker : Type 0 where
  pub broker : Broker
  pub consumer_id : Text

unfoldable pub destroy_processing_queue : GcWorker → Text → Text → Program (Unit {0})
unfolding delete_processing_queue
destroy_processing_queue w name processing =
    delete_processing_queue w.broker.namespace name processing

abbrev pub collect : GcWorker → Message → ℕ → Text → Text → List Value → Program (Unit {0})
collect w fresh now name processing [] = destroy_processing_queue w name processing
collect w fresh now name processing (v ∷ vs) = do
  m ← lift (create_from_message fresh (some v) false)
  retry w.broker now name processing m recovery
  destroy_processing_queue w name processing

unfoldable pub handle_offline_consumer : GcWorker → Message → ℕ → Text → Text → Program (Unit {0})
unfolding destroy_processing_queue create_from_message
handle_offline_consumer w fresh now name processing =
    Client.lrange processing 0 0 >>= collect w fresh now name processing

-- `!extractedData || !extractedData.consumerId`, and then the queue and the consumer.
abbrev pub owner_of : Option ExtractedData → Option (Text × Text)
owner_of none = none
owner_of (some d) = elim d.owner [
  | consumer ↦ elim d.queue_name [
    | none ↦ none
    | some name ↦ elim d.owner_id [
      | none ↦ none
      | some [] ↦ none
      | some (c ∷ id) ↦ some (name, c ∷ id)
    ]
  ]
  | _ ↦ none
]

abbrev pub handle_owned : GcWorker → Message → ℕ → Text → Option (Text × Text) → Program (Unit {0})
handle_owned w fresh now processing none = raise panic_error
handle_owned w fresh now processing (some (name, id)) =
    if text_eq w.consumer_id id then pure tt else (do
      online ← is_alive w.broker.namespace now name id
      if online then pure tt else handle_offline_consumer w fresh now name processing)

-- The namespace of the processing queue is not looked at.
unfoldable pub handle_processing_queue : GcWorker → Message → ℕ → Text → Program (Unit {0})
unfolding is_alive handle_offline_consumer extract_data
handle_processing_queue w fresh now processing =
    handle_owned w fresh now processing (owner_of (extract_data processing))

abbrev key_of : Value → Text
key_of (Value.text t) = t
key_of v = []

abbrev report : Option Error → Program (Unit {0})
report none = pure tt
report (some e) = raise e

abbrev keep_first : Option Error → Result (Unit {0}) → Option Error
keep_first (some e) answer = some e
keep_first none (ok r) = none
keep_first none (err e) = some e

unfoldable pub handle_processing_queues :
    GcWorker → Message → ℕ → Option Error → List Value → Program (Unit {0})
unfolding handle_processing_queue
handle_processing_queues w fresh now first_error [] = report first_error
handle_processing_queues w fresh now first_error (v ∷ vs) =
    let rest = λ (e : Option Error). handle_processing_queues w fresh now e vs in
    settle (handle_processing_queue w fresh now (key_of v)) (λ r. rest (keep_first first_error r))

unfoldable pub on_tick : GcWorker → Message → ℕ → Program (Unit {0})
unfolding handle_processing_queues get_processing_queues
on_tick w fresh now = get_processing_queues >>= handle_processing_queues w fresh now none
