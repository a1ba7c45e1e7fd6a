-- ===== src/Broker/Refused.antt =====
-- src/system/broker.ts: what happens while the server refuses requests.
use redis_smq.Prelude.{Text, ℕ, Bool, true, false, Option, none, some, ◌≡◌, refl, ap, ◌∙◌}
use redis_smq.Errors.{Error, Result, ok, err}
use redis_smq.Message.{Message}
use redis_smq.Keys.Names.{queue_keys, get_global_keys}
use redis_smq.Redis.Command.{Command, Reply}
use redis_smq.Redis.Scripts.{Script}
use redis_smq.Redis.Program.{
  Request, Program, failed, send, single, script, if_ok, ◌>>=◌, ◌>>◌, pure,
}
use redis_smq.Redis.Client.{command, Version, lpoprpush, validate_redis_version, string_of}
use redis_smq.Redis.Client.Moves.{lpoprpush_old, lpoprpush_new}
use redis_smq.Redis.Server.{Server, run}
use redis_smq.Handlers.Processing.{dead_letter_message, acknowledge, delay_before_requeue, requeue}
use redis_smq.Broker.{
  Broker, Route, dead_letter, delay_before_requeuing, requeue_at_once, UnacknowledgedCause, route,
  follow, retry, acknowledge_message,
}

some_case :
    {A B : Type 0} (o : Option A) (f : A → B) (b : B) (a : A)
    → o ≡ some a
    → elim o [ some a ↦ f a | none ↦ b ] ≡ f a
some_case none f b a h = absurd (cc h)
some_case (some x) f b a h = cc

module _ (S : Server) (d : S.Db) (e : Error) (refuses : (r : Request) → S.fault r d ≡ some e) where
  run_refused :
      {A : Type 0} (r : Request) (k : Result Reply → Program A)
      → run S (send r k) d ≡ run S (k (err e)) d
  unfolding run
  run_refused r k = some_case (S.fault r d) _ _ e (refuses r)

  run_move :
      (v : Version) (a b : Text) (supported : Bool)
      → validate_redis_version (some v) 6 2 0 ≡ ok supported
      → run S (lpoprpush (some v) a b >> pure tt) d ≡ (failed e, d)
  unfolding run
  run_move v a b true h =
      ap (λ p. run S (p >> pure tt) d) (lpoprpush_new v a b (S.view d) h)
      ∙ run_refused (single (Command.lmove_left_right a b))
          (λ x. (if_ok pure x >>= λ r. pure (string_of r)) >> pure tt)
  run_move v a b false h =
      ap (λ p. run S (p >> pure tt) d) (lpoprpush_old v a b (S.view d) h)
      ∙ run_refused (script (Script.lpoprpush a b))
          (λ x. (if_ok pure x >>= λ r. pure (string_of r)) >> pure tt)

  run_any_move :
      (v : Version) (a b : Text) → run S (lpoprpush (some v) a b >> pure tt) d ≡ (failed e, d)
  unfolding validate_redis_version
  run_any_move v a b = run_move v a b _ refl

  run_rpoplpush : (a b : Text) → run S (command (Command.rpoplpush a b)) d ≡ (failed e, d)
  unfolding run
  run_rpoplpush a b =
      run_refused (single (Command.rpoplpush a b)) (λ x. if_ok pure x >>= λ r. pure tt)

  module _ (b : Broker) (v : Version) (connected : b.version ≡ some v)
      (name processing : Text) where
    run-follow : (r : Route) → run S (follow b name processing r) d ≡ (failed e, d)
    unfolding follow dead_letter_message delay_before_requeue requeue
    run-follow (dead_letter cause) =
        rw connected (run_any_move v processing (queue_keys b.namespace name).key_queue_dl)
    run-follow delay_before_requeuing = run_rpoplpush processing get_global_keys.key_queue_delay
    run-follow requeue_at_once = run_rpoplpush processing get_global_keys.key_queue_requeue

    -- While a server of a known version refuses every request with an error: `retry` and
    -- `acknowledgeMessage` fail with that error, and the database is as it was, so that the message is
    -- still in the processing queue.
    pub retry-acknowledge_message_refused :
        (now : ℕ) (m : Message) (cause : UnacknowledgedCause)
        → (run S (retry b now name processing m cause) d ≡ (failed e, d))
          × (run S (acknowledge_message b name processing) d ≡ (failed e, d))
    unfolding retry acknowledge_message acknowledge
    retry-acknowledge_message_refused now m cause = (
      run-follow (route now m cause),
      rw connected
          (run_any_move v processing (queue_keys b.namespace name).key_queue_acknowledged_messages),
    )
