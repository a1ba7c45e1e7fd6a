-- ===== src/MonitorServer/Moves.antt =====
-- src/system/message-manager/handlers/requeue.handler.ts as the monitor server calls it: with the priority
-- of a request, if it has one.
use redis_smq.Prelude.{
  ℕ, Text, leb, Bool, true, false, Option, none, some, List, [], ◌∷◌, ◌≡◌, refl, ap, sym, ◌∙◌,
  get_elem?, Bool-cases, inl, inr, if◌then◌else◌, arith,
}
use redis_smq.Handlers.Requeue.{requeue_commands}
use redis_smq.Handlers.Requeue.Sent.{sent-requeue_list_message, transaction_of}
use redis_smq.Redis.Requests.{sent}
use redis_smq.Redis.Program.{Request, single, transaction}
use redis_smq.Keys.{or_namespace}
use redis_smq.Errors.{Result, ok, err, argument_error}
use redis_smq.Message.{Message}
use redis_smq.Redis.Value.{Value}
use redis_smq.Redis.Keyspace.{Keyspace}
use redis_smq.Redis.Command.{Command}
use redis_smq.Redis.Program.{Outcome, done, failed, exec, effects}
use redis_smq.Handlers.Requeue.{requeue_list_message}
use redis_smq.Handlers.Requeue.Requeued.{moves, exec-found, requeue_commands_lem}
use redis_smq.Handlers.Requeue.Prioritised.{
  priority_moves, exec-requeue_served, exec-requeue_refused, requeue_commands-served,
  requeue_commands-refused,
}
use redis_smq.MonitorServer.Services.{is_given}

-- The priorities go from 0 to 7.
abbrev pub is_served : Option ℕ → Bool
is_served none = true
is_served (some p) = leb p 7

-- What the transaction does with the message.
abbrev pub moves_for : ℕ → Text → Text → Text → Option ℕ → Message → List Command
moves_for now ns name from none m = moves now ns name from m
moves_for now ns name from (some p) m = priority_moves now ns name from p m

module _ (namespace : Text) (fresh : Message) (now : ℕ) (name ns from : Text) (i : ℕ)
    (message_id : Text) (s : Keyspace) (m : Message)
    (e : get_elem? (s.lists from) i ≡ some (Value.message m)) (same : m.uuid ≡ message_id) where
  abbrev pub outcome : Bool → Option ℕ → Outcome (Unit {0}) × Keyspace
  outcome b o =
      if b
      then (done tt, effects (moves_for now ns name from o m) s)
      else (failed argument_error, s)

  pub exec-requeuing :
      (o : Option ℕ)
      → exec
          (requeue_list_message namespace fresh now name (some ns) from i message_id (is_given o) o)
          s
        ≡ outcome (is_served o) o
  exec-requeuing none = exec-found namespace fresh now name (some ns) from i message_id s m e same
  exec-requeuing (some p) = elim (Bool-cases (leb p 7)) [
    | inl b ↦
        exec-requeue_served namespace fresh now name (some ns) from i message_id s p m e same
          (ground arith)
        ∙ ap (λ c. outcome c (some p)) (sym b)
    | inr b ↦
        exec-requeue_refused namespace fresh now name (some ns) from i message_id s p m e same
          (ground arith)
        ∙ ap (λ c. outcome c (some p)) (sym b)
  ]

  abbrev commands_for : Bool → Option ℕ → Result (List Command)
  commands_for b o = if b then ok (moves_for now ns name from o m) else err argument_error

  requeue_commands-commands_for :
      (o : Option ℕ)
      → requeue_commands now (or_namespace (some ns) namespace) name from (is_given o) o m
        ≡ commands_for (is_served o) o
  requeue_commands-commands_for none = requeue_commands_lem now ns name from m
  requeue_commands-commands_for (some p) = elim (Bool-cases (leb p 7)) [
    | inl b ↦
        requeue_commands-served now ns name from p m (ground arith)
        ∙ ap (λ c. commands_for c (some p)) (sym b)
    | inr b ↦
        requeue_commands-refused now ns name from p m (ground arith)
        ∙ ap (λ c. commands_for c (some p)) (sym b)
  ]

  -- The message is looked up, and then there is one transaction or nothing.
  abbrev pub requests_for : Bool → Option ℕ → List Request
  requests_for b o =
      single (Command.lrange from i i)
      ∷ (if b then transaction (moves_for now ns name from o m) ∷ [] else [])

  transaction_of-commands_for :
      (b : Bool) (o : Option ℕ)
      → single (Command.lrange from i i) ∷ transaction_of (commands_for b o) ≡ requests_for b o
  transaction_of-commands_for true o = refl
  transaction_of-commands_for false o = refl

  pub sent-requeuing :
      (o : Option ℕ)
      → sent
          (requeue_list_message namespace fresh now name (some ns) from i message_id (is_given o) o)
          s
        ≡ requests_for (is_served o) o
  sent-requeuing o =
      sent-requeue_list_message namespace fresh now name (some ns) from i message_id s m e same
        (is_given o) o (requeue_commands-commands_for o)
      ∙ transaction_of-commands_for (is_served o) o
