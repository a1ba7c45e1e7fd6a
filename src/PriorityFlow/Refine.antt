-- ===== src/PriorityFlow/Refine.antt =====
-- src/system/broker.ts with priorities on Redis implements the abstract queue.
use redis_smq.Prelude.{
  ℕ, false, ◌||◌, Option, none, some, List, [], ◌∷◌, ◌≡◌, refl, arith, map, Bool-cases, inl, inr,
}
use redis_smq.Message.{Message, is_schedulable, reset, set_queue, set_published_at}
use redis_smq.Redis.Value.{Value}
use redis_smq.Redis.Keyspace.{Keyspace}
use redis_smq.Redis.Program.{Outcome, done, exec}
use redis_smq.Redis.Server.{Server, IsReliable, result, content}
use redis_smq.Redis.Simulation
use redis_smq.Redis.Simulation.{simulates_on}
use redis_smq.Producer.{prepare}
use redis_smq.MessageFlow.{
  Setting, Operation, produce, take_next, acknowledge, unacknowledge, operation, operations,
}
use redis_smq.MessageFlow.Steps.{encode_reply}
use redis_smq.Redis.Keyspace.Ids.{has_id}
use redis_smq.PriorityFlow.{
  PriorityQueue, enqueued, insert_by_priority, take_first, abstract_step, abstract_steps,
}
use redis_smq.PriorityFlow.Steps.{
  Represents, IsReady, exec-produce, added-Represents, exec-take, taken-Represents,
}

module _ (c : Setting) (is_ready : IsReady c) where
  abbrev Follows :
      Outcome (Option Value) × Keyspace → Option (PriorityQueue × Option Message) → Type 0
  Follows = Simulation.Follows (operation c) (abstract_step c) encode_reply (Represents c)

  by-Follows :
      (x y : Outcome (Option Value) × Keyspace) (a : Option (PriorityQueue × Option Message))
      → x ≡ y
      → Follows y a
      → Follows x a
  by-Follows x y a e h = rw e h

  take_by :
      (s : Keyspace) (l held : List Message)
      → Represents c s (record { pending = l; processing = held })
      → Follows
          (exec (operation c take_next) s)
          (take_first (record { pending = l; processing = held }) l)
  take_by s [] held h = tt
  take_by s (m ∷ ms) held h =
      by-Follows _ _ (take_first (record { pending = m ∷ ms; processing = held }) (m ∷ ms))
        (exec-take c is_ready m ms s h.ranked h.stored_ok.0 h.is_zset)
        (refl, taken-Represents c is_ready m ms held s h)

  enqueued-has_id :
      (now : ℕ) (m : Message) (ms : List Message)
      → has_id m.uuid ms ≡ false
      → has_id (enqueued c now m).uuid ms ≡ false
  unfolding set_published_at prepare reset set_queue
  enqueued-has_id now m ms h = h

  step-Follows :
      (o : Operation) (s : Keyspace) (q : PriorityQueue)
      → Represents c s q
      → Follows (exec (operation c o) s) (abstract_step c o q)
  unfolding abstract_step
  step-Follows (produce now m) s q h =
      elim (Bool-cases (is_schedulable m || has_id m.uuid q.pending)) [
        | inl b ↦ rw b tt
        | inr b ↦ rw b (
            by-Follows _ _
              (some (record q { pending = insert_by_priority (enqueued c now m) q.pending }, none))
              (exec-produce c is_ready now m s (ground arith))
              (
                refl,
                added-Represents c is_ready (enqueued c now m) s q
                    (enqueued-has_id now m q.pending (ground arith)) h,
              ))
      ]
  step-Follows take_next s q h = take_by s q.pending q.processing h
  step-Follows acknowledge s q h = tt
  step-Follows (unacknowledge now m cause) s q h = tt

-- For a process with priorities and with names that do not hold the separator, on a reliable server
-- whose database represents an abstract queue with priorities: whatever messages are produced and taken
-- that have their place there, the run on Redis hands out the messages that the abstract queue hands
-- out, and the database represents the abstract queue after them.
pub operations-Represents_by_priority :
    (S : Server) (reliable : IsReliable S) (d : S.Db) (c : Setting) (is_ready : IsReady c)
    (os : List Operation) (q : PriorityQueue) {q' : PriorityQueue} {rs : List (Option Message)}
    → Represents c (S.view d) q
    → abstract_steps c os q ≡ some (q', rs)
    → (result S (operations c os) d ≡ done (map encode_reply rs))
      × Represents c (content S (operations c os) d) q'
operations-Represents_by_priority S reliable d c is_ready os q h e =
    simulates_on (operation c) (abstract_step c) encode_reply (Represents c)
      (step-Follows c is_ready) S reliable d os q e h
