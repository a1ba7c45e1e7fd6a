-- ===== src/PriorityFlow/Order.antt =====
-- src/system/message-manager/handlers/enqueue.handler.ts and dequeue.handler.ts: messages are delivered
-- in the order of their priorities.
use redis_smq.Prelude.{
  ℕ, ◌≤◌, ◌||◌, true, false, Option, some, List, [], ◌∷◌, ◌++◌, ◌≡◌, ap, sym, ◌∙◌, arith, map,
  Bool-cases, inl, inr, append-nil, append_assoc,
}
use redis_smq.Message.{Message, is_schedulable}
use redis_smq.Message.Priority.{priority_of}
use redis_smq.Redis.Program.{done}
use redis_smq.Redis.Server.{Server, IsReliable, result, content}
use redis_smq.Redis.Simulation.{steps, and_reply, Then, steps_keep, steps-append}
use redis_smq.MessageFlow.{
  Setting, Operation, produce, take_next, acknowledge, unacknowledge, operations,
}
use redis_smq.MessageFlow.Steps.{encode_reply}
use redis_smq.Redis.Keyspace.Ids.{has_id}
use redis_smq.PriorityFlow.{
  PriorityQueue, enqueued, insert_by_priority, goes_before, take_first, abstract_step,
  abstract_steps,
}
use redis_smq.PriorityFlow.Steps.{Represents, IsReady}
use redis_smq.PriorityFlow.Refine.{operations-Represents_by_priority}

-- None of the messages has a higher priority, that is a lower number.
abbrev pub AllFrom : ℕ → List Message → Type 0
AllFrom p [] = Unit
AllFrom p (m ∷ ms) = (p ≤ priority_of m) × AllFrom p ms

abbrev pub IsSorted : List Message → Type 0
IsSorted [] = Unit
IsSorted (m ∷ ms) = AllFrom (priority_of m) ms × IsSorted ms

AllFrom-le : (p p' : ℕ) (ms : List Message) → p ≤ p' → AllFrom p' ms → AllFrom p ms
AllFrom-le p p' [] h a = tt
AllFrom-le p p' (m ∷ ms) h a = (omega arith, AllFrom-le p p' ms h a.1)

AllFrom-insert :
    (p : ℕ) (m : Message) (ms : List Message)
    → p ≤ priority_of m
    → AllFrom p ms
    → AllFrom p (insert_by_priority m ms)
unfolding insert_by_priority
AllFrom-insert p m [] h a = (h, tt)
AllFrom-insert p m (x ∷ xs) h a = elim (Bool-cases (goes_before m x)) [
  | inl b ↦ rw b (h, a)
  | inr b ↦ rw b (a.0, AllFrom-insert p m xs h a.1)
]

before-le : (m x : Message) → goes_before m x ≡ true → priority_of m ≤ priority_of x
before-le m x b = ground arith

not_before-le : (m x : Message) → goes_before m x ≡ false → priority_of x ≤ priority_of m
not_before-le m x b = ground arith

insert_by_priority-IsSorted :
    (m : Message) (ms : List Message) → IsSorted ms → IsSorted (insert_by_priority m ms)
unfolding insert_by_priority
insert_by_priority-IsSorted m [] s = (tt, tt)
insert_by_priority-IsSorted m (x ∷ xs) s = elim (Bool-cases (goes_before m x)) [
  | inl b ↦
      let le = before-le m x b in
      rw b ((le, AllFrom-le (priority_of m) (priority_of x) xs le s.0), s)
  | inr b ↦ rw b (
    AllFrom-insert (priority_of x) m xs (not_before-le m x b) s.0,
    insert_by_priority-IsSorted m xs s.1,
  )
]

module _ (c : Setting) where
  abbrev IsInOrder : PriorityQueue → Type 0
  IsInOrder q = IsSorted q.pending

  take_first-IsInOrder :
      (q : PriorityQueue) (l : List Message) → IsSorted l → Then IsInOrder (take_first q l)
  take_first-IsInOrder q [] s = tt
  take_first-IsInOrder q (m ∷ ms) s = s.1

  step-IsInOrder :
      (o : Operation) (q : PriorityQueue) → IsInOrder q → Then IsInOrder (abstract_step c o q)
  unfolding abstract_step
  step-IsInOrder (produce now m) q s =
      elim (Bool-cases (is_schedulable m || has_id m.uuid q.pending)) [
        | inl b ↦ rw b tt
        | inr b ↦ rw b (insert_by_priority-IsSorted (enqueued c now m) q.pending s)
      ]
  step-IsInOrder take_next q s = take_first-IsInOrder q q.pending s
  step-IsInOrder acknowledge q s = tt
  step-IsInOrder (unacknowledge now m cause) q s = tt

  -- As many takes as there are messages.
  abbrev pub takes : List Message → List Operation
  takes [] = []
  takes (m ∷ ms) = take_next ∷ takes ms

  abbrev pub all_taken : List Message → List (Option Message)
  all_taken ms = map some ms

  drained :
      (l held : List Message)
      → abstract_steps c (takes l) (record { pending = l; processing = held })
        ≡ some (record { pending = []; processing = held ++ l }, all_taken l)
  unfolding steps abstract_step
  drained [] held =
      ap (λ h. some (record { pending = []; processing = h }, [])) (sym (append-nil held))
  drained (m ∷ ms) held =
      ap (and_reply (some m)) (drained ms (held ++ m ∷ []))
      ∙ ap (λ h. some (record { pending = []; processing = h }, some m ∷ all_taken ms))
          (append_assoc held (m ∷ []) ms)

-- Under the conditions of the refinement, from messages that are in order (such as none): whatever
-- messages are produced and taken, those that wait then are in the order of their priorities, and
-- taking as many hands out just these, in this order, and leaves none.
pub operations-IsSorted :
    (S : Server) (reliable : IsReliable S) (d : S.Db) (c : Setting) (is_ready : IsReady c)
    (os : List Operation) (q : PriorityQueue) {q' : PriorityQueue} {rs : List (Option Message)}
    → Represents c (S.view d) q
    → IsSorted q.pending
    → abstract_steps c os q ≡ some (q', rs)
    → IsSorted q'.pending
      × (result S (operations c (os ++ takes c q'.pending)) d
          ≡ done (map encode_reply (rs ++ all_taken c q'.pending)))
      × Represents c
          (content S (operations c (os ++ takes c q'.pending)) d)
          (record { pending = []; processing = q'.processing ++ q'.pending })
operations-IsSorted S reliable d c is_ready os q {q'} {rs} h sorted e =
    let all =
      operations-Represents_by_priority S reliable d c is_ready (os ++ takes c q'.pending) q h (
        steps-append (abstract_step c) os (takes c q'.pending) q e
          (drained c q'.pending q'.processing)) in
    (steps_keep (abstract_step c) (IsInOrder c) (step-IsInOrder c) os q e sorted, all.0, all.1)
