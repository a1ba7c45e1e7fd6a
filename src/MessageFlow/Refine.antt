-- ===== src/MessageFlow/Refine.antt =====
-- src/system/broker.ts on Redis implements the abstract queue.
use redis_smq.Prelude.{
  ℕ, Option, none, some, List, [], ◌∷◌, ◌≡◌, refl, ◌∙◌, map, Option-cases, Bool-cases, inl, inr,
  split_last, of_split_last,
}
use redis_smq.Message.{Message, is_schedulable}
use redis_smq.Redis.Value.{Value}
use redis_smq.Redis.Keyspace.{Keyspace}
use redis_smq.Redis.Program.{Outcome, done, exec}
use redis_smq.Redis.Server.{Server, IsReliable, result, content}
use redis_smq.Broker.{UnacknowledgedCause, route}
use redis_smq.Redis.Simulation
use redis_smq.Redis.Simulation.{simulates_on, steps}
use redis_smq.MessageFlow.{
  Setting, Operation, produce, take_next, acknowledge, unacknowledge, operation, operations,
  Contents, ready, held, acknowledged, put, add_last, hold, settle_by, abstract_step,
  abstract_steps,
}
use redis_smq.MessageFlow.Steps.{
  encode_reply, IsReady, produce_step, take_step, acknowledge_step, unacknowledge_step,
}
use redis_smq.MessageFlow.Places.{Represents}

module _ (c : Setting) (is_ready : IsReady c) where
  abbrev Follows : Outcome (Option Value) × Keyspace → Option (Contents × Option Message) → Type 0
  Follows = Simulation.Follows (operation c) (abstract_step c) encode_reply (Represents c)

  take-Follows :
      (s : Keyspace) (q : Contents) (l : List Message)
      → q ready ≡ l
      → q held ≡ []
      → Represents c s q
      → Follows (exec (operation c take_next) s) (hold (split_last l) q)
  take-Follows s q l e nothing h = elim (Option-cases (split_last l)) [
    | inl n ↦ rw n tt
    | inr (x, n) ↦ rw n (take_step c is_ready x.0 x.1 s q (e ∙ of_split_last l n) nothing h)
  ]

  module _ (s : Keyspace) (q : Contents) (h : Represents c s q) where
    take_by :
        (l : List Message)
        → q held ≡ l
        → Follows
            (exec (operation c take_next) s)
            (elim l [ [] ↦ hold (split_last (q ready)) q | m ∷ ms ↦ none ])
    take_by [] e = take-Follows s q (q ready) refl e h
    take_by (m ∷ ms) e = tt

    acknowledge_by :
        (l : List Message)
        → q held ≡ l
        → Follows
            (exec (operation c acknowledge) s)
            (elim l [ m ∷ [] ↦ some (add_last acknowledged m (put held [] q), none) | _ ↦ none ])
    acknowledge_by [] e = tt
    acknowledge_by (m ∷ []) e = acknowledge_step c is_ready m s q e h
    acknowledge_by (m ∷ n ∷ ms) e = tt

    unacknowledge_by :
        (now : ℕ) (mine : Message) (cause : UnacknowledgedCause) (l : List Message)
        → q held ≡ l
        → Follows (exec (operation c (unacknowledge now mine cause)) s) (elim l [
          | m ∷ [] ↦ some (settle_by (route now mine cause) m (put held [] q), none)
          | _ ↦ none
        ])
    unacknowledge_by now mine cause [] e = tt
    unacknowledge_by now mine cause (m ∷ []) e =
        unacknowledge_step c is_ready m s q e h now mine cause
    unacknowledge_by now mine cause (m ∷ n ∷ ms) e = tt

    step-Follows : (o : Operation) → Follows (exec (operation c o) s) (abstract_step c o q)
    unfolding abstract_step
    step-Follows (produce now m) = elim (Bool-cases (is_schedulable m)) [
      | inl b ↦ rw b tt
      | inr b ↦ rw b (produce_step c is_ready now m s q b h)
    ]
    step-Follows take_next = take_by (q held) refl
    step-Follows acknowledge = acknowledge_by (q held) refl
    step-Follows (unacknowledge now m cause) = unacknowledge_by now m cause (q held) refl

-- For a process that is connected to a server of a known version, without priorities and with names
-- that do not hold the separator, on a reliable server whose database represents an abstract queue:
-- whatever operations on that queue are done that have their place there, the run on Redis hands out
-- the messages that the abstract queue hands out, and the database represents the abstract queue
-- after them.
pub operations-Represents :
    (S : Server) (reliable : IsReliable S) (d : S.Db) (c : Setting) (is_ready : IsReady c)
    (os : List Operation) (q : Contents) {q' : Contents} {rs : List (Option Message)}
    → Represents c (S.view d) q
    → abstract_steps c os q ≡ some (q', rs)
    → (result S (operations c os) d ≡ done (map encode_reply rs))
      × Represents c (content S (operations c os) d) q'
operations-Represents S reliable d c is_ready os q h e =
    simulates_on (operation c) (abstract_step c) encode_reply (Represents c)
      (λ o s q' r. step-Follows c is_ready s q' r o) S reliable d os q e h
