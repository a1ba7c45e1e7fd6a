-- ===== src/MessageFlow/Conserved.antt =====
-- src/system/broker.ts: no operation loses or doubles a message.
use redis_smq.Prelude.{
  ℕ, ◌+◌, Bool, Option, none, some, List, [], ◌∷◌, ◌++◌, ◌≡◌, refl, ap, ◌∙◌, arith, split_last,
  of_split_last, if◌then◌else◌, Bool-cases, inl, inr, subst,
}
use redis_smq.Message.{Message, is_schedulable}
use redis_smq.Redis.Value.{Value}
use redis_smq.Redis.Keyspace.{Keyspace}
use redis_smq.Redis.Server.{Server, IsReliable, content}
use redis_smq.Broker.{Route, dead_letter, delay_before_requeuing, requeue_at_once, route}
use redis_smq.Producer.Delivery.{delivered}
use redis_smq.Redis.Simulation.{and_reply, steps}
use redis_smq.MessageFlow.{
  Setting, Operation, produce, take_next, acknowledge, unacknowledge, operations, Contents, Place,
  ready, held, acknowledged, dead, delayed, requeued, put, add_last, hold, settle_by, abstract_step,
  abstract_steps,
}
use redis_smq.MessageFlow.Places.{Represents, place_key, encode}
use redis_smq.MessageFlow.Steps.{IsReady}
use redis_smq.MessageFlow.Counts.{
  total, total-put, total-add_last, total-add_first, total-release, count-append,
}
unfoldable use redis_smq.MessageFlow.Counts.{count}
use redis_smq.MessageFlow.Refine.{operations-Represents}

module _ (test : Message → Bool) where
  module _ (c : Setting) where
    abbrev pub produced_by : Operation → List Message
    produced_by (produce now m) = delivered c.broker.namespace c.name now m ∷ []
    produced_by o = []

    -- The messages that operations produce, as they are sent.
    abbrev pub produced : List Operation → List Message
    produced [] = []
    produced (o ∷ os) = produced_by o ++ produced os

    abbrev Keeps : ℕ → Option (Contents × Option Message) → Type 0
    Keeps n none = Unit
    Keeps n (some (q, r)) = total test q ≡ n

    hold-Keeps :
        (q : Contents) (x : Option (List Message × Message))
        → split_last (q ready) ≡ x
        → q held ≡ []
        → Keeps (total test q) (hold x q)
    unfolding count
    hold-Keeps q none e nothing = tt
    hold-Keeps q (some (ms, m)) e nothing = omega (
      arith,
      ap (count test) (of_split_last (q ready) e),
      ap (count test) nothing,
      count-append test ms (m ∷ []),
      total-put test held (m ∷ []) (put ready ms q),
      total-put test ready ms q,
    )

    total-settle_by :
        (r : Route) (m : Message) (q : Contents)
        → q held ≡ m ∷ []
        → total test (settle_by r m (put held [] q)) ≡ total test q
    total-settle_by (dead_letter cause) m q e =
        omega (arith, total-add_last test dead m (put held [] q), total-release test m q e)
    total-settle_by delay_before_requeuing m q e =
        omega (arith, total-add_first test delayed m (put held [] q), total-release test m q e)
    total-settle_by requeue_at_once m q e =
        omega (arith, total-add_first test requeued m (put held [] q), total-release test m q e)

    module _ (q : Contents) where
      take_by :
          (l : List Message)
          → q held ≡ l
          → Keeps (total test q) (elim l [ [] ↦ hold (split_last (q ready)) q | m ∷ ms ↦ none ])
      take_by [] e = hold-Keeps q (split_last (q ready)) refl e
      take_by (m ∷ ms) e = tt

      settle_by_one :
          (settled : Message → Contents) (l : List Message)
          → ((m : Message) → q held ≡ m ∷ [] → total test (settled m) ≡ total test q)
          → q held ≡ l
          → Keeps (total test q) (elim l [ m ∷ [] ↦ some (settled m, none) | _ ↦ none ])
      settle_by_one settled [] h e = tt
      settle_by_one settled (m ∷ []) h e = h m e
      settle_by_one settled (m ∷ n ∷ ms) h e = tt

      no_more :
          (a : Option (Contents × Option Message))
          → Keeps (total test q) a
          → Keeps (total test q + 0) a
      no_more a h = subst (λ n. Keeps n a) (omega arith) h

      step-Keeps :
          (o : Operation) → Keeps (total test q + count test (produced_by o)) (abstract_step c o q)
      unfolding abstract_step count
      step-Keeps (produce now m) = elim (Bool-cases (is_schedulable m)) [
        | inl b ↦ rw b tt
        | inr b ↦ rw b (total-add_last test ready (delivered c.broker.namespace c.name now m) q)
      ]
      step-Keeps take_next = no_more _ (take_by (q held) refl)
      step-Keeps acknowledge = no_more _ (
          settle_by_one (λ m. add_last acknowledged m (put held [] q)) (q held)
            (λ m e.
              omega (
                arith,
                total-add_last test acknowledged m (put held [] q),
                total-release test m q e,
              ))
            refl)
      step-Keeps (unacknowledge now m cause) = no_more _ (
          settle_by_one (λ h. settle_by (route now m cause) h (put held [] q)) (q held)
            (λ h e. total-settle_by (route now m cause) h q e) refl)

    abbrev AllKeep : ℕ → Option (Contents × List (Option Message)) → Type 0
    AllKeep n none = Unit
    AllKeep n (some (q, rs)) = total test q ≡ n

    reply-AllKeep :
        (n n' : ℕ) (r : Option Message) (t : Option (Contents × List (Option Message)))
        → n ≡ n'
        → AllKeep n t
        → AllKeep n' (and_reply r t)
    reply-AllKeep n n' r none same h = tt
    reply-AllKeep n n' r (some (q, rs)) same h = h ∙ same

    cons-AllKeep :
        (q : Contents) (o : Operation) (os : List Operation)
        (a : Option (Contents × Option Message))
        → Keeps (total test q + count test (produced_by o)) a
        → ((q' : Contents)
            → AllKeep (total test q' + count test (produced os)) (abstract_steps c os q'))
        → AllKeep
            (total test q + count test (produced (o ∷ os)))
            (elim a [ none ↦ none | some (q', r) ↦ and_reply r (abstract_steps c os q') ])
    cons-AllKeep q o os none h rest = tt
    cons-AllKeep q o os (some (q', r)) h rest =
        reply-AllKeep (total test q' + count test (produced os)) _ r (abstract_steps c os q')
          (omega (arith, h, count-append test (produced_by o) (produced os))) (rest q')

    steps-AllKeep :
        (os : List Operation) (q : Contents)
        → AllKeep (total test q + count test (produced os)) (abstract_steps c os q)
    unfolding steps count
    steps-AllKeep [] q = omega arith
    steps-AllKeep (o ∷ os) q =
        cons-AllKeep q o os (abstract_step c o q) (step-Keeps q o) (steps-AllKeep os)

  -- The stored messages of a list that pass the test.
  unfoldable pub count_values : List Value → ℕ
  count_values [] = 0
  count_values (Value.message m ∷ vs) =
      let rest = count_values vs in if test m then 1 + rest else rest
  count_values (v ∷ vs) = count_values vs

  -- The same at all places of a queue.
  abbrev pub standing : Setting → Keyspace → ℕ
  standing c s =
      count_values (s.lists (place_key c ready))
      + count_values (s.lists (place_key c held))
      + count_values (s.lists (place_key c acknowledged))
      + count_values (s.lists (place_key c dead))
      + count_values (s.lists (place_key c delayed))
      + count_values (s.lists (place_key c requeued))

  count_values-encode : (ms : List Message) → count_values (encode ms) ≡ count test ms
  unfolding count count_values
  count_values-encode [] = refl
  count_values-encode (m ∷ ms) = ground (arith, count_values-encode ms)

  standing-total :
      (c : Setting) (s : Keyspace) (q : Contents) → Represents c s q → standing c s ≡ total test q
  standing-total c s q h =
      omega (arith, at ready, at held, at acknowledged, at dead, at delayed, at requeued)
    where
      at : (p : Place) → count_values (s.lists (place_key c p)) ≡ count test (q p)
      at p = ap count_values (h.lists p) ∙ count_values-encode (q p)

  -- Under the conditions of the refinement, whatever operations are done that have their place: for
  -- every test, as many messages that pass it stand at all places of the queue together (ready, held,
  -- acknowledged, dead-lettered, delayed, requeued) as stood there before and were produced by the
  -- operations.
  pub operations-standing :
      (S : Server) (reliable : IsReliable S) (d : S.Db) (c : Setting) (is_ready : IsReady c)
      (os : List Operation) (q : Contents) {q' : Contents} {rs : List (Option Message)}
      → Represents c (S.view d) q
      → abstract_steps c os q ≡ some (q', rs)
      → standing c (content S (operations c os) d)
        ≡ standing c (S.view d) + count test (produced c os)
  operations-standing S reliable d c is_ready os q {q'} {rs} h e = omega (
    arith,
    standing-total c _ q' (operations-Represents S reliable d c is_ready os q h e).1,
    standing-total c (S.view d) q h,
    subst (AllKeep c (total test q + count test (produced c os))) e (steps-AllKeep c os q),
  )
