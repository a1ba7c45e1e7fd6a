-- ===== src/MessageFlow/Counts.antt =====
-- src/system/broker.ts: counting the messages of a queue.
use redis_smq.Prelude.{ℕ, ◌+◌, Bool, List, [], ◌∷◌, ◌++◌, ◌≡◌, ap, arith, if◌then◌else◌}
use redis_smq.Message.{Message}
use redis_smq.MessageFlow.{
  Contents, Place, ready, held, acknowledged, dead, delayed, requeued, put, add_last,
}

module _ (test : Message → Bool) where
  -- How many messages pass the test.
  unfoldable pub count : List Message → ℕ
  count [] = 0
  count (m ∷ ms) = let rest = count ms in if test m then 1 + rest else rest

  -- The same at all places of a queue.
  abbrev pub total : Contents → ℕ
  total q =
      count (q ready)
      + count (q held)
      + count (q acknowledged)
      + count (q dead)
      + count (q delayed)
      + count (q requeued)

  pub count-append : (ms ns : List Message) → count (ms ++ ns) ≡ count ms + count ns
  unfolding count
  count-append [] ns = omega arith
  count-append (m ∷ ms) ns = ground (arith, count-append ms ns)

  pub total-put :
      (p : Place) (ms : List Message) (q : Contents)
      → total (put p ms q) + count (q p) ≡ total q + count ms
  total-put ready ms q = omega arith
  total-put held ms q = omega arith
  total-put acknowledged ms q = omega arith
  total-put dead ms q = omega arith
  total-put delayed ms q = omega arith
  total-put requeued ms q = omega arith

  pub total-add_last :
      (p : Place) (m : Message) (q : Contents) → total (add_last p m q) ≡ total q + count (m ∷ [])
  total-add_last p m q = omega (arith, total-put p (q p ++ m ∷ []) q, count-append (q p) (m ∷ []))

  pub count-cons : (m : Message) (ms : List Message) → count (m ∷ ms) ≡ count (m ∷ []) + count ms
  unfolding count
  count-cons m ms = ground arith

  pub total-add_first :
      (p : Place) (m : Message) (q : Contents)
      → total (put p (m ∷ q p) q) ≡ total q + count (m ∷ [])
  total-add_first p m q = omega (arith, total-put p (m ∷ q p) q, count-cons m (q p))

  pub total-release :
      (m : Message) (q : Contents)
      → q held ≡ m ∷ []
      → total (put held [] q) + count (m ∷ []) ≡ total q
  unfolding count
  total-release m q e = omega (arith, total-put held [] q, ap count e)
