-- ===== src/ConsumerWorkers/Alone.antt =====
-- src/system/consumer/consumer-workers.ts: at most one consumer runs the threads.
use redis_smq.Prelude.{
  Text, text_eq, text_eq_refl, of_text_eq, Bool, true, false, Option, none, some, ◌≡◌, ◌≢◌, refl,
  ap, ◌∙◌, sym, subst, Bool-cases, inl, inr, ◌⊎◌, if◌then◌else◌,
}
use redis_smq.Errors.{Result, ok, err}
use redis_smq.Redis.Keyspace.{Keyspace, update}
use redis_smq.Redis.Program.{Outcome, done, failed, waiting, exec}
use redis_smq.PowerManager.{is_running, is_up, is_going_up, going_up, switch_state}
use redis_smq.PowerManager.Ticker.{new_ticker, next_tick}
use redis_smq.WorkerRunner.{new_worker_runner}
use redis_smq.ConsumerWorkers.{ConsumerWorkers, new_consumer_workers, on_tick, quit_workers}
use redis_smq.ConsumerWorkers.Cluster.{
  Cluster, workers_lock, runs, survivor, Step, starts, ticks, quits, changes, Reachable, initially,
  step,
}
use redis_smq.ConsumerWorkers.Ticks.{IsSafe, Safely, on_tick-Safely}
use redis_smq.ConsumerWorkers.Quits.{quit_workers_keeps}

abbrev Safe : Keyspace → Text → ConsumerWorkers → Type 0
Safe s me c = IsSafe workers_lock me s c

-- Every consumer that runs its threads holds the lock.
AllSafe : Cluster → Type 0
AllSafe g = (me : Text) (c : ConsumerWorkers) → g.consumers me ≡ some c → Safe g.content me c

module _ {A : Type 0} (f : Text → Option A) (me : Text) (v : Option A) (you : Text) (c : A) where
  updated_if :
      (b : Bool)
      → text_eq me you ≡ b
      → (if b then v else f you) ≡ some c
      → ((me ≡ you) × (v ≡ some c)) ⊎ ((me ≢ you) × (f you ≡ some c))
  updated_if true e h = inl (of_text_eq me you e, h)
  updated_if false e h = inr (λ p. cc (e, ap (text_eq me) p, text_eq_refl me), h)

  updated :
      update f me v you ≡ some c → ((me ≡ you) × (v ≡ some c)) ⊎ ((me ≢ you) × (f you ≡ some c))
  updated h = updated_if (text_eq me you) refl h

keep :
    (s s' : Keyspace) (me : Text) (c : ConsumerWorkers)
    → Safe s me c
    → (s.locks workers_lock ≡ some me → s'.locks workers_lock ≡ some me)
    → Safe s' me c
keep s s' me c (a, m, h, k) kept = (a, m, λ e. kept (h e), k)

module _ (s : Keyspace) (me : Text) where
  abbrev value_or : ConsumerWorkers → Result ConsumerWorkers → ConsumerWorkers
  value_or d (ok c) = c
  value_or d (err e) = d

  new-Safe : (c : ConsumerWorkers) → new_consumer_workers new_worker_runner ≡ ok c → Safe s me c
  unfolding new_consumer_workers new_ticker next_tick going_up switch_state is_going_up is_running
      is_up
  new-Safe c e =
      subst (Safe s me) (ap (value_or c) e) (false, refl, λ h. absurd (cc h), λ h. absurd (cc h))

  abbrev some_or : ConsumerWorkers → Option ConsumerWorkers → ConsumerWorkers
  some_or d (some c) = c
  some_or d none = d

  survivor-Safe :
      (x : Outcome ConsumerWorkers × Keyspace) (c : ConsumerWorkers)
      → Safely workers_lock me s x
      → survivor x.0 ≡ some c
      → Safe x.1 me c
  survivor-Safe (done d, s') c (q, safe) e =
      subst (λ t. Safe t me c) (sym q) (subst (Safe s me) (ap (some_or c) e) safe)
  survivor-Safe (failed x, s') c q e = absurd (cc e)
  survivor-Safe (waiting, s') c q e = absurd (cc e)

  Safely-content : (x : Outcome ConsumerWorkers × Keyspace) → Safely workers_lock me s x → x.1 ≡ s
  Safely-content (done d, s') (q, safe) = q
  Safely-content (failed x, s') q = q
  Safely-content (waiting, s') q = q

not_taken :
    (s s' : Keyspace) (you : Text)
    → (s' ≡ s) ⊎ (s.locks workers_lock ≡ none)
    → s.locks workers_lock ≡ some you
    → s'.locks workers_lock ≡ some you
not_taken s s' you (inl e) h = ap (λ t. t.locks workers_lock) e ∙ h
not_taken s s' you (inr e) h = absurd (cc (e, h))

Step-AllSafe : {g g' : Cluster} → AllSafe g → Step g g' → AllSafe g'
unfolding AllSafe
Step-AllSafe {g} all (starts me c absent e) you d h =
    elim (updated g.consumers me (some c) you d h) [
      | inl (p, q) ↦ new-Safe g.content you d (e ∙ ap (λ o. ok (some_or g.content me c o)) q)
      | inr (p, q) ↦ all you d q
    ]
Step-AllSafe {g} all (ticks me c t join dir answer e fired) you d h =
    let x = exec (on_tick me join dir answer (record c { ticker = t })) g.content in
    let (s', safely, taken) =
      on_tick-Safely workers_lock me join dir answer g.content (record c { ticker = t })
        (all me c e) in
    elim (updated g.consumers me (survivor x.0) you d h) [
      | inl (p, q) ↦ subst (λ i. Safe x.1 i d) p (survivor-Safe s' me x d safely q)
      | inr (p, q) ↦ keep g.content x.1 you d (all you d q) λ held.
          ap (λ k. k.locks workers_lock) (Safely-content s' me x safely)
          ∙ not_taken g.content s' you taken held
    ]
Step-AllSafe {g} all (quits me c e) you d h = elim (updated g.consumers me none you d h) [
  | inl (p, q) ↦ absurd (cc q)
  | inr (p, q) ↦
      keep g.content (exec (quit_workers me c) g.content).1 you d (all you d q)
        λ held. quit_workers_keeps workers_lock me you p g.content c held
]
Step-AllSafe {g} all (changes s e) you d h = keep g.content s you d (all you d h) λ held. e ∙ held

Reachable-AllSafe : {g : Cluster} → Reachable g → AllSafe g
unfolding AllSafe
Reachable-AllSafe (initially s) = λ me c h. absurd (cc h)
Reachable-AllSafe (step r one) = Step-AllSafe (Reachable-AllSafe r) one

-- However consumers start, tick and quit, one step after the other, over a database whose lock nobody
-- else touches, and as long as no lease of the lock runs out: if one of them runs the threads of the
-- workers, it holds the lock, and no other consumer runs them.
pub Reachable-one_runs :
    {g : Cluster}
    → Reachable g
    → (me you : Text) (c d : ConsumerWorkers) → g.consumers me ≡ some c
    → g.consumers you ≡ some d
    → me ≢ you
    → runs c ≡ true
    → (g.content.locks workers_lock ≡ some me) × (runs d ≡ false)
unfolding AllSafe
Reachable-one_runs {g} r me you c d here there other running =
    let (a, m, h, k) = Reachable-AllSafe r me c here in
    let (a', m', h', k') = Reachable-AllSafe r you d there in
    (
      h (k running),
      elim (Bool-cases (runs d)) [
        | inl e ↦ absurd (other (cc (h (k running), h' (k' e))))
        | inr e ↦ e
      ],
    )
