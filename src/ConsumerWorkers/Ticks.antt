-- ===== src/ConsumerWorkers/Ticks.antt =====
-- src/system/consumer/consumer-workers.ts: what a tick does with the lock.
use redis_smq.Prelude.{
  Text, text_eq_refl, Bool, true, false, Option, none, some, List, ◌≡◌, refl, ap, ◌∙◌, sym, subst,
  Bool-cases, inl, inr, ◌⊎◌,
}
use redis_smq.Errors.{Result, ok, err, ◌>>=◌}
use redis_smq.Redis.Keyspace.{Keyspace, set_lock}
use redis_smq.Redis.Command.{Command, effect, reply, blocks, nil, locked}
use redis_smq.Redis.Program
use redis_smq.Redis.Program.{
  Program, pure, Outcome, done, failed, waiting, exec, exec-bind, continue, lift, wait,
  exec_command,
}
use redis_smq.PowerManager.Ticker.{Ticker, next_tick}
use redis_smq.LockManager.{LockManager, acquire_lock, handle_redlock_reply}
use redis_smq.WorkerRunner
use redis_smq.WorkerRunner.{WorkerRunner}
use redis_smq.ConsumerWorkers.{ConsumerWorkers, on_tick, ticked, after_run, when_locked}
use redis_smq.ConsumerWorkers.Cluster.{runs}

module _ (key me : Text) where
  abbrev pub manager : Bool → LockManager
  manager acquired = record { lock_key = key; retry_on_fail = false; acquired = acquired }

  -- A consumer that runs its threads holds the lock.
  abbrev pub IsSafe : Keyspace → ConsumerWorkers → Type 0
  IsSafe s c =
      (a : Bool) × (c.locker_manager ≡ manager a)
      × (a ≡ true → s.locks key ≡ some me)
      × (runs c ≡ true → a ≡ true)

  -- How an attempt for the lock ends, for a manager that had it or not.
  abbrev Attempted : Bool → Keyspace → Outcome (LockManager × Bool) × Keyspace → Type 0
  Attempted a s x =
      (b : Bool) × (s' : Keyspace) × (x ≡ (done (manager b, b), s'))
      × (b ≡ true → s'.locks key ≡ some me)
      × (a ≡ true → b ≡ true)
      × ((s' ≡ s) ⊎ (s.locks key ≡ none))

  attempt-held :
      (s : Keyspace)
      → s.locks key ≡ some me
      → Attempted true s (exec (acquire_lock 0 me (manager true)) s)
  unfolding acquire_lock exec blocks reply effect
  attempt-held s e = (
    true,
    s,
    exec_command (Command.extend key me) (handle_redlock_reply (manager true) wait) s {r = locked}
        refl (simp (e, text_eq_refl)) refl,
    λ h. e,
    λ h. refl,
    inl refl,
  )

  attempt-free :
      (s : Keyspace)
      → s.locks key ≡ none
      → Attempted false s (exec (acquire_lock 0 me (manager false)) s)
  unfolding acquire_lock exec blocks reply effect
  attempt-free s e = (
    true,
    set_lock key (some me) s,
    exec_command (Command.lock key me) (handle_redlock_reply (manager false) wait) s {r = locked}
        {s' = set_lock key (some me) s} refl (simp e) (simp e),
    λ h. simp text_eq_refl,
    λ h. refl,
    inr e,
  )

  attempt-taken :
      (s : Keyspace) (you : Text)
      → s.locks key ≡ some you
      → Attempted false s (exec (acquire_lock 0 me (manager false)) s)
  unfolding acquire_lock exec blocks reply effect
  attempt-taken s you e = (
    false,
    s,
    exec_command (Command.lock key me) (handle_redlock_reply (manager false) wait) s {r = nil}
        {s' = s} refl (simp e) (simp e),
    λ h. absurd (cc h),
    λ h. absurd (cc h),
    inl refl,
  )

  attempt-by :
      (s : Keyspace) (o : Option Text)
      → s.locks key ≡ o
      → Attempted false s (exec (acquire_lock 0 me (manager false)) s)
  attempt-by s none e = attempt-free s e
  attempt-by s (some you) e = attempt-taken s you e

  attempt :
      (a : Bool) (s : Keyspace)
      → (a ≡ true → s.locks key ≡ some me)
      → Attempted a s (exec (acquire_lock 0 me (manager a)) s)
  attempt true s h = attempt-held s (h refl)
  attempt false s h = attempt-by s (s.locks key) refl

  -- The consumer after a tick, if it is still there.
  abbrev pub Safely : Keyspace → Outcome ConsumerWorkers × Keyspace → Type 0
  Safely s (done c, s') = (s' ≡ s) × IsSafe s c
  Safely s (o, s') = s' ≡ s

  module _ (s : Keyspace) (c : ConsumerWorkers) where
    with_ticker :
        (b : Bool)
        → (b ≡ true → s.locks key ≡ some me)
        → (runs c ≡ true → b ≡ true)
        → (r : Result Ticker)
        → Safely s
            (exec (lift (r >>= λ t. ok (record c { locker_manager = manager b; ticker = t }))) s)
    unfolding exec
    with_ticker b h k (ok t) = (refl, (b, refl, h, k))
    with_ticker b h k (err e) = refl

    ticked-Safely :
        (b : Bool)
        → (b ≡ true → s.locks key ≡ some me)
        → (runs c ≡ true → b ≡ true)
        → Safely s (exec (lift (ticked (record c { locker_manager = manager b }))) s)
    unfolding ticked
    ticked-Safely b h k = with_ticker b h k (next_tick c.ticker)

  module _ (join : Text → Text → Text) (dir : Text) (answer : Result (List Text)) where
    run_lem :
        (s : Keyspace) (c : ConsumerWorkers)
        → s.locks key ≡ some me
        → (r : Result (WorkerRunner × Result (Unit {0})))
        → Safely s (
            exec
              (Program.◌>>=◌ (lift r) (after_run (record c { locker_manager = manager true })))
              s)
    unfolding exec
    run_lem s c h (err e) = refl
    run_lem s c h (ok (r, err e)) = refl
    run_lem s c h (ok (r, ok tt)) =
        ticked-Safely s (record c { worker_runner = r }) true (λ _. h) (λ _. refl)

    when_locked-Safely :
        (s : Keyspace) (c : ConsumerWorkers) (b : Bool)
        → (b ≡ true → s.locks key ≡ some me)
        → (runs c ≡ true → b ≡ true)
        → Safely s (exec (when_locked join dir answer c (manager b, b)) s)
    when_locked-Safely s c false h k = ticked-Safely s c false h k
    when_locked-Safely s c true h k = elim (Bool-cases (runs c)) [
      | inl e ↦ rw e (ticked-Safely s c true h k)
      | inr e ↦ rw e (run_lem s c (h refl) (WorkerRunner.run join dir answer c.worker_runner))
    ]

    -- A tick keeps a consumer safe, and takes the lock from nobody.
    pub on_tick-Safely :
        (s : Keyspace) (c : ConsumerWorkers)
        → IsSafe s c
        → (s' : Keyspace) × Safely s' (exec (on_tick me join dir answer c) s)
          × ((s' ≡ s) ⊎ (s.locks key ≡ none))
    unfolding on_tick
    on_tick-Safely s c (a, m, h, k) =
        let (b, s', run, h', kept, taken) = attempt a s h in
        (
          s',
          subst (Safely s')
              (sym (
                exec-bind (when_locked join dir answer c) (acquire_lock 0 me c.locker_manager) s
                ∙ ap (λ x. continue x (when_locked join dir answer c))
                    (ap (λ lm. exec (acquire_lock 0 me lm) s) m ∙ run)))
              (when_locked-Safely s' c b h' (λ e. kept (k e))),
          taken,
        )
