-- ===== src/ConsumerWorkers/Quits.antt =====
-- src/system/consumer/consumer-workers.ts: what an end does with the lock.
use redis_smq.Prelude.{
  Text, text_eq, text_eq_ne, of_text_eq, if◌then◌else◌, Bool, true, false, Option, none, some, ◌≡◌,
  ◌≢◌, refl, ap, ◌∙◌, Bool-cases, inl, inr,
}
use redis_smq.Errors.{Result, ok, err}
use redis_smq.Redis.Keyspace.{Keyspace, set_lock}
use redis_smq.Redis.Command.{Command, effect, reply, blocks, nil, locked, is_held_by}
use redis_smq.Redis.Program
use redis_smq.Redis.Program.{
  Program, pure, Outcome, done, failed, waiting, exec, exec-bind, continue, lift, wait,
  exec_command,
}
use redis_smq.LockManager.{LockManager, release_lock, unlocked}
use redis_smq.ConsumerWorkers.{ConsumerWorkers, quit_workers, stopped}

unlocked_content :
    (lm : LockManager) (b : Bool) (s : Keyspace)
    → (exec (unlocked lm (ok (if b then locked else nil))) s).1 ≡ s
unfolding exec
unlocked_content lm true s = refl
unlocked_content lm false s = refl

continue_content :
    (g : LockManager → ConsumerWorkers) (x : Outcome LockManager × Keyspace)
    → (continue x (λ lm. pure (g lm))).1 ≡ x.1
unfolding exec
continue_content g (done lm, s) = refl
continue_content g (failed e, s) = refl
continue_content g (waiting, s) = refl

-- An end takes the lock from nobody else.
module _ (key me you : Text) (others : me ≢ you) where
  not_held : (o : Option Text) → o ≡ some you → is_held_by me o ≡ false
  not_held none e = absurd (cc e)
  not_held (some x) e = text_eq_ne x me (λ p. others (cc (e, p)))

  unlock_if :
      (k : Text) (s : Keyspace) (b : Bool)
      → is_held_by me (s.locks k) ≡ b
      → s.locks key ≡ some you
      → (if b then set_lock k none s else s).locks key ≡ some you
  unlock_if k s false e h = h
  unlock_if k s true e h = elim (Bool-cases (text_eq k key)) [
    | inl p ↦ absurd (cc (e, not_held (s.locks k) (ap s.locks (of_text_eq k key p) ∙ h)))
    | inr p ↦ rw p h
  ]

  unlock_keeps :
      (k : Text) (s : Keyspace)
      → s.locks key ≡ some you
      → (effect (Command.unlock k me) s).locks key ≡ some you
  unfolding effect
  unlock_keeps k s h = unlock_if k s (is_held_by me (s.locks k)) refl h

  release_keeps :
      (s : Keyspace) (lm : LockManager)
      → s.locks key ≡ some you
      → (exec (release_lock me lm) s).1.locks key ≡ some you
  unfolding release_lock exec reply blocks
  release_keeps s lm h = elim (Bool-cases lm.acquired) [
    | inl e ↦ rw e (
        ap (λ x. x.1.locks key)
          (exec_command (Command.unlock lm.lock_key me) (unlocked lm) s refl refl refl)
        ∙ ap (λ t. t.locks key) (unlocked_content lm (is_held_by me (s.locks lm.lock_key)) _)
        ∙ unlock_keeps lm.lock_key s h)
    | inr e ↦ rw e h
  ]

  quit_with :
      (s : Keyspace) (r : Result ConsumerWorkers)
      → s.locks key ≡ some you
      → (exec
            (Program.◌>>=◌ (lift r) λ c'.
              Program.◌>>=◌
                (release_lock me c'.locker_manager)
                λ lm. pure (record c' { locker_manager = lm }))
            s).1.locks
          key
        ≡ some you
  unfolding exec
  quit_with s (err e) h = h
  quit_with s (ok c') h =
      ap (λ x. x.1.locks key)
        (exec-bind (λ lm. pure (record c' { locker_manager = lm }))
          (release_lock me c'.locker_manager) s)
      ∙ ap (λ t. t.locks key)
          (continue_content (λ lm. record c' { locker_manager = lm })
            (exec (release_lock me c'.locker_manager) s))
      ∙ release_keeps s c'.locker_manager h

  pub quit_workers_keeps :
      (s : Keyspace) (c : ConsumerWorkers)
      → s.locks key ≡ some you
      → (exec (quit_workers me c) s).1.locks key ≡ some you
  unfolding quit_workers
  quit_workers_keeps s c h = quit_with s (stopped c) h
