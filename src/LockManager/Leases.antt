-- ===== src/LockManager/Leases.antt =====
-- src/system/common/lock-manager/lock-manager.ts: who holds the lock.
use redis_smq.Prelude.{
  Text, text_eq_refl, ℕ, zero, suc, Bool, true, false, none, some, ◌≡◌, refl, ap, ◌∙◌,
}
use redis_smq.Errors.{Result, ok, err, lock_manager_error}
use redis_smq.Redis.Keyspace.{Keyspace, set_lock}
use redis_smq.Redis.Command.{nil, locked, Command, effect, reply, blocks}
use redis_smq.Redis.Program.{
  Program, Outcome, done, failed, exec, request_effect, request_reply, request_blocks, exec_command,
  ◌>>=◌, pure, raise, wait, send, waiting, lift,
}
use redis_smq.Redis.Server.{on_server, Server, IsReliable, result, content}
use redis_smq.LockManager.{
  LockManager, acquire_lock, release_lock, lock_fn, new_lock_manager, settle, handle_redlock_reply,
  unlocked, if_locked,
}

-- A manager that does not retry, after it has acquired its lock.
abbrev pub held_lock : Text → LockManager
held_lock key = record { lock_key = key; retry_on_fail = false; acquired = true }

exec-acquire_lock_lost :
    (retries : ℕ) (me key : Text) (s : Keyspace)
    → s.locks key ≡ none
    → exec (acquire_lock retries me (held_lock key)) s ≡ (done (held_lock key, false), s)
unfolding acquire_lock exec request_effect request_reply request_blocks effect reply blocks
exec-acquire_lock_lost zero me key s e =
    exec_command (Command.extend key me) (handle_redlock_reply (held_lock key) wait) s {r = nil}
      refl (simp e) refl
exec-acquire_lock_lost (suc n) me key s e =
    exec_command (Command.extend key me)
      (handle_redlock_reply (held_lock key) (acquire_lock n me (new_lock_manager key false))) s
      {r = nil} refl (simp e) refl

exec-lock_fn_held :
    (me you key : Text) (fn : Program (Unit {0})) (s : Keyspace)
    → s.locks key ≡ some you
    → exec (lock_fn me key fn) s ≡ (failed lock_manager_error, s)
unfolding lock_fn acquire_lock exec blocks reply effect
exec-lock_fn_held me you key fn s e =
    exec_command (Command.lock key me)
      (λ answer. handle_redlock_reply (new_lock_manager key false) wait answer >>= if_locked me fn)
      s {r = nil} {s' = s} refl (simp e) (simp e)

-- What a run of `settle` does next.
abbrev pub settle_continue :
    {A B : Type 0} → Outcome A × Keyspace → (Result A → Program B) → Outcome B × Keyspace
settle_continue (done a, s) f = exec (f (ok a)) s
settle_continue (failed e, s) f = exec (f (err e)) s
settle_continue (waiting, s) f = (waiting, s)

module _ {A B : Type 0} (f : Result A → Program B) where
  settle_if :
      (b : Bool) (s : Keyspace) (x : Outcome A × Keyspace) (y : Outcome B × Keyspace)
      → y ≡ settle_continue x f
      → elim b [ true ↦ (waiting, s) | false ↦ y ]
        ≡ settle_continue (elim b [ true ↦ (waiting, s) | false ↦ x ]) f
  settle_if true s x y e = refl
  settle_if false s x y e = e

  pub exec-settle :
      (p : Program A) (s : Keyspace) → exec (settle p f) s ≡ settle_continue (exec p s) f
  unfolding exec
  exec-settle (pure a) s = refl
  exec-settle (raise e) s = refl
  exec-settle wait s = refl
  exec-settle (send r k) s =
      settle_if (request_blocks r s) s _ _
        (exec-settle (k (request_reply r s)) (request_effect r s))

-- How a run ends for a callback that gets an error or nothing.
abbrev pub outcome_of : Result (Unit {0}) → Outcome (Unit {0})
outcome_of (ok u) = done u
outcome_of (err e) = failed e

module _ (me key : Text) where
  exec-release_lock :
      (s : Keyspace)
      → s.locks key ≡ some me
      → exec (release_lock me (held_lock key)) s
        ≡ (done (new_lock_manager key false), set_lock key none s)
  unfolding release_lock exec blocks reply effect
  exec-release_lock s e =
      exec_command (Command.unlock key me) (unlocked (held_lock key)) s {r = locked}
        {s' = set_lock key none s} refl (simp (e, text_eq_refl)) (simp (e, text_eq_refl))

  after_fn :
      (s : Keyspace) (outcome : Result (Unit {0}))
      → s.locks key ≡ some me
      → exec (settle (release_lock me (held_lock key)) (λ released. lift outcome)) s
        ≡ (outcome_of outcome, set_lock key none s)
  unfolding exec
  after_fn s (ok u) e =
      exec-settle (λ released. lift (ok u)) (release_lock me (held_lock key)) s
      ∙ ap (λ t. settle_continue t (λ released. lift (ok u))) (exec-release_lock s e)
  after_fn s (err x) e =
      exec-settle (λ released. lift (err x)) (release_lock me (held_lock key)) s
      ∙ ap (λ t. settle_continue t (λ released. lift (err x))) (exec-release_lock s e)

  abbrev release_then : Result (Unit {0}) → Program (Unit {0})
  release_then outcome = settle (release_lock me (held_lock key)) (λ released. lift outcome)

  fn_then :
      (s : Keyspace) (outcome : Result (Unit {0}))
      → settle_continue (outcome_of outcome, s) release_then ≡ exec (release_then outcome) s
  fn_then s (ok u) = refl
  fn_then s (err e) = refl

  pub exec-lock_fn_free :
      (fn : Program (Unit {0})) (s s' : Keyspace) (outcome : Result (Unit {0}))
      → s.locks key ≡ none
      → exec fn (set_lock key (some me) s) ≡ (outcome_of outcome, s')
      → s'.locks key ≡ some me
      → exec (lock_fn me key fn) s ≡ (outcome_of outcome, set_lock key none s')
  unfolding lock_fn acquire_lock blocks reply effect
  exec-lock_fn_free fn s s' outcome e run kept =
      exec_command (Command.lock key me)
        (λ answer.
          handle_redlock_reply (new_lock_manager key false) wait answer >>= if_locked me fn)
        s {r = locked} {s' = set_lock key (some me) s} refl (simp e) (simp e)
      ∙ exec-settle release_then fn (set_lock key (some me) s)
      ∙ ap (λ t. settle_continue t release_then) run
      ∙ fn_then s' outcome
      ∙ after_fn s' outcome kept

module _ (S : Server) (reliable : IsReliable S) (d : S.Db) where
  -- On a reliable server, a manager that does not retry, and that has had a lock which was lost since
  -- (its lease ran out): no attempt gets the lock again, though nobody holds it, and the attempt changes
  -- nothing.
  pub acquire_lock_lost :
      (retries : ℕ) (me key : Text)
      → (S.view d).locks key ≡ none
      → (result S (acquire_lock retries me (held_lock key)) d ≡ done (held_lock key, false))
        × (content S (acquire_lock retries me (held_lock key)) d ≡ S.view d)
  acquire_lock_lost retries me key e =
      on_server S reliable _ d (exec-acquire_lock_lost retries me key (S.view d) e)

  -- On a reliable server, while another one holds the lock, `lockFN` runs nothing: it fails and changes
  -- nothing.
  lock_fn-held :
      (me you key : Text) (fn : Program (Unit {0}))
      → (S.view d).locks key ≡ some you
      → (result S (lock_fn me key fn) d ≡ failed lock_manager_error)
        × (content S (lock_fn me key fn) d ≡ S.view d)
  lock_fn-held me you key fn e =
      on_server S reliable _ d (exec-lock_fn_held me you key fn (S.view d) e)

  -- On a reliable server, where nobody holds the lock, `lockFN` runs the function under it; if the
  -- function ends with the lock still held, `lockFN` ends as the function does, with its error or
  -- without, and the lock is free again.
  pub lock_fn-free :
      (me key : Text) (fn : Program (Unit {0})) (s' : Keyspace) (outcome : Result (Unit {0}))
      → (S.view d).locks key ≡ none
      → exec fn (set_lock key (some me) (S.view d)) ≡ (outcome_of outcome, s')
      → s'.locks key ≡ some me
      → (result S (lock_fn me key fn) d ≡ outcome_of outcome)
        × (content S (lock_fn me key fn) d ≡ set_lock key none s')
  lock_fn-free me key fn s' outcome e run kept =
      on_server S reliable _ d (exec-lock_fn_free me key fn (S.view d) s' outcome e run kept)
