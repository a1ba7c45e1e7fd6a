-- ===== src/LockManager.antt =====
-- src/system/common/lock-manager/lock-manager.ts over Redlock. `me` is the random value under which
-- Redlock takes the lock; a refused request of Redlock has the name `LockError`.
pub mod Leases
use redis_smq.Prelude.{Text, ℕ, zero, suc, Bool, true, false, if◌then◌else◌}
use redis_smq.Errors.{Error, Result, ok, err, lock_error, lock_manager_error}
use redis_smq.Redis.Command.{Command, Reply, locked}
use redis_smq.Redis.Program.{Program, pure, raise, wait, send, single, lift, ◌>>=◌}

pub record LockManager : Type 0 where
  pub lock_key : Text
  pub retry_on_fail : Bool
  -- `acquiredLock !== null`
  pub acquired : Bool

-- `new LockManager(client, key, ttl, retryOnFail)`; the lease time is Redlock's.
abbrev pub new_lock_manager : Text → Bool → LockManager
new_lock_manager key retry = record { lock_key = key; retry_on_fail = retry; acquired = false }

-- The callback of Redlock: an error of the client, or its verdict.
abbrev pub lock_verdict : Result Reply → Result (Unit {0})
lock_verdict (err e) = err e
lock_verdict (ok locked) = ok tt
lock_verdict (ok r) = err lock_error

abbrev pub is_lock_error : Error → Bool
is_lock_error Error.lock_error = true
is_lock_error e = false

-- `handleRedlockReply`. `again` is the attempt that the one-second timer makes for a manager that
-- retries.
abbrev pub handle_redlock_reply :
    LockManager → Program (LockManager × Bool) → Result Reply → Program (LockManager × Bool)
handle_redlock_reply lm again answer = elim (lock_verdict answer) [
  | ok u ↦ pure (record lm { acquired = true }, true)
  | err e ↦
      if is_lock_error e then (if lm.retry_on_fail then again else pure (lm, false)) else raise e
]

-- One request to Redlock.
abbrev attempt_lock :
    Text → LockManager → Program (LockManager × Bool) → Program (LockManager × Bool)
attempt_lock me lm again =
    send
      (single (if lm.acquired then Command.extend lm.lock_key me else Command.lock lm.lock_key me))
      (handle_redlock_reply lm again)

-- The lock's new state, and whether it is held. `retries` bounds how often the timer of a manager
-- that retries may fire; after that the call has not returned.
unfoldable pub acquire_lock : ℕ → Text → LockManager → Program (LockManager × Bool)
acquire_lock zero me lm = attempt_lock me lm wait
acquire_lock (suc n) me lm =
    let again = acquire_lock n me (record lm { acquired = false }) in attempt_lock me lm again

-- The callback of `unlock`: an expired lock is no error.
abbrev pub unlocked : LockManager → Result Reply → Program LockManager
unlocked lm answer = elim (lock_verdict answer) [
  | ok u ↦ pure (record lm { acquired = false })
  | err e ↦ if is_lock_error e then pure (record lm { acquired = false }) else raise e
]

unfoldable pub release_lock : Text → LockManager → Program LockManager
release_lock me lm =
    if lm.acquired then send (single (Command.unlock lm.lock_key me)) (unlocked lm) else pure lm

-- Runs `m` and hands its error or value to the callback.
abbrev pub settle : {A B : Type 0} → Program A → (Result A → Program B) → Program B
settle (pure a) f = f (ok a)
settle (raise e) f = f (err e)
settle wait f = wait
settle (send r k) f = send r (λ x. settle (k x) f)

abbrev pub if_locked : Text → Program (Unit {0}) → LockManager × Bool → Program (Unit {0})
if_locked me fn (lm, true) =
    settle fn (λ outcome. settle (release_lock me lm) (λ released. lift outcome))
if_locked me fn (lm, false) = raise lock_manager_error

-- `LockManager.lockFN(client, key, fn, cb)`. An error of the release is dropped.
unfoldable pub lock_fn : Text → Text → Program (Unit {0}) → Program (Unit {0})
unfolding acquire_lock release_lock
lock_fn me key fn = acquire_lock 0 me (new_lock_manager key false) >>= if_locked me fn
