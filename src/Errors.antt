-- ===== src/Errors.antt =====
-- The errors under src/system/common/errors, src/system/message-manager/errors and beside the
-- classes that raise them, and the result of code that may throw.
use redis_smq.Prelude.{Text, ℕ, Bool, true, false}

pub data Error : Type 0 where
  argument_error configuration_error panic_error empty_callback_reply_error : Error
  lock_error lock_manager_error redis_client_error redis_keys_error : Error
  power_manager_error ticker_error worker_runner_error consumer_error syntax_error : Error
  -- message id, queue name, namespace, sequence id
  message_not_found_error : Text → Text → Text → ℕ → Error
  -- what the server or the connection answers
  server_error : Text → Error

pub data Result {ℓ} (A : Type ℓ) : Type ℓ where
  ok : A → Result A
  err : Error → Result A

-- `if (test) throw e`
abbrev pub throw_if : Bool → Error → Result (Unit {0})
throw_if true e = err e
throw_if false e = ok tt

-- The code after a call that may throw.
infixl 5 ◌>>=◌
abbrev pub ◌>>=◌ {ℓ κ} : {A : Type ℓ} {B : Type κ} → Result A → (A → Result B) → Result B
err e >>= rest = err e
ok value >>= rest = rest value

infixl 5 ◌>>◌
abbrev pub ◌>>◌ {ℓ} : {B : Type ℓ} → Result (Unit {0}) → Result B → Result B
check >> rest = check >>= λ u. rest
