-- ===== src/Frontends.antt =====
-- The single instances of src/system/message-manager/message-manager-frontend.ts and of
-- src/system/queue-manager/queue-manager-frontend.ts, and in the child modules their operations.
pub mod Messages
pub mod Queues
use redis_smq.Prelude.{ℕ, Option, none, some, Bool, true, false}
use redis_smq.Errors.{Result, ok, err, empty_callback_reply_error}

-- The static field `instance`, by the number of the instance.
abbrev pub Instance : Type 0
Instance = Option ℕ

abbrev of_client : ℕ → Result Bool → Instance × Result ℕ
of_client new (err e) = (none, err e)
of_client new (ok false) = (none, err empty_callback_reply_error)
of_client new (ok true) = (some new, ok new)

-- `getSingletonInstance`: `new` is the number that a new instance would get, `client` what
-- `RedisClient.getNewInstance` answers.
unfoldable pub get_singleton_instance : ℕ → Result Bool → Instance → Instance × Result ℕ
get_singleton_instance new client none = of_client new client
get_singleton_instance new client (some i) = (some i, ok i)

-- `quit`: the manager's `quit` and `halt` call back.
unfoldable pub quit : Instance → Instance
quit i = none
