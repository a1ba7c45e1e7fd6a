-- ===== src/Redis/Client/Reads.antt =====
-- src/system/redis-client/redis-client.ts: the methods that only read.
use redis_smq.Prelude.{Text, ℕ, Option, List, ◌≡◌, refl, length}
use redis_smq.Redis.Value.{Value}
use redis_smq.Redis.Keyspace.{Keyspace, slice, find, find_all}
use redis_smq.Redis.Command.{effect, reply, blocks, value_reply}
use redis_smq.Redis.Program.{Program, exec, request_effect, request_reply, request_blocks, ◌>>=◌}
use redis_smq.Redis.Client.{lrange, llen, hget, hmget, string_of}

module _ {A : Type 0} (key : Text) (s : Keyspace) where
  pub exec-lrange :
      (start stop : ℕ) (f : List Value → Program A)
      → exec (lrange key start stop >>= f) s ≡ exec (f (slice start stop (s.lists key))) s
  unfolding exec request_blocks request_reply request_effect blocks reply effect
  exec-lrange start stop f = refl

  pub exec-llen : (f : ℕ → Program A) → exec (llen key >>= f) s ≡ exec (f (length (s.lists key))) s
  unfolding exec request_blocks request_reply request_effect blocks reply effect
  exec-llen f = refl

  pub exec-hmget :
      (fields : List Value) (f : List (Option Value) → Program A)
      → exec (hmget key fields >>= f) s ≡ exec (f (find_all fields (s.hashes key))) s
  unfolding exec request_blocks request_reply request_effect blocks reply effect
  exec-hmget fields f = refl

  pub exec-hget :
      (field : Value) (f : Option Value → Program A)
      → exec (hget key field >>= f) s
        ≡ exec (f (string_of (value_reply (find field (s.hashes key))))) s
  unfolding exec request_blocks request_reply request_effect blocks reply effect
  exec-hget field f = refl
