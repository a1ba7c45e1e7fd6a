-- ===== src/Redis/Command.antt =====
-- The Redis commands that the program sends, and what Redis documents of them: which state a
-- command leaves, what it replies, and when it blocks. These functions are what a server is
-- assumed to do in Redis/Server.antt.
use redis_smq.Prelude.{
  text_eq, Text, ℕ, Bool, true, false, not, ◌||◌, Option, none, some, List, [], ◌∷◌, ◌++◌,
  if◌then◌else◌, length, split_last,
}
use redis_smq.Redis.Value.{Value}
use redis_smq.Redis.Keyspace.{
  Keyspace, set_list, set_zset, set_hash, set_set, set_lock, slice, remove_first, without, find,
  keys, put_ranked, put_field, put_fields, without_all, add_member, scored_between, find_all,
}

pub data Command : Type 0 where
  exists llen zcard zrange_all del smembers hgetall : Text → Command
  -- key, start, stop
  lrange zrange zrangebyscore : Text → ℕ → ℕ → Command
  -- key, element; LREM with count 1
  rpush lpush lrem zrem sadd srem hget : Text → Value → Command
  -- source, destination
  rpoplpush lmove_left_right brpoplpush : Text → Text → Command
  -- key, score, member
  zadd : Text → ℕ → Value → Command
  -- key, field, value
  hset : Text → Value → Value → Command
  hdel hmget : Text → List Value → Command
  -- key, fields with their values
  hmset : Text → List (Value × Value) → Command
  -- key and holder: a lock of Redlock with no retries, its extension and its release
  lock extend unlock : Text → Text → Command

pub data Reply : Type 0 where
  nil locked : Reply
  integer : ℕ → Reply
  bulk : Value → Reply
  values : List Value → Reply
  slots : List (Option Value) → Reply
  fields : List (Value × Value) → Reply
  -- what the commands of a transaction reply; replies other than counts are 0
  integers : List ℕ → Reply

abbrev pub is_nonempty {ℓ} : {A : Type ℓ} → List A → Bool
is_nonempty [] = false
is_nonempty (x ∷ xs) = true

-- Without the last element of `from`, which goes to the head of `to`.
abbrev pub move_last : Text → Text → Option (List Value × Value) → Keyspace → Keyspace
move_last from to none s = s
move_last from to (some (xs, x)) s = let s' = set_list from xs s in set_list to (x ∷ s'.lists to) s'

abbrev pub move_first : Text → Text → List Value → Keyspace → Keyspace
move_first from to [] s = s
move_first from to (x ∷ xs) s =
    let s' = set_list from xs s in set_list to (s'.lists to ++ x ∷ []) s'

abbrev pub is_held_by : Text → Option Text → Bool
is_held_by me none = false
is_held_by me (some you) = text_eq you me

-- A lock that is held is refused.
abbrev pub lock_effect : Text → Text → Option Text → Keyspace → Keyspace
lock_effect k me none s = set_lock k (some me) s
lock_effect k me (some you) s = s

abbrev pub lock_reply : Option Text → Reply
lock_reply none = locked
lock_reply (some you) = nil

-- The state after a command.
unfoldable pub effect : Command → Keyspace → Keyspace
effect (exists k) s = s
effect (llen k) s = s
effect (zcard k) s = s
effect (del k) s = set_list k [] (set_zset k [] (set_hash k [] (set_set k [] s)))
effect (smembers k) s = s
effect (hgetall k) s = s
effect (lrange k a b) s = s
effect (zrange k a b) s = s
effect (zrange_all k) s = s
effect (zrangebyscore k a b) s = s
effect (rpush k v) s = set_list k (s.lists k ++ v ∷ []) s
effect (lpush k v) s = set_list k (v ∷ s.lists k) s
effect (lrem k v) s = set_list k (remove_first v (s.lists k)) s
effect (zrem k v) s = set_zset k (without v (s.zsets k)) s
effect (sadd k v) s = set_set k (add_member v (s.sets k)) s
effect (srem k v) s = set_set k (remove_first v (s.sets k)) s
effect (hget k f) s = s
effect (rpoplpush a b) s = move_last a b (split_last (s.lists a)) s
effect (lmove_left_right a b) s = move_first a b (s.lists a) s
effect (brpoplpush a b) s = move_last a b (split_last (s.lists a)) s
effect (zadd k n v) s = set_zset k (put_ranked v n (s.zsets k)) s
effect (hset k f v) s = set_hash k (put_field f v (s.hashes k)) s
effect (hdel k fs) s = set_hash k (without_all fs (s.hashes k)) s
effect (hmget k fs) s = s
effect (hmset k fvs) s = set_hash k (put_fields fvs (s.hashes k)) s
effect (lock k me) s = lock_effect k me (s.locks k) s
effect (extend k me) s = s
effect (unlock k me) s = if is_held_by me (s.locks k) then set_lock k none s else s

abbrev pub last_reply : Option (List Value × Value) → Reply
last_reply none = nil
last_reply (some (xs, x)) = bulk x

abbrev pub first_reply : List Value → Reply
first_reply [] = nil
first_reply (x ∷ xs) = bulk x

abbrev pub value_reply : Option Value → Reply
value_reply none = nil
value_reply (some v) = bulk v

abbrev pub flag : Bool → ℕ
flag true = 1
flag false = 0

-- The reply to a command. Counts that the program ignores are all `nil`.
unfoldable pub reply : Command → Keyspace → Reply
reply (exists k) s = integer (
    flag (
      is_nonempty (s.lists k)
      || (is_nonempty (s.zsets k) || (is_nonempty (s.hashes k) || is_nonempty (s.sets k)))))
reply (llen k) s = integer (length (s.lists k))
reply (zcard k) s = integer (length (s.zsets k))
reply (smembers k) s = values (s.sets k)
reply (hgetall k) s = fields (s.hashes k)
reply (lrange k a b) s = values (slice a b (s.lists k))
reply (zrange_all k) s = values (keys (s.zsets k))
reply (zrange k a b) s = values (slice a b (keys (s.zsets k)))
reply (zrangebyscore k a b) s = values (scored_between a b (s.zsets k))
reply (hget k f) s = value_reply (find f (s.hashes k))
reply (rpoplpush a b) s = last_reply (split_last (s.lists a))
reply (lmove_left_right a b) s = first_reply (s.lists a)
reply (brpoplpush a b) s = last_reply (split_last (s.lists a))
reply (hmget k fs) s = slots (find_all fs (s.hashes k))
reply (lock k me) s = lock_reply (s.locks k)
reply (extend k me) s = if is_held_by me (s.locks k) then locked else nil
reply (unlock k me) s = if is_held_by me (s.locks k) then locked else nil
reply c s = nil

-- BRPOPLPUSH with no timeout waits while its source is empty.
unfoldable pub blocks : Command → Keyspace → Bool
blocks (brpoplpush a b) s = not (is_nonempty (s.lists a))
blocks c s = false
