-- ===== src/Handlers/Common.antt =====
-- src/system/message-manager/common.ts
pub mod Lookup
pub mod Deletion
pub mod Pages
use redis_smq.Prelude.{
  Text, text_eq, ℕ, ◌+◌, ◌-◌, Bool, true, false, Option, some, List, [], ◌∷◌, ltb, ◌==◌,
  if◌then◌else◌,
}
use redis_smq.Errors.{Error, Result, ok, err, argument_error, message_not_found_error}
use redis_smq.Message.{Message}
use redis_smq.Redis.Value.{Value, create_from_message}
use redis_smq.Redis.Command
use redis_smq.Redis.Client
use redis_smq.Redis.Client.{command}
use redis_smq.Redis.Program.{Program, pure, lift, ◌>>=◌, ◌>>◌}
use redis_smq.LockManager.{lock_fn}

-- `skip` is a natural number, so only `take` can be refused.
unfoldable pub validate_pagination_params : ℕ → ℕ → Result (Unit {0})
validate_pagination_params skip take = if ltb take 1 then err argument_error else ok tt

-- The callback of `lrange` in getListMessageAtSequenceId.
abbrev pub message_of_reply : Message → List Value → Text → Error → Result Message
message_of_reply fresh [] message_id not_found = err not_found
message_of_reply fresh (msg ∷ rest) message_id not_found =
    elim (create_from_message fresh (some msg) false) [
      | err e ↦ err e
      | ok m ↦ if text_eq m.uuid message_id then ok m else err not_found
    ]

unfoldable pub get_list_message_at_sequence_id :
    Message → Text → ℕ → Text → Text → Text → Program Message
get_list_message_at_sequence_id fresh from sequence_id message_id queue_name namespace = do
  reply ← Client.lrange from sequence_id sequence_id
  lift (
      message_of_reply fresh reply message_id
        (message_not_found_error message_id queue_name namespace sequence_id))

unfoldable pub delete_list_message_at_sequence_id :
    Message → Text → Text → Text → ℕ → Text → Text → Text → Program (Unit {0})
unfolding get_list_message_at_sequence_id lock_fn
delete_list_message_at_sequence_id fresh me lock_key from sequence_id message_id queue_name
      namespace =
    lock_fn me lock_key do
      m ← get_list_message_at_sequence_id fresh from sequence_id message_id queue_name namespace
      command (Command.lrem from (Value.message m))

-- `items.map((msg) => Message.createFromMessage(msg))`
unfoldable pub create_all : Message → List (Option Value) → Result (List Message)
create_all fresh [] = ok []
create_all fresh (v ∷ vs) =
    let rest = create_all fresh vs in
    elim (create_from_message fresh v false) [
      | err e ↦ err e
      | ok m ↦ elim rest [ err e ↦ err e | ok ms ↦ ok (m ∷ ms) ]
    ]

abbrev pub present : List Value → List (Option Value)
present [] = []
present (v ∷ vs) = some v ∷ present vs

unfoldable pub get_list_messages : Message → Text → ℕ → ℕ → Program (List Message)
unfolding validate_pagination_params create_all
get_list_messages fresh from skip take = do
  lift (validate_pagination_params skip take)
  reply ← Client.lrange from skip (skip + take - 1)
  lift (create_all fresh (present reply))

-- A page with the number of all items.
pub record Page (A : Type 0) : Type 0 where
  pub total : ℕ
  pub items : List A

-- `items.map((message, index) => ({ sequenceId: skip + index, message }))`
unfoldable pub numbered : ℕ → List Message → List (ℕ × Message)
numbered i [] = []
numbered i (m ∷ ms) = (i, m) ∷ numbered (i + 1) ms

unfoldable pub get_paginated_list_messages : Message → Text → ℕ → ℕ → Program (Page (ℕ × Message))
unfolding get_list_messages numbered
get_paginated_list_messages fresh key skip take = do
  total ← Client.llen key
  if total == 0 then pure (record { total = total; items = [] }) else (do
    ms ← get_list_messages fresh key skip take
    pure (record { total = total; items = numbered skip ms }))

abbrev is_empty {ℓ} : {A : Type ℓ} → List A → Bool
is_empty [] = true
is_empty (x ∷ xs) = false

-- The members from `skip` to `skip + take - 1`. These parameters are not validated: where both are 0
-- the last index is -1, which means all.
abbrev page_of_ids : Text → ℕ → ℕ → Program (List Value)
page_of_ids key skip take =
    if skip + take == 0 then Client.zrange_all key else Client.zrange key skip (skip + take - 1)

unfoldable pub get_paginated_sorted_set_messages :
    Message → Text → Text → ℕ → ℕ → Program (Page Message)
unfolding create_all
get_paginated_sorted_set_messages fresh key_messages key_sorted_set skip take = do
  total ← Client.zcard key_sorted_set
  if total == 0 then pure (record { total = total; items = [] }) else (do
    ids ← page_of_ids key_sorted_set skip take
    if is_empty ids then pure (record { total = total; items = [] }) else (do
      reply ← Client.hmget key_messages ids
      ms ← lift (create_all fresh reply)
      pure (record { total = total; items = ms })))
