-- ===== src/Handlers/Common/Lookup.antt =====
-- src/system/message-manager/common.ts: a message that is asked for by its place and its id.
use redis_smq.Prelude.{
  Text, text_eq, text_eq_refl, text_eq_ne, ℕ, zero, suc, Option, none, some, List, [], ◌∷◌, ◌≡◌,
  ◌≢◌, refl, ap, ◌∙◌, arith, take, drop, get_elem?,
}
use redis_smq.Errors.{Error, Result, ok, err, message_not_found_error}
use redis_smq.Message.{Message}
use redis_smq.Redis.Value.{Value, create_from_message}
use redis_smq.Redis.Keyspace.{Keyspace, slice}
use redis_smq.Redis.Client.Reads.{exec-lrange}
use redis_smq.Redis.Program.{exec, lift}
use redis_smq.Handlers.Common.{get_list_message_at_sequence_id, message_of_reply}

-- What stands at an index, as a list.
abbrev pub at_index : Option Value → List Value
at_index none = []
at_index (some v) = v ∷ []

pub slice_one : (i : ℕ) (xs : List Value) → slice i i xs ≡ at_index (get_elem? xs i)
slice_one i xs = ap (λ n. take n (drop i xs)) {y = 1} (omega arith) ∙ first i xs
  where
    first : (i : ℕ) (xs : List Value) → take 1 (drop i xs) ≡ at_index (get_elem? xs i)
    first zero [] = refl
    first (suc i) [] = refl
    first zero (x ∷ xs) = refl
    first (suc i) (x ∷ xs) = first i xs

-- No message there, or one with another id.
abbrev pub IsElsewhere : Option Value → Text → Type 0
IsElsewhere none message_id = Unit
IsElsewhere (some (Value.message m)) message_id = m.uuid ≢ message_id
IsElsewhere (some v) message_id = ¬ Unit {0}

module _ (fresh : Message) (from : Text) (i : ℕ) (message_id name ns : Text) (s : Keyspace) where
  abbrev not_found : Error
  not_found = message_not_found_error message_id name ns i

  pub exec-get_list_message :
      {o : Option Value} {r : Result Message}
      → get_elem? (s.lists from) i ≡ o
      → message_of_reply fresh (at_index o) message_id not_found ≡ r
      → exec (get_list_message_at_sequence_id fresh from i message_id name ns) s ≡ exec (lift r) s
  unfolding get_list_message_at_sequence_id
  exec-get_list_message e f =
      exec-lrange from s i i (λ reply. lift (message_of_reply fresh reply message_id not_found))
      ∙ ap (λ l. exec (lift (message_of_reply fresh l message_id not_found)) s)
          (slice_one i (s.lists from) ∙ ap at_index e)
      ∙ ap (λ r. exec (lift r) s) f

  pub found :
      (m : Message)
      → m.uuid ≡ message_id
      → message_of_reply fresh (Value.message m ∷ []) message_id not_found ≡ ok m
  unfolding create_from_message
  found m e = rw (ap (λ t. text_eq t message_id) e ∙ text_eq_refl message_id) refl

  pub elsewhere :
      (o : Option Value)
      → IsElsewhere o message_id
      → message_of_reply fresh (at_index o) message_id not_found ≡ err not_found
  unfolding create_from_message
  elsewhere none h = refl
  elsewhere (some (Value.message m)) h = rw (text_eq_ne m.uuid message_id h) refl
  elsewhere (some (Value.text t)) h = absurd (h tt)
  elsewhere (some (Value.queue_name q)) h = absurd (h tt)
  elsewhere (some (Value.heartbeat t)) h = absurd (h tt)
  elsewhere (some (Value.rate n t)) h = absurd (h tt)
