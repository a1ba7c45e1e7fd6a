-- ===== src/PriorityFlow/Stored.antt =====
-- src/system/message-manager/handlers/enqueue.handler.ts: the sorted set of the ids and the hash of the
-- messages.
use redis_smq.Prelude.{
  Text, text_eq, ℕ, false, ◌||◌, some, List, [], ◌∷◌, ◌≡◌, refl, ap, ◌∙◌, arith, Bool-cases, inl,
  inr,
}
use redis_smq.Message.{Message}
use redis_smq.Message.Priority.{priority_of}
use redis_smq.Redis.Value.{Value, value_eq_refl}
use redis_smq.Redis.Keyspace.{without, find, put_ranked, insert_ranked, put_field}
use redis_smq.Redis.Keyspace.Ids.{has_id, value_eq-text, find-without, or_false, text_eq_swap}
use redis_smq.PriorityFlow.{insert_by_priority, goes_before}

abbrev pub entry : Message → Value × ℕ
entry m = (Value.text m.uuid, priority_of m)

-- The sorted set of a queue's messages.
abbrev pub ranks : List Message → List (Value × ℕ)
ranks [] = []
ranks (m ∷ ms) = (Value.text m.uuid, priority_of m) ∷ ranks ms

-- Each message is stored under its id, and no two have the same.
abbrev pub AllStored : List Message → List (Value × Value) → Type 0
AllStored [] fields = Unit
AllStored (m ∷ ms) fields =
    (find (Value.text m.uuid) fields ≡ some (Value.message m))
    × (has_id m.uuid ms ≡ false)
    × AllStored ms fields

insert_ranked-ranks :
    (m : Message) (ms : List Message)
    → insert_ranked (Value.text m.uuid) (priority_of m) (ranks ms) ≡ ranks (insert_by_priority m ms)
unfolding insert_ranked insert_by_priority
insert_ranked-ranks m [] = refl
insert_ranked-ranks m (x ∷ xs) = elim (Bool-cases (goes_before m x)) [
  | inl e ↦ rw e refl
  | inr e ↦ rw e (ap (λ t. entry x ∷ t) (insert_ranked-ranks m xs))
]

pub without-ranks :
    (id : Text) (ms : List Message)
    → has_id id ms ≡ false
    → without (Value.text id) (ranks ms) ≡ ranks ms
unfolding without has_id
without-ranks id [] h = refl
without-ranks id (m ∷ ms) h = ground (arith, value_eq-text m.uuid id, without-ranks id ms)

-- A new message is put in its place.
pub put_ranked-ranks :
    (m : Message) (ms : List Message)
    → has_id m.uuid ms ≡ false
    → put_ranked (Value.text m.uuid) (priority_of m) (ranks ms) ≡ ranks (insert_by_priority m ms)
unfolding put_ranked
put_ranked-ranks m ms h =
    ap (insert_ranked (Value.text m.uuid) (priority_of m)) (without-ranks m.uuid ms h)
    ∙ insert_ranked-ranks m ms

-- Taking out an id that the messages do not have.
pub AllStored-without :
    (id : Text) (ms : List Message) (fields : List (Value × Value))
    → has_id id ms ≡ false
    → AllStored ms fields
    → AllStored ms (without (Value.text id) fields)
unfolding has_id
AllStored-without id [] fields h s = tt
AllStored-without id (m ∷ ms) fields h (found, alone, rest) =
    let (here, there) = or_false (text_eq m.uuid id) (has_id id ms) h in
    (
      find-without id m.uuid fields (text_eq_swap m.uuid id here) ∙ found,
      alone,
      AllStored-without id ms fields there rest,
    )

AllStored-put_field :
    (id : Text) (v : Value) (ms : List Message) (fields : List (Value × Value))
    → has_id id ms ≡ false
    → AllStored ms (without (Value.text id) fields)
    → AllStored ms (put_field (Value.text id) v fields)
unfolding has_id put_field find
AllStored-put_field id v [] fields h s = tt
AllStored-put_field id v (m ∷ ms) fields h (found, alone, rest) =
    let (here, there) = or_false (text_eq m.uuid id) (has_id id ms) h in
    (
      rw (value_eq-text id m.uuid ∙ text_eq_swap m.uuid id here) found,
      alone,
      AllStored-put_field id v ms fields there rest,
    )

has_id-insert_by_priority :
    (id : Text) (m : Message) (ms : List Message)
    → has_id id (insert_by_priority m ms) ≡ (text_eq m.uuid id || has_id id ms)
unfolding has_id insert_by_priority
has_id-insert_by_priority id m [] = refl
has_id-insert_by_priority id m (x ∷ xs) = ground (arith, has_id-insert_by_priority id m xs)

AllStored-insert_by_priority :
    (m : Message) (ms : List Message) (fields : List (Value × Value))
    → find (Value.text m.uuid) fields ≡ some (Value.message m)
    → has_id m.uuid ms ≡ false
    → AllStored ms fields
    → AllStored (insert_by_priority m ms) fields
unfolding insert_by_priority has_id
AllStored-insert_by_priority m [] fields e h s = (e, refl, tt)
AllStored-insert_by_priority m (x ∷ xs) fields e h (found, alone, rest) =
    let (here, there) = or_false (text_eq x.uuid m.uuid) (has_id m.uuid xs) h in
    elim (Bool-cases (goes_before m x)) [
      | inl b ↦ rw b (e, h, (found, alone, rest))
      | inr b ↦ rw b (
        found,
        has_id-insert_by_priority x.uuid m xs ∙ rw (text_eq_swap x.uuid m.uuid here) alone,
        AllStored-insert_by_priority m xs fields e there rest,
      )
    ]

-- A new message is stored.
pub AllStored-insert :
    (m : Message) (ms : List Message) (fields : List (Value × Value))
    → has_id m.uuid ms ≡ false
    → AllStored ms fields
    → AllStored (insert_by_priority m ms) (put_field (Value.text m.uuid) (Value.message m) fields)
unfolding find put_field
AllStored-insert m ms fields h s =
    AllStored-insert_by_priority m ms _ (rw (value_eq_refl (Value.text m.uuid)) refl) h (
      AllStored-put_field m.uuid (Value.message m) ms fields h
        (AllStored-without m.uuid ms fields h s))
