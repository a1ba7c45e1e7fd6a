-- ===== src/Handlers/Schedule/Left.antt =====
-- src/system/message-manager/handlers/schedule.handler.ts: what a tick of the schedule worker leaves.
use redis_smq.Prelude.{
  Text, text_eq, text_eq_refl, of_text_eq, ℕ, Bool, true, false, Option, none, some, List, [], ◌∷◌,
  ◌++◌, ◌≡◌, refl, ap, sym, ◌∙◌, arith, Bool-cases, inl, inr, if◌then◌else◌, leb, append-nil,
  append_assoc,
}
use redis_smq.Message.{Message, MessageQueue}
use redis_smq.Keys.Names.{get_global_keys, queue_keys}
use redis_smq.Redis.Value.{Value, value_eq_refl}
use redis_smq.Redis.Keyspace.{Keyspace, without, find, without_all}
use redis_smq.Redis.Keyspace.Ids.{has_id, value_eq-text, find-without, or_false, text_eq_swap}
use redis_smq.Redis.Command.{effect}
use redis_smq.Redis.Program.{done, effects}
use redis_smq.Redis.Server.{on_server, Server, IsReliable, result, content}
use redis_smq.Handlers.Schedule.{enqueue_scheduled_messages}
use redis_smq.Handlers.Schedule.Due.{
  Scheduled, times, is_scheduled, AllStored, due, later, AllServed, published, commands_at,
  after_due, exec-enqueue_scheduled_messages,
}

-- The ids of the messages out of a sorted set or a hash.
drop_ids : {A : Type 0} → List Message → List (Value × A) → List (Value × A)
drop_ids [] xs = xs
drop_ids (m ∷ ms) xs = drop_ids ms (without (Value.text m.uuid) xs)

abbrev pub goes_to : Text → Option MessageQueue → Bool
goes_to key none = false
goes_to key (some q) = text_eq (queue_keys q.ns q.name).key_queue key

one_first :
    (b : Bool) (v : Value) (vs : List Value)
    → (if b then v ∷ [] else []) ++ vs ≡ (if b then v ∷ vs else vs)
one_first true v vs = refl
one_first false v vs = refl

-- The messages for a queue, as they are written.
unfoldable pub for_queue : ℕ → Text → List Message → List Value
for_queue now key [] = []
for_queue now key (m ∷ ms) =
    let rest = for_queue now key ms in
    if goes_to key m.queue then Value.message (published now m) ∷ rest else rest

module _ (now : ℕ) where
  after_due-zset :
      (ms : List Message) (s : Keyspace)
      → AllServed ms
      → (after_due now ms s).zsets get_global_keys.key_queue_scheduled
        ≡ drop_ids ms (s.zsets get_global_keys.key_queue_scheduled)
  unfolding after_due drop_ids effects effect
  after_due-zset [] s h = refl
  after_due-zset (m ∷ ms) s h =
      after_due-zset ms _ h.1
      ∙ ap (drop_ids ms)
          (rw h.0.1.queued (rw (text_eq_refl get_global_keys.key_queue_scheduled) refl))

  after_due-hash :
      (ms : List Message) (s : Keyspace)
      → AllServed ms
      → (after_due now ms s).hashes get_global_keys.key_scheduled_messages
        ≡ drop_ids ms (s.hashes get_global_keys.key_scheduled_messages)
  unfolding after_due drop_ids effects effect without_all
  after_due-hash [] s h = refl
  after_due-hash (m ∷ ms) s h =
      after_due-hash ms _ h.1
      ∙ ap (drop_ids ms)
          (rw h.0.1.queued (rw (text_eq_refl get_global_keys.key_scheduled_messages) refl))

  after_one-list :
      (m : Message) (o : Option MessageQueue) (key : Text) (s : Keyspace)
      → (effects (commands_at now m o) s).lists key
        ≡ s.lists key ++ (if goes_to key o then Value.message (published now m) ∷ [] else [])
  unfolding effects effect
  after_one-list m none key s = sym (append-nil (s.lists key))
  after_one-list m (some q) key s =
      elim (Bool-cases (text_eq (queue_keys q.ns q.name).key_queue key)) [
        | inl e ↦
            rw e (ap (λ k. s.lists k ++ Value.message (published now m) ∷ []) (of_text_eq _ key e))
        | inr e ↦ rw e (sym (append-nil (s.lists key)))
      ]

  after_due-list :
      (ms : List Message) (key : Text) (s : Keyspace)
      → (after_due now ms s).lists key ≡ s.lists key ++ for_queue now key ms
  unfolding after_due for_queue
  after_due-list [] key s = sym (append-nil (s.lists key))
  after_due-list (m ∷ ms) key s =
      after_due-list ms key (effects (commands_at now m m.queue) s)
      ∙ ap (λ l. l ++ for_queue now key ms) (after_one-list m m.queue key s)
      ∙ append_assoc (s.lists key) _ (for_queue now key ms)
      ∙ ap (λ l. s.lists key ++ l) (one_first (goes_to key m.queue) _ _)

without-times :
    (id : Text) (es : List Scheduled)
    → is_scheduled id es ≡ false
    → without (Value.text id) (times es) ≡ times es
unfolding without is_scheduled
without-times id [] h = refl
without-times id ((t, m) ∷ es) h = ground (arith, value_eq-text m.uuid id, without-times id es)

without-first :
    (id : Text) (t : ℕ) (es : List Scheduled)
    → is_scheduled id es ≡ false
    → without (Value.text id) ((Value.text id, t) ∷ times es) ≡ times es
unfolding without
without-first id t es h = rw (value_eq_refl (Value.text id)) (without-times id es h)

drop_ids-cons :
    (ms : List Message) (id : Text) (t : ℕ) (xs : List (Value × ℕ))
    → has_id id ms ≡ false
    → drop_ids ms ((Value.text id, t) ∷ xs) ≡ (Value.text id, t) ∷ drop_ids ms xs
unfolding drop_ids has_id without
drop_ids-cons [] id t xs h = refl
drop_ids-cons (m ∷ ms) id t xs h =
    let (here, there) = or_false (text_eq m.uuid id) (has_id id ms) h in
    rw (value_eq-text id m.uuid ∙ text_eq_swap m.uuid id here)
      (drop_ids-cons ms id t (without (Value.text m.uuid) xs) there)

find-drop_ids :
    (ms : List Message) (id : Text) (fields : List (Value × Value))
    → has_id id ms ≡ false
    → find (Value.text id) (drop_ids ms fields) ≡ find (Value.text id) fields
unfolding drop_ids has_id
find-drop_ids [] id fields h = refl
find-drop_ids (m ∷ ms) id fields h =
    let (here, there) = or_false (text_eq m.uuid id) (has_id id ms) h in
    find-drop_ids ms id (without (Value.text m.uuid) fields) there
    ∙ find-without m.uuid id fields here

module _ (now : ℕ) where
  due-has_id :
      (id : Text) (es : List Scheduled)
      → is_scheduled id es ≡ false
      → has_id id (due now es) ≡ false
  unfolding due has_id is_scheduled
  due-has_id id [] h = refl
  due-has_id id ((t, m) ∷ es) h = ground (arith, due-has_id id es)

  later-is_scheduled :
      (id : Text) (es : List Scheduled)
      → is_scheduled id es ≡ false
      → is_scheduled id (later now es) ≡ false
  unfolding later is_scheduled
  later-is_scheduled id [] h = refl
  later-is_scheduled id ((t, m) ∷ es) h = ground (arith, later-is_scheduled id es)

  drop_ids-times :
      (es : List Scheduled) (fields : List (Value × Value))
      → AllStored es fields
      → drop_ids (due now es) (times es) ≡ times (later now es)
  unfolding drop_ids due later without
  drop_ids-times [] fields h = refl
  drop_ids-times ((t, m) ∷ es) fields h = elim (Bool-cases (leb t now)) [
    | inl e ↦
        rw e (
          ap (drop_ids (due now es)) (without-first m.uuid t es h.1) ∙ drop_ids-times es fields h.2)
    | inr e ↦ rw e (
        drop_ids-cons (due now es) m.uuid t (times es) (due-has_id m.uuid es h.1)
        ∙ ap (λ l. (Value.text m.uuid, t) ∷ l) (drop_ids-times es fields h.2))
  ]

  AllStored-without :
      (id : Text) (es : List Scheduled) (fields : List (Value × Value))
      → is_scheduled id es ≡ false
      → AllStored es fields
      → AllStored es (without (Value.text id) fields)
  unfolding is_scheduled
  AllStored-without id [] fields h s = tt
  AllStored-without id ((t, m) ∷ es) fields h (found, alone, rest) =
      let (here, there) = or_false (text_eq m.uuid id) (is_scheduled id es) h in
      (
        find-without id m.uuid fields (text_eq_swap m.uuid id here) ∙ found,
        alone,
        AllStored-without id es fields there rest,
      )

  AllStored-later :
      (es : List Scheduled) (fields : List (Value × Value))
      → AllStored es fields
      → AllStored (later now es) (drop_ids (due now es) fields)
  unfolding drop_ids due later
  AllStored-later [] fields h = tt
  AllStored-later ((t, m) ∷ es) fields (found, alone, rest) = elim (Bool-cases (leb t now)) [
    | inl e ↦ rw e (
        AllStored-later es (without (Value.text m.uuid) fields)
          (AllStored-without m.uuid es fields alone rest))
    | inr e ↦ rw e (
      find-drop_ids (due now es) m.uuid fields (due-has_id m.uuid es alone) ∙ found,
      later-is_scheduled m.uuid es alone,
      AllStored-later es fields rest,
    )
  ]

-- On a reliable server, without priorities, where messages with different ids are scheduled, and those
-- whose time has come have a queue, a served delay, and no repetition: a tick of the schedule worker
-- succeeds. Every queue gets, at its end and in the order of their times, the messages for it whose
-- time has come, with the present time; nothing else comes to any list but these; and those whose time
-- has not come, and no others, stay scheduled, with their times and their messages.
pub enqueue_scheduled_messages-due :
    (S : Server) (reliable : IsReliable S) (d : S.Db) (next_cron : Text → ℕ → ℕ) (now : ℕ)
    (fresh : Message) (es : List Scheduled)
    → (S.view d).zsets get_global_keys.key_queue_scheduled ≡ times es
    → AllStored es ((S.view d).hashes get_global_keys.key_scheduled_messages)
    → AllServed (due now es)
    → let p = enqueue_scheduled_messages next_cron fresh now false in
      (result S p d ≡ done tt)
      × ((key : Text)
          → (content S p d).lists key ≡ (S.view d).lists key ++ for_queue now key (due now es))
      × ((content S p d).zsets get_global_keys.key_queue_scheduled ≡ times (later now es))
      × AllStored (later now es) ((content S p d).hashes get_global_keys.key_scheduled_messages)
enqueue_scheduled_messages-due S reliable d next_cron now fresh es ranked stored served =
    let s = S.view d in
    let ran =
      on_server S reliable _ d
        (exec-enqueue_scheduled_messages next_cron now fresh es s ranked stored served) in
    (
      ran.0,
      λ key. ap (λ k. k.lists key) ran.1 ∙ after_due-list now (due now es) key s,
      ap (λ k. k.zsets get_global_keys.key_queue_scheduled) ran.1
          ∙ after_due-zset now (due now es) s served
          ∙ ap (drop_ids (due now es)) ranked
          ∙ drop_ids-times now es _ stored,
      rw
          (ap (λ k. k.hashes get_global_keys.key_scheduled_messages) ran.1
            ∙ after_due-hash now (due now es) s served)
          (AllStored-later now es _ stored),
    )
