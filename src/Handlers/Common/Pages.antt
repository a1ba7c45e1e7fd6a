-- ===== src/Handlers/Common/Pages.antt =====
-- src/system/message-manager/common.ts: the pages of a list of messages.
use redis_smq.Prelude.{
  Text, ℕ, zero, suc, ◌+◌, ◌-◌, ◌<◌, false, List, [], ◌∷◌, ◌≡◌, refl, sym, ap, ◌∙◌, arith, take,
  drop, length, ltb, ◌==◌, if◌then◌else◌,
}
use redis_smq.Errors.{ok}
use redis_smq.Message.{Message}
use redis_smq.Redis.Value.{Value, create_from_message}
use redis_smq.Redis.Keyspace.{Keyspace, slice}
use redis_smq.Redis.Client.Reads.{exec-llen, exec-lrange}
use redis_smq.Redis.Program.{Program, done, exec, exec-bind, continue, lift, pure, ◌>>=◌}
use redis_smq.Redis.Server.{on_server, Server, IsReliable, result, content}
use redis_smq.Handlers.Common.{
  Page, create_all, present, numbered, get_list_messages, get_paginated_list_messages,
  validate_pagination_params,
}

-- The texts of some messages.
abbrev pub texts : List Message → List Value
texts [] = []
texts (m ∷ ms) = Value.message m ∷ texts ms

length-texts : (ms : List Message) → length (texts ms) ≡ length ms
length-texts [] = refl
length-texts (m ∷ ms) = ap suc (length-texts ms)

take-texts : (n : ℕ) (ms : List Message) → take n (texts ms) ≡ texts (take n ms)
take-texts zero ms = refl
take-texts (suc n) [] = refl
take-texts (suc n) (m ∷ ms) = ap (λ t. Value.message m ∷ t) (take-texts n ms)

drop-texts : (n : ℕ) (ms : List Message) → drop n (texts ms) ≡ texts (drop n ms)
drop-texts zero ms = refl
drop-texts (suc n) [] = refl
drop-texts (suc n) (m ∷ ms) = drop-texts n ms

pub create_all-texts :
    (fresh : Message) (ms : List Message) → create_all fresh (present (texts ms)) ≡ ok ms
unfolding create_all create_from_message
create_all-texts fresh [] = refl
create_all-texts fresh (m ∷ ms) = rw (create_all-texts fresh ms) refl

-- The page of some messages.
abbrev pub page : ℕ → ℕ → List Message → Page (ℕ × Message)
page skip n ms = record { total = length ms; items = numbered skip (take n (drop skip ms)) }

empty_page :
    (skip n : ℕ) (ms : List Message)
    → length ms ≡ 0
    → page skip n ms ≡ record { total = 0; items = [] }
unfolding numbered
empty_page zero zero [] h = refl
empty_page zero (suc n) [] h = refl
empty_page (suc skip) zero [] h = refl
empty_page (suc skip) (suc n) [] h = refl
empty_page skip n (m ∷ ms) h = absurd (omega arith)

not_zero : (n : ℕ) → suc n == 0 ≡ false
not_zero n = ground arith

at_least_one : (n : ℕ) → 0 < n → ltb n 1 ≡ false
at_least_one n h = ground arith

module _ (fresh : Message) (key : Text) (skip n : ℕ) (positive : 0 < n) (ms : List Message)
    (s : Keyspace) (stored : s.lists key ≡ texts ms) where
  slice-texts : slice skip (skip + n - 1) (s.lists key) ≡ texts (take n (drop skip ms))
  slice-texts =
      ap (slice skip (skip + n - 1)) stored
      ∙ ap (λ k. take k (drop skip (texts ms))) {y = n} (omega arith)
      ∙ ap (take n) (drop-texts skip ms)
      ∙ take-texts n (drop skip ms)

  exec-get_list_messages :
      exec (get_list_messages fresh key skip n) s ≡ (done (take n (drop skip ms)), s)
  unfolding get_list_messages validate_pagination_params exec
  exec-get_list_messages = rw (at_least_one n positive) (
      exec-lrange key s skip (skip + n - 1) (λ reply. lift (create_all fresh (present reply)))
      ∙ ap (λ l. exec (lift (create_all fresh (present l))) s) slice-texts
      ∙ ap (λ r. exec (lift r) s) (create_all-texts fresh (take n (drop skip ms))))

  abbrev page_from : ℕ → List Message → Page (ℕ × Message)
  page_from total found = record { total = total; items = numbered skip found }

  -- What is done with the number of all messages.
  abbrev with_total : ℕ → Program (Page (ℕ × Message))
  with_total total =
      if total == 0
      then pure (record { total = total; items = [] })
      else (get_list_messages fresh key skip n >>= λ found. pure (page_from total found))

  exec-with_total :
      (total : ℕ) → total ≡ length ms → exec (with_total total) s ≡ (done (page skip n ms), s)
  unfolding exec numbered
  exec-with_total zero e = ap (λ p. (done p, s)) (sym (empty_page skip n ms (sym e)))
  exec-with_total (suc total) e =
      ap
        (λ b.
          exec
            (if b
              then pure (record { total = suc total; items = [] })
              else (get_list_messages fresh key skip n >>= λ found.
                  pure (page_from (suc total) found)))
            s)
        (not_zero total)
      ∙ exec-bind (λ found. pure (page_from (suc total) found)) (get_list_messages fresh key skip n)
          s
      ∙ ap (λ x. continue x (λ found. pure (page_from (suc total) found))) exec-get_list_messages
      ∙ ap (λ k. (done (page_from k (take n (drop skip ms))), s)) e

  exec-page : exec (get_paginated_list_messages fresh key skip n) s ≡ (done (page skip n ms), s)
  unfolding get_paginated_list_messages
  exec-page =
      exec-llen key s with_total
      ∙ exec-with_total (length (s.lists key)) (ap length stored ∙ length-texts ms)

-- On a reliable server, where a key holds a list of messages: the page of a positive number of messages
-- from an index on is given. It has the number of all messages, and those of the list from that
-- index on, each with its place in the list; reading it changes nothing.
pub get_paginated_list_messages_lem :
    (S : Server) (reliable : IsReliable S) (d : S.Db) (fresh : Message) (key : Text) (skip n : ℕ)
    (ms : List Message)
    → 0 < n
    → (S.view d).lists key ≡ texts ms
    → (result S (get_paginated_list_messages fresh key skip n) d ≡ done (page skip n ms))
      × (content S (get_paginated_list_messages fresh key skip n) d ≡ S.view d)
get_paginated_list_messages_lem S reliable d fresh key skip n ms positive stored =
    on_server S reliable _ d (exec-page fresh key skip n positive ms (S.view d) stored)
