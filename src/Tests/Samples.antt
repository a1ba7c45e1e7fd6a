-- ===== src/Tests/Samples.antt =====
-- A server, names, messages and databases for the examples.
use redis_smq.Prelude.{
  Text, text_eq, text_eq_refl, codes, ℕ, false, ◌≢◌, ap, none, some, List, [], ◌∷◌, ◌≡◌, refl,
  arith,
}
use redis_smq.Message.{Message, MessageQueue}
use redis_smq.Message.Defaults.{new_message, default_options}
use redis_smq.Redis.Value.{Value}
use redis_smq.Redis.Keyspace.{Keyspace, empty, set_list}
use redis_smq.Redis.Program.{request_effect, request_reply, request_blocks}
use redis_smq.Redis.Client.{Version}
use redis_smq.Redis.Server.{Server, IsReliable}
use redis_smq.Broker.{Broker}
use redis_smq.Handlers.Processing.Settling.{HasNames, processing_key}

-- A server that does what is documented, and refuses nothing.
abbrev pub server : Server
server = record {
  Db = Keyspace;
  view = λ d. d;
  fault = λ r d. none;
  blocks = request_blocks;
  answer = request_reply;
  next = request_effect;
  blocks_documented = λ r d. refl;
  answer_documented = λ r d. refl;
  next_documented = λ r d. refl;
}

pub server-IsReliable : IsReliable server
server-IsReliable = record { no_fault = λ r d. refl }

abbrev pub shop : Text
shop = codes "shop"

abbrev pub orders : Text
orders = codes "orders"

abbrev pub worker : Text
worker = codes "c1"

pub names_ok : HasNames shop orders worker
names_ok = record { namespace_ok = omega arith; name_ok = omega arith; id_ok = omega arith }

abbrev pub order : Message
order = new_message default_options 1000 (codes "m1")

abbrev pub orders_queue : MessageQueue
orders_queue = record { name = orders; ns = shop }

abbrev pub version : Version
version = record { major = 6; feature = 0; minor = 9 }

abbrev pub broker : Broker
broker = record { namespace = shop; version = some version; priority_queue = false }

-- A database with one list.
abbrev pub with_list : Text → List Value → Keyspace
with_list k vs = set_list k vs empty

pub at_key : (k : Text) (vs : List Value) → (with_list k vs).lists k ≡ vs
at_key k vs = rw (text_eq_refl k) refl

abbrev pub processing : Text
processing = processing_key shop orders worker

abbrev pub at_work : Keyspace
at_work = with_list processing (Value.message order ∷ [])

abbrev pub next_minute : Text → ℕ → ℕ
next_minute cron now = now

-- Texts that the Boolean test tells apart.
pub differ : (a b : Text) → text_eq a b ≡ false → a ≢ b
differ a b h e = cc (h, ap (text_eq a) e, text_eq_refl a)
