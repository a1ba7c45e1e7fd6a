-- ===== src/Tests/Requests.antt =====
-- The classes of the requests to the monitor server, and its services, for the examples.
use redis_smq.Prelude.{
  Text, text_eq, codes, ℕ, ◌+◌, Option, none, some, List, [], ◌∷◌, if◌then◌else◌,
}
use redis_smq.MonitorServer.Dto.{
  Classes, ClassConstructor, Plain, Response, ValidationError, refused, EmptyRequest,
}
use redis_smq.MonitorServer.Services.{Application}
use redis_smq.Tests.Samples.{shop, worker, order}

-- The last field of a name.
abbrev field_or : Text → Text → Plain → Text
field_or name value [] = value
field_or name value ((k, v) ∷ fields) = field_or name (if text_eq k name then v else value) fields

abbrev field : Text → Plain → Text
field name = field_or name []

-- A number, by the number of its strokes.
abbrev number : Text → ℕ
number [] = 0
number (c ∷ cs) = number cs + 1

abbrev optional : Text → Option ℕ
optional [] = none
optional (c ∷ cs) = some (number cs)

abbrev accept : {D : Type 0} → D → List ValidationError
accept object = []

abbrev require : Text → List ValidationError
require [] = refused (codes "ns") ∷ []
require (c ∷ cs) = []

abbrev class_of : {D : Type 0} → (Plain → D) → (D → List ValidationError) → ClassConstructor Plain D
class_of make validate = record { plain_to_class = make; key_count = λ d. 1; validate = validate }

abbrev pub any_response : ClassConstructor Response Response
any_response = record { plain_to_class = λ r. r; key_count = λ r. 2; validate = accept }

abbrev pub classes : Classes
classes = record {
  get_messages_request =
      class_of
        (λ p. record {
          ns = field (codes "ns") p;
          queue_name = field (codes "queueName") p;
          skip = optional (field (codes "skip") p);
          take = optional (field (codes "take") p);
        })
        (λ d. require d.ns);
  get_scheduled_messages_request =
      class_of
        (λ p. record {
          skip = optional (field (codes "skip") p);
          take = optional (field (codes "take") p);
        })
        accept;
  delete_message_request =
      class_of
        (λ p. record {
          ns = field (codes "ns") p;
          queue_name = field (codes "queueName") p;
          id = field (codes "id") p;
          sequence_id = number (field (codes "sequenceId") p);
        })
        (λ d. require d.ns);
  delete_pending_message_with_priority_request =
      class_of
        (λ p. record {
          ns = field (codes "ns") p;
          queue_name = field (codes "queueName") p;
          id = field (codes "id") p;
        })
        (λ d. require d.ns);
  delete_scheduled_message_request = class_of (λ p. record { id = field (codes "id") p }) accept;
  purge_queue_request =
      class_of (λ p. record { ns = field (codes "ns") p; queue_name = field (codes "queueName") p })
        (λ d. require d.ns);
  requeue_message_request =
      class_of
        (λ p. record {
          ns = field (codes "ns") p;
          queue_name = field (codes "queueName") p;
          id = field (codes "id") p;
          sequence_id = number (field (codes "sequenceId") p);
          priority = optional (field (codes "priority") p);
        })
        (λ d. require d.ns);
  empty_request = class_of (λ p. EmptyRequest.empty_request) accept;
  get_queues_response = any_response;
  get_messages_response = any_response;
  get_messages_by_id_response = any_response;
  no_content_response = any_response;
}

abbrev pub app : Application
app = record { namespace = shop; fresh = order; me = worker; now = 9000 }
