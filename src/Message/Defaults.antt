-- ===== src/Message/Defaults.antt =====
-- src/system/message.ts: the default options, and the constructor that reads them.
use redis_smq.Prelude.{Text, ℕ, Bool, false, ◌&&◌, not, Option, none, some, ltb, ◌==◌, codes}
use redis_smq.Errors.{Result, ok, ◌>>◌, throw_if, configuration_error}
use redis_smq.Message.{Message}

pub record DefaultOptions : Type 0 where
  pub ttl : ℕ
  pub retry_threshold : ℕ
  pub retry_delay : ℕ
  pub consume_timeout : ℕ

-- `Partial<TMessageDefaultOptions>`: a property may be absent.
pub record PartialOptions : Type 0 where
  pub ttl : Option ℕ
  pub retry_threshold : Option ℕ
  pub retry_delay : Option ℕ
  pub consume_timeout : Option ℕ

abbrev pub default_options : DefaultOptions
default_options = record { consume_timeout = 0; retry_threshold = 3; retry_delay = 60000; ttl = 0 }

-- `new Message()` at a time and with a fresh uuid.
unfoldable pub new_message : DefaultOptions → ℕ → Text → Message
new_message opts now uuid = record {
  ttl = opts.ttl;
  retry_threshold = opts.retry_threshold;
  retry_delay = opts.retry_delay;
  consume_timeout = opts.consume_timeout;
  body = codes "null";
  priority = none;
  scheduled_cron = none;
  scheduled_delay = none;
  scheduled_period = none;
  scheduled_repeat = 0;
  uuid = uuid;
  created_at = now;
  queue = none;
  published_at = none;
  scheduled_at = none;
  scheduled_cron_fired = false;
  attempts = 0;
  scheduled_repeat_count = 0;
  delayed = false;
  expired = false;
}

-- `options.x && options.x < 1000`
abbrev too_small : Option ℕ → Bool
too_small none = false
too_small (some n) = not (n == 0) && ltb n 1000

-- `{ ...defaults, ...options }`, at one property
abbrev override : Option ℕ → ℕ → ℕ
override none d = d
override (some n) d = n

unfoldable pub set_default_options : PartialOptions → DefaultOptions → Result DefaultOptions
set_default_options options defaults = do
  throw_if (too_small options.consume_timeout) configuration_error
  throw_if (too_small options.retry_delay) configuration_error
  throw_if (too_small options.ttl) configuration_error
  ok (record {
    ttl = override options.ttl defaults.ttl;
    retry_threshold = override options.retry_threshold defaults.retry_threshold;
    retry_delay = override options.retry_delay defaults.retry_delay;
    consume_timeout = override options.consume_timeout defaults.consume_timeout;
  })
