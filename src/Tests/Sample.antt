-- ===== src/Tests/Sample.antt =====
-- A service on a clock that stands at one moment, in a time zone without changes of the clock, with a
-- provider that accepts every message; a shop with one delivery that is ready.
use javi.Prelude.{ℕ, suc, ◌+◌, ◌*◌, ◌/◌, ◌%◌, true, false, none, some, [], ◌∷◌}
use javi.Model.{Shop, Delivery, Status, Source, EtaSource}
use javi.Env.{Env, LocalTime, day, minute, second}
use javi.World.{World}

abbrev hours : ℕ
hours = 60 * minute

abbrev pub local_of : ℕ → LocalTime
local_of t = record {
  year = 1970;
  month = 1;
  day_of_month = t / day;
  hour = t % day / hours;
  minutes = t % hours / minute;
  seconds = t % minute / second;
  microsecond = t % second;
}

abbrev pub moment_of : LocalTime → ℕ
moment_of l =
    l.day_of_month * day + l.hour * hours + l.minutes * minute + l.seconds * second + l.microsecond

-- Day 100, 12:00.
abbrev pub noon : ℕ
noon = 100 * day + 12 * hours

abbrev pub env : Env
env = record {
  settings = record {
    send_limit_trial_day = 10;
    send_limit_trial_month = 30;
    send_limit_shop_day = 50;
    send_limit_shop_month = 500;
    send_limit_recipient_day = 5;
    send_limit_resends_per_delivery = 3;
    send_limit_global_day = 500;
    billing_enabled = true;
    billing_start_datetime = some (50 * day);
    billing_trial_days = 30;
    billing_fee_rate = 1700;
    billing_past_due_grace_days = 7;
    eta_buffer_minutes = 10;
    tracking_token_ttl_days = 7;
    fallback_escalation_enabled = false;
    fallback_escalation_delay_minutes = 10;
    retention_days = 90;
    purge_batch_size = 500;
  };
  clock = λ n. noon;
  monotonic = λ n. n;
  localtime = local_of;
  instant = moment_of;
  plus_day = λ l. record l { day_of_month = suc l.day_of_month };
  token_urlsafe = λ n. "token";
  uuid4 = λ n. n;
  geocode = λ n address. none;
  route_duration_seconds = λ n from to. some 600;
  send_text = λ n phone text. record {
    succeeded = true;
    provider_message_id = some "mid-1";
    channel = "viber";
    attempts = [];
  };
  send_text_by = λ paths n phone text. record {
    succeeded = true;
    provider_message_id = some "mid-2";
    channel = "sms";
    attempts = [];
  };
  chain_channel_paths = [];
  enqueue_fails = λ n. false;
  urlsplit_scheme_lower = λ url. "https";
  strip = λ s. s;
}

abbrev pub shop : Shop
shop = record {
  id = 1;
  name = "Pekara";
  origin_address = "Kneza Milosa 1";
  origin_lat = some 448000000;
  origin_lng = some 204000000;
  contact_phone = "";
  webhook_url = "";
  webhook_secret = "";
  sending_verified = true;
  daily_send_limit = none;
  monthly_send_limit = none;
  completed_expanded = false;
  kanban_view = false;
  created_at = 90 * day;
}

abbrev pub delivery : Delivery
delivery = record {
  id = 7;
  shop_id = 1;
  recipient_name = "Ana";
  recipient_phone = "+381601234567";
  phone_risk = false;
  dest_address = "Bulevar 2";
  dest_city = "Beograd";
  dest_lat = some 448100000;
  dest_lng = some 204100000;
  description = "";
  recipient_language = "sr-latn";
  source = Source.manual;
  status = Status.created;
  eta_at = none;
  eta_source = EtaSource.blank;
  started_at = none;
  delivered_at = none;
  deleted_at = none;
  pii_purged_at = none;
  created_at = noon;
}

abbrev pub world : World
world = record {
  db = record {
    shops = shop ∷ [];
    subscriptions = [];
    payments = [];
    deliveries = delivery ∷ [];
    tokens = [];
    ratings = [];
    notifications = [];
    attempts = [];
    sends = [];
    opt_outs = [];
    geocodes = [];
    api_keys = [];
    idempotency_keys = [];
    next_id = 1;
  };
  outbox = [];
  tasks = [];
  calls = 0;
}
