-- ===== src/Env.antt =====
-- What the program takes from outside: its settings (config/settings.py), the clock, the time zone
-- and the providers (integrations/base.py). Every call of the clock, a generator, a provider or the
-- task queue has a number, the first argument here, so two calls may answer differently.
use javi.Prelude.{ℕ, ◌*◌, String, Bool, List, Option}
use javi.Model.{Coordinate}

pub record Settings : Type 0 where
  pub send_limit_trial_day : ℕ
  pub send_limit_trial_month : ℕ
  pub send_limit_shop_day : ℕ
  pub send_limit_shop_month : ℕ
  pub send_limit_recipient_day : ℕ
  pub send_limit_resends_per_delivery : ℕ
  pub send_limit_global_day : ℕ
  pub billing_enabled : Bool
  pub billing_start_datetime : Option ℕ
  pub billing_trial_days : ℕ
  pub billing_past_due_grace_days : ℕ
  pub eta_buffer_minutes : ℕ
  pub tracking_token_ttl_days : ℕ
  pub fallback_escalation_enabled : Bool
  pub fallback_escalation_delay_minutes : ℕ
  pub retention_days : ℕ
  pub purge_batch_size : ℕ
  pub billing_fee_rate : ℕ

abbrev pub second : ℕ
second = 1000000

abbrev pub minute : ℕ
minute = 60 * second

abbrev pub day : ℕ
day = 86400 * second

-- A moment in the time zone of the service, as `datetime.astimezone` gives it.
pub record LocalTime : Type 0 where
  pub year : ℕ
  pub month : ℕ
  pub day_of_month : ℕ
  pub hour : ℕ
  pub minutes : ℕ
  pub seconds : ℕ
  pub microsecond : ℕ

pub record AttemptResult : Type 0 where
  pub channel : String
  pub succeeded : Bool
  pub provider_message_id : Option String

pub record SendResult : Type 0 where
  pub succeeded : Bool
  pub provider_message_id : Option String
  pub channel : String
  pub attempts : List AttemptResult

pub record GeocodeResult : Type 0 where
  pub lat : Coordinate
  pub lng : Coordinate
  pub formatted_address : String
  pub city : String

-- The two templates of deliveries/services.py with what is put into them; `gettext` and `%` make the
-- text.
pub data MessageText : Type 0 where
  on_the_way : (language shop : String) (eta_at : Option ℕ) (token : String) → MessageText
  rating_request : (language shop token : String) → MessageText

pub record Env : Type 0 where
  pub settings : Settings
  pub clock : ℕ → ℕ
  pub monotonic : ℕ → ℕ
  pub localtime : ℕ → LocalTime
  pub instant : LocalTime → ℕ
  pub plus_day : LocalTime → LocalTime
  pub token_urlsafe : ℕ → String
  pub uuid4 : ℕ → ℕ
  pub geocode : ℕ → String → Option GeocodeResult
  pub route_duration_seconds : ℕ → Coordinate × Coordinate → Coordinate × Coordinate → Option ℕ
  pub send_text : ℕ → String → MessageText → SendResult
  pub send_text_by : List String → ℕ → String → MessageText → SendResult
  pub chain_channel_paths : List (String × String)
  pub enqueue_fails : ℕ → Bool
  pub urlsplit_scheme_lower : String → String
  pub strip : String → String
