-- ===== src/Tests/Quota.antt =====
-- Runs of the metering and of the cache of geocodes.
use javi.Prelude.{
  str_eq, ℕ, String, true, false, ◌&&◌, ◌+◌, ◌≡◌, refl, pos, Option, none, some, List, [], ◌∷◌, any,
  first, select, update_where, count, arith, if◌then◌else◌,
}
use javi.Env.{GeocodeResult, SendResult, MessageText, rating_request}
use javi.Providers.{
  Store, is_messaging_metric, Metering, get_maps_provider, get_messaging_provider, Bucket, falls_in,
  used, record_usage,
}
use javi.Providers.Usages.{IsOneRow, send_text-used}
use javi.Providers.Geocodes.{ServesAll, geocode_all_again}

abbrev metering : Metering
metering = record {
  on = true;
  usage_period = λ now. "2026-10";
  normalize_address = λ address. if str_eq address "Bulevar 2" then address else "kneza milosa 3";
}

abbrev empty : Store
empty = record { usage = []; geocodes = [] }

abbrev sent_by_sms : String × MessageText → SendResult
sent_by_sms message = record {
  succeeded = true;
  provider_message_id = some "m1";
  channel = "sms";
  attempts = [];
}

abbrev sms : Bucket
sms = record { metrics = "sms" ∷ []; monthly = false; limit = pos 1000 }

abbrev message : String × MessageText
message = ("+381601234567", rating_request "sr" "Cvet" "t1")

empty-IsOneRow : IsOneRow empty.usage
unfolding count
empty-IsOneRow metric period = omega arith

send_text-used_example :
    let (result, after) = get_messaging_provider metering 7 sent_by_sms message empty in
    let counts =
      result.succeeded
      && is_messaging_metric result.channel
      && falls_in sms "2026-10" result.channel (metering.usage_period 7) in
    (used sms "2026-10" after.usage ≡ used sms "2026-10" empty.usage + (if counts then 1 else 0))
    × IsOneRow after.usage
send_text-used_example =
    send_text-used metering 7 sent_by_sms message empty sms "2026-10" refl empty-IsOneRow

one_sms :
    used sms "2026-10" (get_messaging_provider metering 7 sent_by_sms message empty).1.usage ≡ 1
unfolding used get_messaging_provider select record_usage update_where any
one_sms = refl

abbrev place : GeocodeResult
place = record { lat = 44; lng = 20; formatted_address = "Kneza Milosa 3"; city = "Beograd" }

abbrev knows : String → Option GeocodeResult
knows address = some place

abbrev fails : String → Option GeocodeResult
fails address = none

answered : (get_maps_provider metering 7 knows "Kneza  Milosa 3" empty).0 ≡ some place
unfolding get_maps_provider first
answered = refl

abbrev requests : List (ℕ × String)
requests = (8, "kneza milosa 3") ∷ (8, "Bulevar 2") ∷ (9, " KNEZA Milosa 3") ∷ []

geocode_all_again_example :
    ServesAll metering fails "kneza milosa 3" place requests
      (get_maps_provider metering 7 knows "Kneza  Milosa 3" empty).1
geocode_all_again_example =
    geocode_all_again metering knows fails "Kneza  Milosa 3" 7 place empty requests answered
