-- ===== src/Providers.antt =====
-- integrations/metering.py, integrations/cache.py, integrations/usage.py and the rows of
-- integrations/models.py: the calls of providers that are counted, the cache of geocodes before
-- them, and the summary of the quotas.
pub mod Usages
pub mod Others
pub mod Geocodes
use javi.Prelude.{
  ℕ, zero, suc, ◌+◌, ◌*◌, ◌-◌, ◌/◌, ◌%◌, String, Bool, true, false, not, ◌&&◌, ◌||◌, ◌==◌, str_eq,
  ltb, round_div, ℤ, pos, negsuc, Option, none, some, List, [], ◌∷◌, ◌++◌, first, any, select,
  update_where, if◌then◌else◌, truthy,
}
use javi.Model.{Coordinate}
use javi.Env.{GeocodeResult, SendResult, MessageText}
use javi.World.{GeocodeEntry}

-- A row of ProviderUsage.
pub record Usage : Type 0 where
  pub metric : String
  pub period : String
  pub count : ℕ

abbrev pub is_usage : String → String → Usage → Bool
is_usage metric period u = str_eq u.metric metric && str_eq u.period period

abbrev pub add_to : ℕ → Usage → Usage
add_to n u = record u { count = u.count + n }

-- The order of rows is that of their insertion.
unfoldable pub get_or_create : String → String → List Usage → List Usage
get_or_create metric period rows =
    if any (is_usage metric period) rows
    then rows
    else record { metric = metric; period = period; count = 0 } ∷ rows

-- `ProviderUsage.record`
unfoldable pub record_usage : String → ℕ → String → List Usage → List Usage
unfolding get_or_create
record_usage metric n period rows =
    update_where (is_usage metric period) (add_to n) (get_or_create metric period rows)

pub record Store : Type 0 where
  pub usage : List Usage
  pub geocodes : List GeocodeEntry

abbrev pub counted : String → String → Store → Store
counted metric period s = record s { usage = record_usage metric 1 period s.usage }

abbrev pub is_messaging_metric : String → Bool
is_messaging_metric channel =
    str_eq channel "telegram"
    || str_eq channel "viber"
    || str_eq channel "whatsapp"
    || str_eq channel "sms"

abbrev pub is_cached : String → GeocodeEntry → Bool
is_cached key g = str_eq g.normalized_address key

unfoldable pub cached_geocode : String → List GeocodeEntry → Option GeocodeEntry
cached_geocode key rows = first (is_cached key) rows

-- `update_or_create`; an insertion sets `created_at`, an update leaves it.
unfoldable pub store_geocode : String → GeocodeResult → ℕ → List GeocodeEntry → List GeocodeEntry
store_geocode key result now rows =
    if any (is_cached key) rows
    then update_where (is_cached key) (λ (g : GeocodeEntry). record g { result = result }) rows
    else record { normalized_address = key; result = result; created_at = now } ∷ rows

-- A provider of maps, of routes or of messages, with what its call does to the tables.
abbrev pub Call : Type 0 → Type 0 → Type 0
Call A B = A → Store → B × Store

abbrev pub plain : {A B : Type 0} → (A → B) → Call A B
plain f a s = (f a, s)

unfoldable pub remember : String → ℕ → Option GeocodeResult × Store → Option GeocodeResult × Store
unfolding store_geocode
remember key now (none, s) = (none, s)
remember key now (some result, s) =
    (some result, record s { geocodes = store_geocode key result now s.geocodes })

-- What a time of a call is to the code, and the setting that turns the metering on.
pub record Metering : Type 0 where
  pub on : Bool
  pub usage_period : ℕ → String
  pub normalize_address : String → String

module _ (m : Metering) (now : ℕ) where
  -- `MeteringMapsProvider.geocode`, `MeteringRoutesProvider.route_duration_seconds`
  unfoldable pub metering_call : {A B : Type 0} → String → Call A B → Call A B
  metering_call metric inner a s = inner a (counted metric (m.usage_period now) s)

  unfoldable pub count_sent : SendResult × Store → SendResult × Store
  count_sent (result, s) =
      if result.succeeded && is_messaging_metric result.channel
      then (result, counted result.channel (m.usage_period now) s)
      else (result, s)

  -- `MeteringMessagingProvider.send_text`
  unfoldable pub metering_send_text :
      Call (String × MessageText) SendResult → Call (String × MessageText) SendResult
  unfolding count_sent
  metering_send_text inner message s = count_sent (inner message s)

  unfoldable pub geocode_missing :
      String
      → Option GeocodeEntry
      → Call String (Option GeocodeResult)
      → Call String (Option GeocodeResult)
  unfolding remember
  geocode_missing key (some g) inner address s = (some g.result, s)
  geocode_missing key none inner address s = remember key now (inner address s)

  -- `CachingMapsProvider.geocode`
  unfoldable pub caching_geocode :
      Call String (Option GeocodeResult) → Call String (Option GeocodeResult)
  unfolding geocode_missing cached_geocode
  caching_geocode inner address s =
      let key = m.normalize_address address in
      if not (truthy key)
      then (none, s)
      else geocode_missing key (cached_geocode key s.geocodes) inner address s

  -- `get_maps_provider`, of what the provider answers
  unfoldable pub get_maps_provider :
      (String → Option GeocodeResult) → Call String (Option GeocodeResult)
  unfolding caching_geocode metering_call
  get_maps_provider provider address s =
      if m.on
      then caching_geocode (metering_call "maps_geocode" (plain provider)) address s
      else caching_geocode (plain provider) address s

  unfoldable pub get_routes_provider :
      ((Coordinate × Coordinate) × (Coordinate × Coordinate) → Option ℕ)
      → Call ((Coordinate × Coordinate) × (Coordinate × Coordinate)) (Option ℕ)
  unfolding metering_call
  get_routes_provider provider ends s =
      if m.on then metering_call "maps_route" (plain provider) ends s else plain provider ends s

  unfoldable pub get_messaging_provider :
      (String × MessageText → SendResult) → Call (String × MessageText) SendResult
  unfolding metering_send_text
  get_messaging_provider provider message s =
      if m.on then metering_send_text (plain provider) message s else plain provider message s

-- A quota of integrations/usage.py.
pub record Bucket : Type 0 where
  pub metrics : List String
  pub monthly : Bool
  pub limit : ℤ

pub record BucketRow : Type 0 where
  pub used : ℕ
  pub limit : ℤ
  pub remaining : Option ℕ
  pub pct : Option ℕ

-- `_buckets`, with the three limits of the settings
abbrev pub buckets : ℤ → ℤ → ℤ → List Bucket
buckets viber sms maps =
    record { metrics = "viber" ∷ []; monthly = false; limit = viber }
    ∷ record { metrics = "sms" ∷ []; monthly = false; limit = sms }
    ∷ record { metrics = "maps_geocode" ∷ "maps_route" ∷ []; monthly = true; limit = maps }
    ∷ []

-- Whether a counter of this metric and period is of the bucket, in the period of the summary.
unfoldable pub falls_in : Bucket → String → String → String → Bool
falls_in b current metric period =
    any (str_eq metric) b.metrics && (not b.monthly || str_eq period current)

unfoldable pub sum_counts : List Usage → ℕ
sum_counts [] = 0
sum_counts (u ∷ rest) = u.count + sum_counts rest

-- `_used`
unfoldable pub used : Bucket → String → List Usage → ℕ
unfolding falls_in sum_counts
used b current rows = sum_counts (select (λ (u : Usage). falls_in b current u.metric u.period) rows)

abbrev pub at_most : ℕ → ℕ → ℕ
at_most top n = if ltb top n then top else n

unfoldable pub bucket_row : ℕ → ℤ → BucketRow
unfolding round_div
bucket_row n (pos (suc l)) = record {
  used = n;
  limit = pos (suc l);
  remaining = some (suc l - n);
  pct = some (at_most 100 (round_div (n * 100) (suc l)));
}
bucket_row n (pos zero) = record { used = n; limit = pos zero; remaining = none; pct = none }
bucket_row n (negsuc l) = record { used = n; limit = negsuc l; remaining = none; pct = none }

unfoldable pub summary : List Bucket → String → List Usage → List BucketRow
unfolding used bucket_row
summary [] current rows = []
summary (b ∷ rest) current rows =
    bucket_row (used b current rows) b.limit ∷ summary rest current rows

-- The summary in Django's cache, until it expires.
pub record Kept : Type 0 where
  pub rows : List BucketRow
  pub expires_at : ℕ

unfoldable pub still_kept : ℕ → Option Kept → Option (List BucketRow)
still_kept clock none = none
still_kept clock (some k) = if ltb clock k.expires_at then some k.rows else none

module _ (m : Metering) (seconds : ℕ) (bs : List Bucket) (clock : ℕ) where
  unfoldable pub fresh_summary : ℕ → List Usage → List BucketRow
  unfolding summary
  fresh_summary now rows = summary bs (m.usage_period now) rows

  unfoldable pub kept_summary :
      Option (List BucketRow) → List Usage → Option Kept → List BucketRow × Option Kept
  unfolding fresh_summary
  kept_summary (some out) rows kept = (out, kept)
  kept_summary none rows kept =
      let out = fresh_summary clock rows in
      (out, some (record { rows = out; expires_at = clock + 60 * seconds }))

  -- `quota_summary`; a call with a time of its own is not cached.
  unfoldable pub quota_summary :
      Option ℕ → Bool → List Usage → Option Kept → List BucketRow × Option Kept
  unfolding kept_summary still_kept
  quota_summary (some now) use_cache rows kept = (fresh_summary now rows, kept)
  quota_summary none true rows kept = kept_summary (still_kept clock kept) rows kept
  quota_summary none false rows kept = (fresh_summary clock rows, kept)
