-- ===== src/Pages/Forms.antt =====
-- deliveries/forms.py. Django's fields have read and stripped the texts; where one of them refuses
-- its text, there is no cleaned form, and `none` is a form that is not valid. What stands here are
-- the `clean` methods.
use javi.Prelude.{
  ℕ, String, Bool, not, ◌&&◌, ◌==◌, leb, Option, none, some, if◌then◌else◌, truthy, text_or,
}
use javi.Model.{Delivery, is_on_the_way}
use javi.Env.{Env, LocalTime}
use javi.Exec.{Exec, pure, ◌>>=◌}
use javi.Runtime.{timezone_now}
use javi.Deliveries.Messages.{PhoneResult}
use javi.Deliveries.Edit.{Edit}
use javi.Api.Create.{Readers}

-- `datetime.date`, and the hour and minutes of a time in the form `%H:%M`.
pub record Date : Type 0 where
  pub year : ℕ
  pub month : ℕ
  pub day_of_month : ℕ

pub record ClockTime : Type 0 where
  pub hour : ℕ
  pub minutes : ℕ

abbrev pub date_of : LocalTime → Date
date_of t = record { year = t.year; month = t.month; day_of_month = t.day_of_month }

abbrev pub clock_of : LocalTime → ClockTime
clock_of t = record { hour = t.hour; minutes = t.minutes }

-- `datetime.combine(day, time, tzinfo=BELGRADE)`
abbrev pub combine : Date → ClockTime → LocalTime
combine d t = record {
  year = d.year;
  month = d.month;
  day_of_month = d.day_of_month;
  hour = t.hour;
  minutes = t.minutes;
  seconds = 0;
  microsecond = 0;
}

-- Two local times of one zone are compared by what the clock shows; both are on the minute here.
unfoldable pub same_minute : LocalTime → LocalTime → Bool
same_minute a b =
    a.year == b.year
    && a.month == b.month
    && a.day_of_month == b.day_of_month
    && a.hour == b.hour
    && a.minutes == b.minutes

pub record DeliveryFields : Type 0 where
  pub recipient_phone : String
  pub recipient_name : String
  pub recipient_language : String
  pub dest_address : String
  pub description : String

pub record EditFields : Type 0 where
  pub fields : DeliveryFields
  pub eta_date : Option Date
  pub eta_time : Option ClockTime

pub record EtaFields : Type 0 where
  pub eta_date : Option Date
  pub eta_time : ClockTime

pub record StoreFields : Type 0 where
  pub name : String
  pub address : String
  pub contact_phone : String
  pub webhook_url : String
  pub webhook_secret : String
  pub clear_webhook_secret : Bool

-- `clean_shop_name` of common/text.py
pub record NameReader : Type 0 where
  pub clean_shop_name : String → Option String

module _ (readers : Readers) where
  unfoldable pub cleaned_as : DeliveryFields → Option ℕ → Option PhoneResult → Option Edit
  cleaned_as f eta_at none = none
  cleaned_as f eta_at (some phone) = some (record {
    recipient_name = f.recipient_name;
    phone = phone;
    dest_address = f.dest_address;
    description = f.description;
    language = text_or f.recipient_language readers.default_language;
    eta_at = eta_at;
  })

  -- `DeliveryForm`, with the ETA of `DeliveryEditForm`
  unfoldable pub clean_delivery : Option DeliveryFields → Option ℕ → Option Edit
  unfolding cleaned_as
  clean_delivery none eta_at = none
  clean_delivery (some f) eta_at = cleaned_as f eta_at (readers.normalize_phone f.recipient_phone)

  -- `RecipientPhoneForm`
  unfoldable pub clean_phone : Option String → Option PhoneResult
  clean_phone none = none
  clean_phone (some raw) = readers.normalize_phone raw

  contact_of : Option PhoneResult → Option String
  contact_of none = none
  contact_of (some phone) = some phone.e164

  -- `ShopOriginForm.clean_contact_phone`
  unfoldable pub clean_contact_phone : Env → String → Option String
  unfolding contact_of
  clean_contact_phone env raw =
      if not (truthy (env.strip raw))
      then some ""
      else contact_of (readers.normalize_phone (env.strip raw))

  with_phone : StoreFields → String → Option String → Option StoreFields
  with_phone f name none = none
  with_phone f name (some phone) = some (record f { name = name; contact_phone = phone })

  with_name : StoreFields → Option String → Option String → Option StoreFields
  unfolding with_phone
  with_name f none phone = none
  with_name f (some name) phone = with_phone f name phone

  -- `ShopOriginForm`
  unfoldable pub clean_store : NameReader → Env → Option StoreFields → Option StoreFields
  unfolding with_name clean_contact_phone
  clean_store names env none = none
  clean_store names env (some f) =
      with_name f (names.clean_shop_name f.name) (clean_contact_phone env f.contact_phone)

-- The ETA that the form of an edit leads to.
pub data EtaEdit : Type 0 where
  refused keep_eta : EtaEdit
  set_eta : ℕ → EtaEdit

module _ (env : Env) where
  day_or_today : Option Date → Exec Date
  day_or_today (some day) = pure day
  day_or_today none = do now ← timezone_now env; pure (date_of (env.localtime now))

  -- `ManualEtaForm.clean`; `none` is a form that is not valid.
  unfoldable pub clean_eta : Option EtaFields → Exec (Option ℕ)
  unfolding day_or_today
  clean_eta none = pure none
  clean_eta (some f) = do
    day ← day_or_today f.eta_date
    now ← timezone_now env
    let eta_at = env.instant (combine day f.eta_time)
    pure (if leb eta_at now then none else some eta_at)

  day_or : Option Date → LocalTime → Date
  day_or none local = date_of local
  day_or (some day) local = day

  edited_time : LocalTime → LocalTime → Exec EtaEdit
  edited_time local given = if same_minute given local then pure keep_eta else do
    now ← timezone_now env
    let eta_at = env.instant given
    pure (if leb eta_at now then refused else set_eta eta_at)

  edited_from : Option ℕ → Option Date → Option ClockTime → Exec EtaEdit
  unfolding edited_time day_or
  edited_from (some eta_at) date (some time) =
      let local = env.localtime eta_at in edited_time local (combine (day_or date local) time)
  edited_from _ date time = pure keep_eta

  -- `DeliveryEditForm.clean`
  unfoldable pub clean_edit_eta : Delivery → Option Date → Option ClockTime → Exec EtaEdit
  unfolding edited_from
  clean_edit_eta d date time =
      if is_on_the_way d.status then edited_from d.eta_at date time else pure keep_eta

  -- `initial` of the form
  unfoldable pub initial_fields : Delivery → DeliveryFields
  initial_fields d = record {
    recipient_phone = d.recipient_phone;
    recipient_name = d.recipient_name;
    recipient_language = d.recipient_language;
    dest_address = d.dest_address;
    description = d.description;
  }

  date_at : Option ℕ → Option Date
  date_at none = none
  date_at (some t) = some (date_of (env.localtime t))

  time_at : Option ℕ → Option ClockTime
  time_at none = none
  time_at (some t) = some (clock_of (env.localtime t))

  unfoldable pub initial_edit : Delivery → EditFields
  unfolding initial_fields date_at time_at
  initial_edit d =
      let eta = if is_on_the_way d.status then d.eta_at else none in
      record { fields = initial_fields d; eta_date = date_at eta; eta_time = time_at eta }
