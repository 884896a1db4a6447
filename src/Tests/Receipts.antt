-- ===== src/Tests/Receipts.antt =====
-- Receipts of the message of one notification.
use mathlib.Core.List.Perm
use javi.Prelude.{String, List, All, ◌≡◌, refl, true, false, none, some, [], ◌∷◌, first}
use javi.Model.{Notification, Kind, sent}
use javi.World.{World}
use javi.Secrets.{Credentials, request_has_secret}
use javi.Exec.{ok}
use javi.Receipts.{is_opted_out}
use javi.Receipts.Optouts.{Stop, infobip_optout, IsHeeded, infobip_optout-IsHeeded}
use javi.Receipts.{Receipt, handle_receipts}
use javi.Receipts.Progress.{after_receipts, after_receipts-perm}
use javi.Receipts.Handler.{IsRowOf, with_status, handle_receipts_lem}
use javi.Tests.Sample.{env, world, noon}

abbrev arrived : Receipt
arrived = record { message_id = "mid-1"; seen = false; group = "DELIVERED" }

abbrev seen_it : Receipt
seen_it = record { message_id = "mid-1"; seen = true; group = "" }

abbrev notice : Notification
notice = record {
  id = 1;
  delivery_id = 7;
  kind = Kind.on_the_way;
  channel = "viber";
  provider_message_id = "mid-1";
  logical_message_id = 3;
  status = sent;
  sent_at = some noon;
  created_at = noon;
}

abbrev notified : World
notified = record world { db = record world.db { notifications = notice ∷ [] } }

after_receipts-perm_example :
    after_receipts sent (arrived ∷ seen_it ∷ []) ≡ after_receipts sent (seen_it ∷ arrived ∷ [])
after_receipts-perm_example =
    after_receipts-perm sent (arrived ∷ seen_it ∷ []) (seen_it ∷ arrived ∷ [])
      (Perm.swap seen_it arrived [])

handle_receipts_lem_example :
    IsRowOf "mid-1"
      (with_status notice (after_receipts sent (arrived ∷ seen_it ∷ [])))
      (handle_receipts env (arrived ∷ seen_it ∷ []) notified).1
unfolding first
handle_receipts_lem_example =
    handle_receipts_lem env "mid-1" notice (arrived ∷ seen_it ∷ []) notified refl (refl, (refl, tt))
      (record { by_message = refl; by_id = refl })

abbrev stranger : Credentials
stranger = record { header = some "guess"; password = none; query = none }

abbrev infobip : Credentials
infobip = record { header = some "secret"; password = none; query = none }

abbrev stops : List Stop
stops =
    record { to = ""; phone_number = "381601234567"; destination = "" }
    ∷ record { to = "+381601234568"; phone_number = ""; destination = "" }
    ∷ []

let_in : request_has_secret infobip "secret" ≡ true
unfolding request_has_secret
let_in = refl

infobip_optout-IsHeeded_example :
    let after = (infobip_optout env "secret" infobip (some stops) world).1 in
    ((infobip_optout env "secret" infobip (some stops) world).0 ≡ ok 200)
    × All (IsHeeded env after) stops
    × ((p : String) → is_opted_out env p world.db ≡ true → is_opted_out env p after.db ≡ true)
infobip_optout-IsHeeded_example = infobip_optout-IsHeeded env "secret" infobip stops world let_in
