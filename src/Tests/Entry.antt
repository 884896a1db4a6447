-- ===== src/Tests/Entry.antt =====
-- Requests of an API key and callbacks of the task queue.
use javi.Prelude.{◌⊎◌, false, ◌+◌, ◌≡◌, refl, none, some, [], ◌∷◌, first, any}
use javi.Model.{Delivery}
use javi.Env.{day}
use javi.World.{World}
use javi.Exec.{ok}
use javi.Secrets.{Credentials}
use javi.Deliveries.{delivery_row}
use javi.Model.{on_the_way}
use javi.Api.{not_found, mark_as_delivered, handle}
use javi.Api.Others.{is_own_row, IsOwn, handle-IsOwn}
use javi.Deliveries.Edit.{Edit, EditResult, update_delivery}
use javi.Deliveries.Edit.Done.{IsEdited, update_delivery-IsEdited}
use javi.Tests.Sample.{env, shop, delivery, world, noon}

abbrev stranger : Credentials
stranger = record { header = some "guess"; password = none; query = none }

abbrev queue : Credentials
queue = record { header = some "secret"; password = none; query = none }

abbrev postponed : Delivery
postponed = record delivery { status = on_the_way; eta_at = some (noon + day) }

abbrev waiting : World
waiting = record world { db = record world.db { deliveries = postponed ∷ [] } }

abbrev neighbour : World
neighbour = record world {
  db = record world.db { deliveries = record delivery { id = 8 } ∷ delivery ∷ [] };
}

handle-IsOwn_example :
    ((handle env shop 7 mark_as_delivered neighbour ≡ (ok not_found, neighbour))
      × (any (is_own_row shop 7) neighbour.deliveries ≡ false))
    ⊎ IsOwn shop 7 neighbour (handle env shop 7 mark_as_delivered neighbour).1
handle-IsOwn_example = handle-IsOwn env shop 7 mark_as_delivered neighbour

abbrev change : Edit
change = record {
  recipient_name = "Iva";
  phone = record { e164 = "+381609999999"; is_risky = false };
  dest_address = "Bulevar 2";
  description = "";
  language = "sr-latn";
  eta_at = none;
}

update_delivery-IsEdited_example :
    (d' : Delivery) × (r : EditResult) × ((update_delivery env delivery change neighbour).0
      ≡ ok (d', r))
    × IsEdited change delivery d' (update_delivery env delivery change neighbour).1
unfolding delivery_row first
update_delivery-IsEdited_example = update_delivery-IsEdited env delivery change neighbour refl refl
