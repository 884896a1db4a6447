-- ===== src/Deliveries/Messages/Resend/Reach.antt =====
-- A resend writes to no delivery but its own.
use javi.Prelude.{first, refl, ◌∙◌, ap, Option, none, some, ◌==◌}
use javi.Model.{Shop, Delivery, Notification, TrackingToken, SendKind, OutboundSend}
use javi.Env.{Env}
use javi.World.{World}
use javi.Exec.Keeps.{Keeps, continue_keeps}
use javi.Quotas.{reserve_send}
use javi.Quotas.Quiet.{reserve_send-deliveries}
use javi.Deliveries.{delivery_row}
use javi.Deliveries.Start.{get_shop}
use javi.Deliveries.Start.Reach.{
  SameOthers, SameOthers-preorder, update-others, deliveries-SameOthers,
}
use javi.Deliveries.Messages.{PhoneResult, phone_or, with_phone, resend_to, resend_on_the_way}
use javi.Deliveries.Messages.Resend.{after_reserve, after_reserve_lem, reserved_part, get_shop_same}

module _ (env : Env) where
  after_reserve-SameOthers :
      (new_phone : Option PhoneResult) (d : Delivery) (shop : Shop) (n : Notification)
      (t : TrackingToken)
      → Keeps (SameOthers d.id) (after_reserve env new_phone d shop n t)
  unfolding delivery_row
  after_reserve-SameOthers none d shop n t = record {
    at = λ w.
        deliveries-SameOthers d.id w (after_reserve env none d shop n t w).1
          (after_reserve_lem env none d shop n t w).deliveries;
  }
  after_reserve-SameOthers (some phone) d shop n t = record {
    at = λ w k other.
        ap (λ rows. first (λ (r : Delivery). r.id == k) rows)
          (after_reserve_lem env (some phone) d shop n t w).deliveries
        ∙ update-others (with_phone phone) (λ r. refl) d.id k w.deliveries other;
  }

  reserved_part-SameOthers :
      (new_phone : Option PhoneResult) (d : Delivery) (shop : Shop) (n : Notification)
      (t : TrackingToken)
      → Keeps (SameOthers d.id) (reserved_part env new_phone d shop n t)
  reserved_part-SameOthers new_phone d shop n t = record {
    at = λ w.
        let phone = phone_or new_phone d in
        let s =
          reserve_send env shop phone.e164 SendKind.resend (some d.id) phone.is_risky none w in
        continue_keeps (SameOthers-preorder d.id)
          (λ (row : OutboundSend). after_reserve env new_phone d shop n t) w s
          (λ row. after_reserve-SameOthers new_phone d shop n t)
          (deliveries-SameOthers d.id w s.1 (
            reserve_send-deliveries env shop phone.e164 SendKind.resend (some d.id) phone.is_risky
              none w));
  }

  resend_to-SameOthers :
      (new_phone : Option PhoneResult) (d : Delivery) (n : Option Notification)
      (t : Option TrackingToken)
      → Keeps (SameOthers d.id) (resend_to env new_phone d n t)
  unfolding resend_to
  resend_to-SameOthers new_phone d none t = record { at = λ w k other. refl }
  resend_to-SameOthers new_phone d (some n) none = record { at = λ w k other. refl }
  resend_to-SameOthers new_phone d (some n) (some t) = record {
    at = λ w.
        continue_keeps (SameOthers-preorder d.id) (λ shop. reserved_part env new_phone d shop n t) w
          (get_shop d w) (λ shop. reserved_part-SameOthers new_phone d shop n t)
          (deliveries-SameOthers d.id w (get_shop d w).1
            (ap (λ (v : World). v.deliveries) (get_shop_same env d w)));
  }

  pub resend_on_the_way-SameOthers :
      (d : Delivery) (new_phone : Option PhoneResult)
      → Keeps (SameOthers d.id) (resend_on_the_way env d new_phone)
  unfolding resend_on_the_way
  resend_on_the_way-SameOthers d new_phone = record {
    at = λ w. (resend_to-SameOthers new_phone d _ _).at w;
  }
