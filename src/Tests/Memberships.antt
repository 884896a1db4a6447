-- ===== src/Tests/Memberships.antt =====
-- A membership of the sample shop, found by the token in its metadata.
use javi.Prelude.{if◌then◌else◌, ◌≡◌, refl, false, none, some, first, str_eq, update_where}
use javi.Model.{ShopSubscription, active}
use javi.Exec.{ok}
use javi.Billing.{subscription_of}
use javi.Billing.Memberships.{
  Whop, MembershipData, no_time, is_unreadable, time_fails, write_subscription, apply_to_row,
  account_of, product_of, status_of, new_subscription, stamped, is_ours, is_whop_url,
  token_is_valid, shop_from_metadata, find_shop, is_ignored, copied, applied, stored, apply_to_shop,
  apply_found_shop, apply_membership,
}
use javi.Billing.Memberships.Stamps.{applied_again}
use javi.Billing.Memberships.Store.{IsStored, apply_membership_lem}
use javi.Tests.Sample.{env, world, noon}

abbrev pub whop : Whop
whop = record {
  company_id = "biz_1";
  product_id = "prod_1";
  shop_token = λ shop. "secret";
  digits = λ s. if str_eq s "1" then some 1 else none;
  cut = λ n s. s;
  strip = λ s. s;
  is_path = λ s. false;
  with_web_base = λ s. s;
  scheme = λ s. "https";
  host_lower = λ s. "whop.com";
  ends_with = λ s t. false;
}

abbrev pub event : MembershipData
event = record {
  id = "mem_1";
  account_id = "biz_1";
  company_id = "";
  company = none;
  product_id = "prod_1";
  product = none;
  shop_id = "1";
  shop_token = some "secret";
  checkout_configuration_id = "ch_1";
  status = "active";
  manage_url = "https://whop.com/m";
  renewal_period_end = no_time;
  cancel_at_period_end = false;
  canceled_at = no_time;
}

abbrev pub paid : ShopSubscription
paid = record (new_subscription 1) {
  status = active;
  whop_membership_id = "mem_0";
  activated_at = some noon;
}

applied_again_example : applied whop event 9 (applied whop event 5 paid) ≡ applied whop event 5 paid
applied_again_example = applied_again whop event 5 9 paid

abbrev bought : ShopSubscription
bought = record (new_subscription 1) {
  status = active;
  whop_membership_id = "mem_1";
  whop_checkout_id = "ch_1";
  whop_status = "active";
  manage_url = "https://whop.com/m";
  activated_at = some noon;
}

stores : (apply_membership whop env event none world).0 ≡ ok (some bought)
unfolding account_of product_of status_of stamped is_ours is_whop_url token_is_valid
    shop_from_metadata find_shop is_ignored copied applied stored is_unreadable time_fails
    write_subscription apply_to_row apply_to_shop apply_found_shop apply_membership subscription_of
    first update_where
stores = refl

apply_membership_lem_example :
    IsStored whop env event world bought (apply_membership whop env event none world).1
apply_membership_lem_example = apply_membership_lem whop env event none world bought stores

abbrev foreign : MembershipData
foreign = record event { product_id = "prod_2" }

refused : (apply_membership whop env foreign none world).0 ≡ ok none
unfolding account_of product_of is_ours apply_membership
refused = refl
