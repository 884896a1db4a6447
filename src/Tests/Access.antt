-- ===== src/Tests/Access.antt =====
-- Access and days left of the sample shop.
use javi.Prelude.{◌≡◌, refl, true, none, ◌+◌}
use javi.Env.{day}
use javi.Billing.{access_at, trial_ends_at}
use javi.Tests.Sample.{env, shop, noon}

access_later : access_at env none shop (noon + day) ≡ true
unfolding access_at trial_ends_at
access_later = refl
