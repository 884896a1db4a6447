-- ===== src/Tests/Public.antt =====
-- Failed sign-ins from two addresses, and a delivery that its recipient looks at, rates and
-- unsubscribes from.
use javi.Prelude.{
  ℕ, ℤ, pos, first, ◌*◌, ◌≡◌, refl, String, true, false, Option, none, some, [], ◌∷◌, count, str_eq,
  if◌then◌else◌, arith,
}
use javi.Model.{TrackingToken}
use javi.Env.{second}
use javi.World.{World}
use javi.ClientIp.{Headers}
use javi.Ratelimit.{row_of}
use javi.Lockout.{Login, authenticate, permission_denied}
use javi.Lockout.Locks.{Attempt, IsOf, after_failures, authenticate-locked}
use javi.Tracking.{rate, Request, token_row, view}
use javi.Tracking.Rows.{IsRated}
use javi.Tracking.Ratings.{view-IsRated}
use javi.Tests.Sample.{env, world, noon}
use javi.Tests.Requests.{net, request, direct}

abbrev login : Login
login = record {
  failure_limit_ip = 5;
  failure_limit_account = 2;
  lockout_minutes = 15;
  strip_lower = λ s. if str_eq s "Ana" then "ana" else s;
}

abbrev user_of : Option String → String → Option ℕ
user_of name password = some 1

abbrev try_at : Headers → String → Attempt
try_at h name = record { request = h; username = name; now = λ n. 100 * second }

ana-IsOf : (h : Headers) → IsOf net login "ana" 0 (try_at h "ana")
ana-IsOf h = record { named = refl; account_of = refl; in_window = λ n. refl }

authenticate-locked_example :
    authenticate net login user_of
      (some request)
      (some "Ana")
      none
      "right"
      (λ n. 100 * second)
      (after_failures net login "ana" 0 (try_at request "ana" ∷ try_at direct "ana" ∷ []) [])
    ≡ permission_denied
unfolding row_of first
authenticate-locked_example =
    authenticate-locked net login "ana" 0 user_of (try_at request "ana" ∷ try_at direct "ana" ∷ [])
      [] (try_at request "Ana") "right" (omega arith) (λ c e. cc)
      (ana-IsOf request, (ana-IsOf direct, tt)) (omega arith)
      (record { named = refl; account_of = refl; in_window = λ n. refl })

abbrev token : TrackingToken
token = record { delivery_id = 7; token = "t1"; expires_at = some (noon * 2) }

abbrev here : World
here = record world { db = record world.db { tokens = token ∷ [] } }

abbrev int : String → Option ℤ
int s = if str_eq s "4" then some (pos 4) else none

abbrev get_request : Request
get_request = record { headers = request; is_post = false; value = "" }

abbrev post_request : Request
post_request = record { headers = request; is_post = true; value = "4" }

abbrev late : World
late = record here { db = record here.db { tokens = record token { expires_at = some 1 } ∷ [] } }

late_row : token_row "t1" late.db ≡ some (record token { expires_at = some 1 })
unfolding token_row first
late_row = refl

unrated : IsRated here.ratings
unfolding count
unrated = record { once = λ id. omega arith; values = tt }

view-IsRated_example : IsRated (view env int rate post_request "t1" here).1.ratings
view-IsRated_example = view-IsRated env int rate post_request "t1" here unrated
