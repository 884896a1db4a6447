-- ===== src/Tests/Starts.antt =====
-- Starts of the sample delivery, one alone and two at the same time.
use javi.Prelude.{
  ℕ, ◌≡◌, ◌==◌, ◌+◌, ◌≤◌, refl, true, false, Option, none, some, is_some, List, [], ◌∷◌, arith,
  first, any, count, update_where,
}
use javi.Model.{Delivery, EtaSource}
use javi.Exec.{ok, err, does_not_exist}
use javi.Exec.Frame.{SameState}
use javi.Webhooks.{shop_of, token_of}
use javi.Billing.{has_access, enforced, subscription_of, access_at, trial_ends_at}
use javi.Quotas.{
  limits_of, check_with, shop_limits, check, locked_shop, create_send, reserve_send, day_start,
  month_start,
}
use javi.Deliveries.{delivery_row, write_delivery, get_delivery, already_started}
use javi.Deliveries.Start.{
  Committed, won, with_start, commit_start, commit_row, win_start, write_start, get_shop,
  get_or_create_token, create_notification,
}
use javi.Deliveries.Start.Commit.{LostOrWon, commit_start_error, commit_start_lem}
use javi.Deliveries.Start.Races.{notices}
use javi.Deliveries.Start.Interleaving.{
  Request, checking, finished, interleave, total_wins, interleave_wins_once,
}
use javi.Deliveries.Start.Interleaving.Turns.{request_at}
use javi.Deliveries.Start.Interleaving.Sound.{is_started_row}
use javi.Deliveries.Start.Interleaving.Served.{interleave_serves}
use javi.Tests.Sample.{env, shop, delivery, world, noon}

missing : (commit_start env 8 noon EtaSource.auto world).0 ≡ err does_not_exist
unfolding commit_start get_delivery delivery_row first
missing = refl

commit_start_error_example : SameState world (commit_start env 8 noon EtaSource.auto world).1
commit_start_error_example =
    commit_start_error env 8 noon EtaSource.auto world does_not_exist missing

abbrev both : List Request
both =
    record { delivery = delivery; phase = checking none }
    ∷ record { delivery = delivery; phase = checking (some noon) }
    ∷ []

interleave_wins_once_example :
    let (requests, w) = interleave env (0 ∷ 1 ∷ 1 ∷ 0 ∷ 0 ∷ 1 ∷ []) both world in
    (notices 7 w ≡ notices 7 world + total_wins 7 requests) × (notices 7 w ≤ 1)
unfolding count
interleave_wins_once_example =
    interleave_wins_once env 7 (0 ∷ 1 ∷ 1 ∷ 0 ∷ 0 ∷ 1 ∷ []) both world
      ((none, refl), ((some noon, refl), tt)) (omega arith)

three_turns : 3 ≤ count (λ (j : ℕ). j == 1) (0 ∷ 1 ∷ 1 ∷ 0 ∷ 0 ∷ 1 ∷ [])
unfolding count
three_turns = omega arith

waiting : any (is_started_row 7) world.deliveries ≡ false
unfolding any
waiting = refl

silent : notices 7 world ≡ 0
unfolding count
silent = refl

interleave_serves_example :
    let (requests, w) = interleave env (0 ∷ 1 ∷ 1 ∷ 0 ∷ 0 ∷ 1 ∷ []) both world in
    (r : Request) × (request_at 1 requests ≡ some r)
    × ((c : Option Committed) × (r.phase ≡ finished c)
        × (is_some c ≡ true → (total_wins 7 requests ≡ 1) × (notices 7 w ≡ 1)))
interleave_serves_example =
    interleave_serves env 7 (0 ∷ 1 ∷ 1 ∷ 0 ∷ 0 ∷ 1 ∷ []) both world 1
      (record { delivery = delivery; phase = checking (some noon) })
      ((none, refl), ((some noon, refl), tt)) refl refl three_turns waiting silent

wins :
    (commit_start env 7 noon EtaSource.auto world).0
    ≡ ok (won (with_start noon noon EtaSource.auto delivery) shop "token" 1)
unfolding commit_start commit_row win_start write_start get_shop get_or_create_token
    create_notification get_delivery delivery_row write_delivery already_started shop_of token_of
    reserve_send locked_shop create_send check check_with shop_limits limits_of has_access enforced
    subscription_of access_at trial_ends_at first any count update_where day_start month_start
wins = refl

commit_start_lem_example :
    (before : Delivery) × (delivery_row 7 world.db ≡ some before)
    × LostOrWon before noon EtaSource.auto world
        (won (with_start noon noon EtaSource.auto delivery) shop "token" 1)
        (commit_start env 7 noon EtaSource.auto world).1
commit_start_lem_example = commit_start_lem env 7 noon EtaSource.auto world _ wins
