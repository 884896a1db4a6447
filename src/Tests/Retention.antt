-- ===== src/Tests/Retention.antt =====
-- A purge two years later.
use javi.Prelude.{ℕ, ◌*◌, ◌≡◌, true, none, some, [], ◌∷◌, arith, count}
use javi.Model.{Status}
use javi.Env.{day}
use javi.World.{World}
use javi.Retention.{is_due, is_outbound_due, is_geocode_due, real_run, dry_run}
use javi.Retention.Runs.{cutoff_of, purged_db, real_run_lem, real_run_resumes}
use javi.Retention.{PurgeResult}
use javi.Tests.Sample.{env, delivery, world, noon}

abbrev old : World
old = record world {
  db = record world.db {
    deliveries =
        delivery
        ∷ record delivery { id = 8; status = Status.delivered; delivered_at = some noon }
        ∷ [];
    tokens = record { delivery_id = 8; token = "token"; expires_at = none } ∷ [];
  };
}

abbrev later : ℕ
later = 700 * day

real_run_lem_example :
    (w' : World) × (real_run env 5 later 1 none old
      ≡ some (dry_run env (cutoff_of env 1 later (omega arith)) old, w'))
    × (w'.db ≡ purged_db (cutoff_of env 1 later (omega arith)) later old.db)
unfolding count is_due is_outbound_due is_geocode_due
real_run_lem_example =
    real_run_lem env 1 later (omega arith) 5 old (omega arith) (omega arith) (omega arith)

-- The deadline is over at once.
real_run_resumes_example :
    (r : PurgeResult) × ((w' : World) × (real_run env 5 later 1 (some 0) old ≡ some (r, w'))
      × (purged_db (cutoff_of env 1 later (omega arith)) later w'.db
          ≡ purged_db (cutoff_of env 1 later (omega arith)) later old.db)
      × (r.complete ≡ true
          → (w'.db ≡ purged_db (cutoff_of env 1 later (omega arith)) later old.db)
            × (r ≡ dry_run env (cutoff_of env 1 later (omega arith)) old)))
unfolding count is_due is_outbound_due is_geocode_due
real_run_resumes_example =
    real_run_resumes env 1 later (omega arith) 5 (some 0) old (omega arith) (omega arith)
      (omega arith)
