-- ===== src/Retention/Runs.antt =====
-- The whole purge: a real run, with a deadline or without, and the dry run that foretells it.
use javi.Prelude.{
  ℕ, ◌-◌, ◌*◌, ◌<◌, ◌≡◌, refl, ap, ◌∙◌, true, Option, none, some, not, map, count, select, arith,
}
use javi.Env.{Env, day}
use javi.World.{World, Db}
use javi.Retention.{
  PurgeResult, is_due, is_outbound_due, is_geocode_due, counted, dry_run, real_run, next_loop,
  erased, without_phone, is_token_of, while_time, purge_sends, purge_geocodes,
}
use javi.Retention.Batches.{change_if}
use javi.Retention.Loops.{while_time-Loops}
use javi.Retention.Erase.{erased_db, erased_result, deliveries-IsBody}
use javi.Retention.Purge.{
  sends_result, geocodes_result, sends_db, geocodes_db, sends-IsBody, geocodes-IsBody,
}

-- What a purge leaves of the database: due deliveries are erased and lose their tracking links, old
-- rows of the send log lose their phone, old geocodes are gone, and all else stays.
abbrev pub purged_db : ℕ → ℕ → Db → Db
purged_db cutoff now db = record db {
  deliveries = map (change_if (is_due cutoff) (erased now)) db.deliveries;
  tokens = select (λ t. not (is_token_of (select (is_due cutoff) db.deliveries) t)) db.tokens;
  sends = map (change_if (is_outbound_due cutoff) without_phone) db.sends;
  geocodes = select (λ g. not (is_geocode_due cutoff g)) db.geocodes;
}

module _ (env : Env) (size now : ℕ) (batches : 0 < size) where
  abbrev pub cutoff_of : ℕ
  cutoff_of = now - env.settings.retention_days * day

  -- How a real run has come out.
  record Runs (deadline : Option ℕ) (out : Option (PurgeResult × World)) (w : World) : Type 0 where
    result : PurgeResult
    world : World
    returned : out ≡ some (result, world)
    same_end : purged_db cutoff_of now world.db ≡ purged_db cutoff_of now w.db
    done :
        result.complete ≡ true
        → (world.db ≡ purged_db cutoff_of now w.db) × (result ≡ dry_run env cutoff_of w)
    on_time : deadline ≡ none → result.complete ≡ true

  real_run-Runs :
      (fuel : ℕ) (deadline : Option ℕ) (w : World)
      → count (is_due cutoff_of) w.deliveries < fuel
      → count (is_outbound_due cutoff_of) w.sends < fuel
      → count (is_geocode_due cutoff_of) w.geocodes < fuel
      → Runs deadline (real_run env fuel now size deadline w) w
  unfolding real_run dry_run
  real_run-Runs fuel deadline w due sends geocodes =
      let cutoff = cutoff_of in
      let erase = erased_db size cutoff now batches in
      let strip = sends_db size cutoff now batches in
      let drop = geocodes_db size cutoff now batches in
      let geo = geocodes_result size cutoff now batches in
      let snd = sends_result size cutoff now batches in
      let start = erased_result size cutoff now batches w.db (counted env cutoff w) in
      let one =
        while_time-Loops env deadline _ _ _ _ (deliveries-IsBody size cutoff now batches) fuel
          (counted env cutoff w) w due in
      let two =
        while_time-Loops env deadline _ _ _ _ (sends-IsBody size cutoff now batches) fuel one.result
          one.world (let same = ap (λ (db : Db). db.sends) one.same_end in rw same sends) in
      let three =
        while_time-Loops env deadline _ _ _ _ (geocodes-IsBody size cutoff now batches) fuel
          two.result two.world
          (let same =
              ap (λ (db : Db). db.geocodes) two.same_end
              ∙ ap (λ (db : Db). db.geocodes) one.same_end in
            rw same geocodes) in
      let send_loop = next_loop env (while_time env deadline (purge_sends size cutoff now) fuel) in
      let geocode_loop =
        next_loop env (while_time env deadline (purge_geocodes size cutoff now) fuel) in
      record {
        result = three.result;
        world = three.world;
        returned =
            ap (λ out. geocode_loop (send_loop out)) one.returned
            ∙ ap geocode_loop two.returned
            ∙ three.returned;
        same_end =
            ap (λ db. erase (strip db)) three.same_end
            ∙ ap (λ db. erase (drop db)) two.same_end
            ∙ ap (λ db. strip (drop db)) one.same_end;
        done = λ complete.
            let (end3, total3, complete2) = three.done complete in
            let (end2, total2, complete1) = two.done complete2 in
            let (end1, total1, complete0) = one.done complete1 in
            (
              end3 ∙ ap drop end2 ∙ ap (λ db. drop (strip db)) end1,
              total3
                  ∙ ap (geo two.world.db) total2
                  ∙ ap (λ r. geo two.world.db (snd one.world.db r)) total1
                  ∙ ap (λ db. geo db (snd one.world.db start)) end2
                  ∙ ap (λ db. geo (strip db) (snd db start)) end1
                  ∙ ground arith,
            );
        on_time = λ never. three.on_time never ∙ two.on_time never ∙ one.on_time never;
      }

  -- A real run without a deadline ends, for any size of a batch, when the fuel is more than what is
  -- due. It leaves exactly what `purged_db` says, no active delivery touched, and what it counts is
  -- what a dry run before it counts.
  pub real_run_lem :
      (fuel : ℕ) (w : World)
      → count (is_due cutoff_of) w.deliveries < fuel
      → count (is_outbound_due cutoff_of) w.sends < fuel
      → count (is_geocode_due cutoff_of) w.geocodes < fuel
      → (w' : World) × (real_run env fuel now size none w ≡ some (dry_run env cutoff_of w, w'))
        × (w'.db ≡ purged_db cutoff_of now w.db)
  real_run_lem fuel w due sends geocodes =
      let run = real_run-Runs fuel none w due sends geocodes in
      let (tables, counts) = run.done (run.on_time refl) in
      (run.world, run.returned ∙ ap (λ r. some (r, run.world)) counts, tables)

  -- A real run with a deadline, or without one, returns, when the fuel for each loop is more than
  -- its due rows: whenever it stops, a purge of the tables that it leaves comes to what a purge of
  -- the tables before it comes to. If it says that it is complete, it has come to that already, and
  -- has counted what a dry run counts.
  pub real_run_resumes :
      (fuel : ℕ) (deadline : Option ℕ) (w : World)
      → count (is_due cutoff_of) w.deliveries < fuel
      → count (is_outbound_due cutoff_of) w.sends < fuel
      → count (is_geocode_due cutoff_of) w.geocodes < fuel
      → (r : PurgeResult) × ((w' : World) × (real_run env fuel now size deadline w ≡ some (r, w'))
          × (purged_db cutoff_of now w'.db ≡ purged_db cutoff_of now w.db)
          × (r.complete ≡ true
              → (w'.db ≡ purged_db cutoff_of now w.db) × (r ≡ dry_run env cutoff_of w)))
  real_run_resumes fuel deadline w due sends geocodes =
      let run = real_run-Runs fuel deadline w due sends geocodes in
      (run.result, (run.world, run.returned, run.same_end, run.done))
