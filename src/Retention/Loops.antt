-- ===== src/Retention/Loops.antt =====
-- The loops of the purge, with a deadline or without: each returns, at the end of its work or at
-- the deadline.
use javi.Prelude.{
  ℕ, zero, suc, ◌<◌, ◌≡◌, refl, sym, ap, ◌∙◌, true, false, Option, none, some, Bool-cases,
  Option-cases, inl, inr, arith, subst, get_or,
}
use javi.Env.{Env}
use javi.World.{World, Db}
use javi.Retention.{PurgeResult, out_of_time, while_time}

-- The work that is left of the tables, the tables at its end, and what is counted by then.
module _ (work : Db → ℕ) (end : Db → Db) (total : Db → PurgeResult → PurgeResult) where
  -- A batch takes work away, and nothing of what the work leads to.
  abbrev pub Works : PurgeResult → World → PurgeResult × World → Type 0
  Works r w next =
      (work next.1.db < work w.db)
      × (end next.1.db ≡ end w.db)
      × (total next.1.db next.0 ≡ total w.db r)
      × (next.0.complete ≡ r.complete)

  pub Works-by :
      (r : PurgeResult) (w : World) (x next : PurgeResult × World)
      → some x ≡ some next
      → Works r w x
      → Works r w next
  Works-by r w x next same = subst (λ o. Works r w (get_or o next)) same

  -- No batch is due where the work is done.
  pub record IsBody (body : PurgeResult → World → Option (PurgeResult × World)) : Type 0 where
    pub stops :
        (r : PurgeResult) (w : World) → body r w ≡ none → (end w.db ≡ w.db) × (total w.db r ≡ r)
    pub works :
        (r : PurgeResult) (w : World) (next : PurgeResult × World)
        → body r w ≡ some next
        → Works r w next

  -- A loop has come to an end of its own, or to its deadline.
  pub record Loops (deadline : Option ℕ) (out : Option (PurgeResult × World)) (r : PurgeResult)
      (db : Db) : Type 0 where
    pub result : PurgeResult
    pub world : World
    pub returned : out ≡ some (result, world)
    pub same_end : end world.db ≡ end db
    pub done :
        result.complete ≡ true → (world.db ≡ end db) × (result ≡ total db r) × (r.complete ≡ true)
    pub on_time : deadline ≡ none → result.complete ≡ r.complete

out_of_time-db :
    (env : Env) (deadline : Option ℕ) (w : World) → (out_of_time env deadline w).1.db ≡ w.db
unfolding out_of_time
out_of_time-db env none w = refl
out_of_time-db env (some t) w = refl

never_late :
    (env : Env) (deadline : Option ℕ) (w : World)
    → deadline ≡ none
    → (out_of_time env deadline w).0 ≡ false
unfolding out_of_time
never_late env none w h = refl
never_late env (some t) w h = cc

module _ (env : Env) (deadline : Option ℕ) where
  pub while_time-Loops :
      (body : PurgeResult → World → Option (PurgeResult × World)) (work : Db → ℕ) (end : Db → Db)
      (total : Db → PurgeResult → PurgeResult)
      → IsBody work end total body
      → (fuel : ℕ) (r : PurgeResult) (w : World) → work w.db < fuel
      → Loops work end total deadline (while_time env deadline body fuel r w) r w.db
  unfolding while_time
  while_time-Loops body work end total is_body zero r w h = ground arith
  while_time-Loops body work end total is_body (suc fuel) r w h =
      let (late, w1) = out_of_time env deadline w in
      let same : w1.db ≡ w.db = out_of_time-db env deadline w in
      elim (Bool-cases late) [
        | inl e ↦
            rw (while_time, e)
              (record {
                result = record r { complete = false };
                world = w1;
                returned = refl;
                same_end = ap end same;
                done = λ complete. cc;
                on_time = λ never. let late' = never_late env deadline w never in cc;
              })
        | inr e ↦ elim (Option-cases (body r w1)) [
          | inl stop ↦
              let (ends, counts) = is_body.stops r w1 stop in
              rw (while_time, e, stop)
                (record {
                  result = r;
                  world = w1;
                  returned = refl;
                  same_end = ap end same;
                  done = λ complete.
                      (sym ends ∙ ap end same, sym counts ∙ ap (λ db. total db r) same, complete);
                  on_time = λ never. refl;
                })
          | inr (next, go) ↦
              let (less, ends, counts, kept) = is_body.works r w1 next go in
              let rest =
                while_time-Loops body work end total is_body fuel next.0 next.1
                  (let e = ap work same in omega arith) in
              rw (while_time, e, go)
                (record {
                  result = rest.result;
                  world = rest.world;
                  returned = rest.returned;
                  same_end = rest.same_end ∙ ends ∙ ap end same;
                  done = λ complete.
                      let (at_end, counted, was) = rest.done complete in
                      (
                        at_end ∙ ends ∙ ap end same,
                        counted ∙ counts ∙ ap (λ db. total db r) same,
                        sym kept ∙ was,
                      );
                  on_time = λ never. rest.on_time never ∙ kept;
                })
        ]
      ]
