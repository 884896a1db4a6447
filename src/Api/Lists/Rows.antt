-- ===== src/Api/Lists/Rows.antt =====
-- What the list shows, and which ETA a request may name.
use javi.Prelude.{
  ℕ, suc, ◌<◌, String, ◌≡◌, refl, Option, none, some, arith, leb, truthy, Bool-cases, inl, inr,
}
use javi.Env.{Env}
use javi.World.{World}
use javi.Exec.{ok}
use javi.Runtime.{tick}
use javi.Api.Lists.{
  ParsedEta, no_eta, invalid_eta, eta, EtaReaders, eta_today, in_future, eta_of_iso, eta_of_clock,
  parse_eta,
}

module _ (env : Env) where
  -- The ETA is after the last moment that was read.
  abbrev pub IsFuture : World → World → ParsedEta → Type 0
  IsFuture w w' no_eta = Unit {0}
  IsFuture w w' invalid_eta = Unit {0}
  IsFuture w w' (eta t) = (n : ℕ) × (suc n ≡ w'.calls) × (env.clock n < t)

  future_lem :
      (t : ℕ) (w : World)
      → (parsed : ParsedEta) × ((in_future env t w).0 ≡ ok parsed)
        × IsFuture w (in_future env t w).1 parsed
  unfolding in_future
  future_lem t w = elim (Bool-cases (leb t (env.clock w.calls))) [
    | inl past ↦ rw past (invalid_eta, refl, tt)
    | inr future ↦ rw future (eta t, refl, (w.calls, refl, ground arith))
  ]

  iso_lem :
      (o : Option ℕ) (w : World)
      → (parsed : ParsedEta) × ((eta_of_iso env o w).0 ≡ ok parsed)
        × IsFuture w (eta_of_iso env o w).1 parsed
  unfolding eta_of_iso
  iso_lem none w = (invalid_eta, refl, tt)
  iso_lem (some t) w = future_lem t w

  clock_lem :
      (o : Option (ℕ × ℕ)) (iso : Option ℕ) (w : World)
      → (parsed : ParsedEta) × ((eta_of_clock env o iso w).0 ≡ ok parsed)
        × IsFuture w (eta_of_clock env o iso w).1 parsed
  unfolding eta_of_clock eta_today
  clock_lem none iso w = iso_lem iso w
  clock_lem (some (hour, minutes)) iso w =
      future_lem
        (env.instant (record (env.localtime (env.clock w.calls)) {
          hour = hour;
          minutes = minutes;
          seconds = 0;
          microsecond = 0;
        }))
        (tick w)

  -- Reading an ETA comes to none, to an error, or to one after the moment it was read at.
  pub parse_eta-IsFuture :
      (readers : EtaReaders) (raw : String) (w : World)
      → (parsed : ParsedEta) × ((parse_eta env readers raw w).0 ≡ ok parsed)
        × IsFuture w (parse_eta env readers raw w).1 parsed
  unfolding parse_eta
  parse_eta-IsFuture readers raw w = elim (Bool-cases (truthy (env.strip raw))) [
    | inl given ↦
        rw given
          (clock_lem (readers.strptime (env.strip raw)) (readers.fromisoformat (env.strip raw)) w)
    | inr blank ↦ rw blank (no_eta, refl, tt)
  ]
