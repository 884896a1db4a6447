-- ===== src/Providers/Geocodes.antt =====
-- integrations/cache.py, in front of the metering: what the cache answers later.
use javi.Prelude.{
  ℕ, String, Bool, true, false, not, ◌≡◌, refl, sym, ◌∙◌, str_eq, eq_iff, Option, none, some, List,
  [], ◌∷◌, any, ◌⊎◌, first, first-update, if◌then◌else◌, truthy, arith, Bool-cases, inl, inr, subst,
}
use javi.Env.{GeocodeResult}
use javi.Providers.Others.{maps-other}
use javi.World.{GeocodeEntry}
use javi.Providers.{
  Store, Call, is_cached, cached_geocode, store_geocode, plain, remember, Metering, metering_call,
  geocode_missing, caching_geocode, get_maps_provider,
}

-- The address has a row with this result.
abbrev Knows : String → GeocodeResult → Store → Type 0
Knows key r s = (g : GeocodeEntry) × (cached_geocode key s.geocodes ≡ some g) × (g.result ≡ r)

first-some :
    {A : Type 0} (p : A → Bool) (xs : List A)
    → any p xs ≡ true
    → (x : A) × (first p xs ≡ some x) × (p x ≡ true)
unfolding first any
first-some p [] h = cc
first-some p (x ∷ xs) h = elim (Bool-cases (p x)) [
  | inl here ↦ (x, rw here refl, here)
  | inr later ↦
      let (y, found, good) = first-some p xs (ground (arith, h, later)) in (y, rw later found, good)
]

store_geocode-Knows :
    (key : String) (r : GeocodeResult) (now : ℕ) (s : Store)
    → Knows key r (record s { geocodes = store_geocode key r now s.geocodes })
unfolding store_geocode cached_geocode first
store_geocode-Knows key r now s = elim (Bool-cases (any (is_cached key) s.geocodes)) [
  | inl old ↦
      let write = λ (g : GeocodeEntry). record g { result = r } in
      let (g, found, own) = first-some (is_cached key) s.geocodes old in
      let after =
        first-update (is_cached key) (is_cached key) write s.geocodes g (λ y. refl) found in
      (write g, rw old (after ∙ rw own refl), refl)
  | inr new ↦
      let own : str_eq key key ≡ true = (eq_iff key key).1 refl in
      (record { normalized_address = key; result = r; created_at = now }, rw (new, own) refl, refl)
]

module _ (m : Metering) where
  maps-known :
      (provider : String → Option GeocodeResult) (address : String) (now : ℕ) (r : GeocodeResult)
      (s : Store)
      → truthy (m.normalize_address address) ≡ true
      → Knows (m.normalize_address address) r s
      → get_maps_provider m now provider address s ≡ (some r, s)
  unfolding get_maps_provider caching_geocode geocode_missing
  maps-known provider address now r s key (g, found, same) = elim (Bool-cases m.on) [
    | inl on ↦ rw (on, key, found, same) refl
    | inr off ↦ rw (off, key, found, same) refl
  ]

  remember-Knows :
      (key : String) (now : ℕ) (r : GeocodeResult) (found : Option GeocodeResult × Store)
      → (remember key now found).0 ≡ some r
      → Knows key r (remember key now found).1
  unfolding remember
  remember-Knows key now r (none, s) e = cc
  remember-Knows key now r (some a, s) e =
      let same : a ≡ r = cc in
      subst (λ x. Knows key x (record s { geocodes = store_geocode key a now s.geocodes })) same
        (store_geocode-Knows key a now s)

  geocode_missing-Knows :
      (key : String) (now : ℕ) (kept : Option GeocodeEntry)
      (inner : Call String (Option GeocodeResult)) (address : String) (r : GeocodeResult)
      (s : Store)
      → cached_geocode key s.geocodes ≡ kept
      → (geocode_missing m now key kept inner address s).0 ≡ some r
      → Knows key r (geocode_missing m now key kept inner address s).1
  unfolding geocode_missing
  geocode_missing-Knows key now (some g) inner address r s found e =
      let same : g.result ≡ r = cc in (g, found, same)
  geocode_missing-Knows key now none inner address r s found e =
      remember-Knows key now r (inner address s) e

  caching_geocode-Knows :
      (now : ℕ) (inner : Call String (Option GeocodeResult)) (address : String) (r : GeocodeResult)
      (s : Store)
      → (caching_geocode m now inner address s).0 ≡ some r
      → (truthy (m.normalize_address address) ≡ true)
        × Knows (m.normalize_address address) r (caching_geocode m now inner address s).1
  unfolding caching_geocode
  caching_geocode-Knows now inner address r s e =
      let key = m.normalize_address address in
      let pick = λ (b : Bool) (h : truthy key ≡ b).
        subst
          (λ k.
            (if not k
              then (none, s)
              else geocode_missing m now key (cached_geocode key s.geocodes) inner address s).0
            ≡ some r)
          h e in
      elim (Bool-cases (truthy key)) [
        | inl some_key ↦ (
          some_key,
          rw some_key (
              geocode_missing-Knows key now (cached_geocode key s.geocodes) inner address r s refl
                (pick true some_key)),
        )
        | inr empty ↦ (let no : none ≡ some r = pick false empty in cc)
      ]

  maps-Knows :
      (provider : String → Option GeocodeResult) (address : String) (now : ℕ) (r : GeocodeResult)
      (s : Store)
      → (get_maps_provider m now provider address s).0 ≡ some r
      → (truthy (m.normalize_address address) ≡ true)
        × Knows (m.normalize_address address) r (get_maps_provider m now provider address s).1
  unfolding get_maps_provider
  maps-Knows provider address now r s e =
      let metered = metering_call m now "maps_geocode" (plain provider) in
      let pick = λ (b : Bool) (h : m.on ≡ b).
        subst
          (λ k.
            (if k
              then caching_geocode m now metered address s
              else caching_geocode m now (plain provider) address s).0
            ≡ some r)
          h e in
      elim (Bool-cases m.on) [
        | inl on ↦ rw on (
            caching_geocode-Knows now (metering_call m now "maps_geocode" (plain provider)) address
              r s (pick true on))
        | inr off ↦ rw off (caching_geocode-Knows now (plain provider) address r s (pick false off))
      ]

  -- Requests one after the other, at their times. Each that is for an address with this normal form is
  -- answered `r`, and leaves the counters and the cache as they are.
  pub ServesAll :
      (String → Option GeocodeResult) → String → GeocodeResult → List (ℕ × String) → Store → Type 0
  ServesAll provider key r [] s = Unit {0}
  ServesAll provider key r ((now, address) ∷ rest) s =
      ((str_eq (m.normalize_address address) key ≡ false)
        ⊎ (get_maps_provider m now provider address s ≡ (some r, s)))
      × ServesAll provider key r rest (get_maps_provider m now provider address s).1

  all_known :
      (provider : String → Option GeocodeResult) (key : String) (r : GeocodeResult)
      (requests : List (ℕ × String)) (s : Store)
      → truthy key ≡ true
      → Knows key r s
      → ServesAll provider key r requests s
  unfolding ServesAll
  all_known provider key r [] s some_key known = tt
  all_known provider key r ((now, address) ∷ rest) s some_key (g, found, same) =
      elim (Bool-cases (str_eq (m.normalize_address address) key)) [
        | inl own ↦
            let here = (eq_iff (m.normalize_address address) key).0 own in
            let answered =
              maps-known provider address now r s (subst (λ k. truthy k ≡ true) (sym here) some_key)
                (subst (λ k. Knows k r s) (sym here) (g, found, same)) in
            (
              inr answered,
              subst (λ (t : Option GeocodeResult × Store). ServesAll provider key r rest t.1)
                  (sym answered) (all_known provider key r rest s some_key (g, found, same)),
            )
        | inr other ↦ (
          inl other,
          all_known provider key r rest _ some_key
              (g, maps-other m provider key address now s other ∙ found, same),
        )
      ]

  -- An address that was answered once: of all requests that come after, for whatever addresses, those
  -- for an address with the same normal form are answered the same, whatever the provider would say
  -- by then, and neither add to a counter nor change the cache. The cache is not purged in between.
  pub geocode_all_again :
      (before later : String → Option GeocodeResult) (address : String) (now : ℕ)
      (r : GeocodeResult) (s : Store) (requests : List (ℕ × String))
      → (get_maps_provider m now before address s).0 ≡ some r
      → ServesAll later
          (m.normalize_address address)
          r
          requests
          (get_maps_provider m now before address s).1
  geocode_all_again before later address now r s requests answered =
      let (some_key, knows) = maps-Knows before address now r s answered in
      all_known later (m.normalize_address address) r requests
        (get_maps_provider m now before address s).1 some_key knows
