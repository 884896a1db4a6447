-- ===== src/Providers/Others.antt =====
-- integrations/cache.py: what a request for another address leaves of the cache.
use javi.Prelude.{
  ℕ, String, false, not, ◌≡◌, refl, sym, ◌∙◌, str_eq, eq_iff, Option, none, some, List, [], ◌∷◌,
  any, ap, if-split, update_where, first, if◌then◌else◌, truthy, Bool-cases, inl, inr, subst,
}
use javi.Env.{GeocodeResult}
use javi.World.{GeocodeEntry}
use javi.Providers.{
  Store, Call, is_cached, cached_geocode, store_geocode, plain, remember, Metering, metering_call,
  geocode_missing, caching_geocode, get_maps_provider,
}

update-other :
    (key other : String) (f : GeocodeEntry → GeocodeEntry) (rows : List GeocodeEntry)
    → str_eq other key ≡ false
    → first (is_cached key) (
        update_where
          (is_cached other)
          (λ g. record (f g) { normalized_address = g.normalized_address })
          rows)
      ≡ first (is_cached key) rows
unfolding first update_where
update-other key other f [] h = refl
update-other key other f (g ∷ rows) h =
    let later = update-other key other f rows h in
    elim (Bool-cases (is_cached other g)) [
      | inl own ↦
          let same = (eq_iff g.normalized_address other).0 own in
          let not_key : is_cached key g ≡ false = subst (λ a. str_eq a key ≡ false) (sym same) h in
          rw (own, not_key) later
      | inr kept ↦ rw kept (ap (λ t. if is_cached key g then some g else t) later)
    ]

store-other :
    (key other : String) (r : GeocodeResult) (now : ℕ) (rows : List GeocodeEntry)
    → str_eq other key ≡ false
    → cached_geocode key (store_geocode other r now rows) ≡ cached_geocode key rows
unfolding store_geocode cached_geocode first
store-other key other r now rows h = elim (Bool-cases (any (is_cached other) rows)) [
  | inl old ↦ rw old (update-other key other (λ g. record g { result = r }) rows h)
  | inr new ↦ rw (new, h) refl
]

remembered :
    (key other : String) (now : ℕ) (found : Option GeocodeResult × Store)
    → str_eq other key ≡ false
    → cached_geocode key (remember other now found).1.geocodes ≡ cached_geocode key found.1.geocodes
unfolding remember
remembered key other now (none, s) h = refl
remembered key other now (some r, s) h = store-other key other r now s.geocodes h

module _ (m : Metering) where
  -- A request for an address with another normal form.
  missing-other :
      (key other : String) (now : ℕ) (kept : Option GeocodeEntry)
      (inner : Call String (Option GeocodeResult)) (address : String) (s : Store)
      → str_eq other key ≡ false
      → (inner address s).1.geocodes ≡ s.geocodes
      → cached_geocode key (geocode_missing m now other kept inner address s).1.geocodes
        ≡ cached_geocode key s.geocodes
  unfolding geocode_missing
  missing-other key other now (some g) inner address s h e = refl
  missing-other key other now none inner address s h e =
      remembered key other now (inner address s) h ∙ ap (cached_geocode key) e

  caching-other :
      (key : String) (now : ℕ) (inner : Call String (Option GeocodeResult)) (address : String)
      (s : Store)
      → str_eq (m.normalize_address address) key ≡ false
      → (inner address s).1.geocodes ≡ s.geocodes
      → cached_geocode key (caching_geocode m now inner address s).1.geocodes
        ≡ cached_geocode key s.geocodes
  unfolding caching_geocode
  caching-other key now inner address s h e =
      if-split
        (λ (t : Option GeocodeResult × Store).
          cached_geocode key t.1.geocodes ≡ cached_geocode key s.geocodes)
        (not (truthy (m.normalize_address address))) _ _ (λ empty. refl)
        (λ some_key. missing-other key (m.normalize_address address) now _ inner address s h e)

  counted_geocodes :
      (now : ℕ) (provider : String → Option GeocodeResult) (address : String) (s : Store)
      → (metering_call m now "maps_geocode" (plain provider) address s).1.geocodes ≡ s.geocodes
  unfolding metering_call
  counted_geocodes now provider address s = refl

  pub maps-other :
      (provider : String → Option GeocodeResult) (key address : String) (now : ℕ) (s : Store)
      → str_eq (m.normalize_address address) key ≡ false
      → cached_geocode key (get_maps_provider m now provider address s).1.geocodes
        ≡ cached_geocode key s.geocodes
  unfolding get_maps_provider
  maps-other provider key address now s h = elim (Bool-cases m.on) [
    | inl on ↦ rw on (
        caching-other key now (metering_call m now "maps_geocode" (plain provider)) address s h
          (counted_geocodes now provider address s))
    | inr off ↦ rw off (caching-other key now (plain provider) address s h refl)
  ]
