-- ===== src/ClientIp/Trust.antt =====
-- Which parts of a request the client's address depends on.
use javi.Prelude.{
  ◌≡◌, refl, String, Bool, true, Option, none, some, List, [], ◌∷◌, ◌++◌, not, ◌||◌, get_or, ap,
  Bool-cases, inl, inr, any, if◌then◌else◌,
}
use javi.ClientIp.{
  Addresses, Headers, ip_of, is_proxy_peer, is_skipped_hop, after_hop, walk, behind_proxies,
  behind_cloudflare, client_of_peer, client_ip,
}

module _ (net : Addresses) where
  is_stop_ip : Option net.Ip → Bool
  is_stop_ip none = true
  is_stop_ip (some ip) = not (is_skipped_hop net ip)

  -- An entry where the walk ends: no address, or one that no proxy of ours has.
  unfoldable pub is_stop : String → Bool
  unfolding is_stop_ip
  is_stop hop = is_stop_ip (net.ip_address hop)

  after_hop-agree :
      (ip : net.Ip) (o : Option net.Ip) (f g : net.Ip → net.Ip) (rest : Bool)
      → (is_stop_ip o || rest) ≡ true
      → ((v : net.Ip) → rest ≡ true → f v ≡ g v)
      → after_hop net ip o f ≡ after_hop net ip o g
  unfolding after_hop is_stop_ip
  after_hop-agree ip none f g rest h same = refl
  after_hop-agree ip (some v) f g rest h same = elim (Bool-cases (is_skipped_hop net v)) [
    | inl skipped ↦ rw skipped (same v (rw skipped at h))
    | inr stops ↦ rw stops refl
  ]

  walk-append :
      (ip : net.Ip) (near far : List String)
      → any is_stop near ≡ true
      → walk net ip (near ++ far) ≡ walk net ip near
  unfolding walk any is_stop
  walk-append ip [] far h = cc
  walk-append ip (hop ∷ near) far h =
      after_hop-agree ip (net.ip_address hop) _ _ (any is_stop near) h
        (λ v rest. walk-append v near far rest)

  behind_proxies-append :
      (r : Headers) (near far : List String) (peer : net.Ip)
      → any is_stop near ≡ true
      → behind_proxies net (record r { forwarded_for = near ++ far }) peer
        ≡ behind_proxies net (record r { forwarded_for = near }) peer
  unfolding behind_proxies
  behind_proxies-append r near far peer h =
      ap (λ v. if is_proxy_peer net peer then v else peer) (walk-append peer near far h)

  client_of_peer-append :
      (r : Headers) (near far : List String) (o : Option net.Ip)
      → any is_stop near ≡ true
      → client_of_peer net (record r { forwarded_for = near ++ far }) o
        ≡ client_of_peer net (record r { forwarded_for = near }) o
  unfolding client_of_peer behind_cloudflare
  client_of_peer-append r near far none h = refl
  client_of_peer-append r near far (some peer) h =
      ap (λ v. net.text (if net.cloudflare v then get_or (ip_of net r.cf_connecting_ip) v else v))
        (behind_proxies-append r near far peer h)

  -- Entries of X-Forwarded-For left of the first that is not a proxy of ours change nothing: a client
  -- that writes the header itself cannot choose its address.
  pub client_ip-append :
      (r : Headers) (near far : List String)
      → any is_stop near ≡ true
      → client_ip net (record r { forwarded_for = near ++ far })
        ≡ client_ip net (record r { forwarded_for = near })
  unfolding client_ip
  client_ip-append r near far h = client_of_peer-append r near far (ip_of net r.remote_addr) h
