-- ===== src/ClientIp.antt =====
-- common/client_ip.py: the address of the client behind the front end and Cloudflare. Addresses and
-- networks are those of Python's `ipaddress`.
pub mod Trust
use javi.Prelude.{
  ◌≡◌, refl, String, Bool, true, false, ◌||◌, not, Option, none, some, List, [], ◌∷◌, ◌++◌,
  if◌then◌else◌, get_or, arith,
}

-- What `ipaddress` and the settings give: `own` is in TRUSTED_PROXIES, `front_end` in the ranges of
-- the Google front end, `cloudflare` in those of Cloudflare.
pub record Addresses : Type 1 where
  pub Ip : Type 0
  pub ip_address : String → Option Ip
  pub text : Ip → String
  pub is_private : Ip → Bool
  pub is_loopback : Ip → Bool
  pub is_link_local : Ip → Bool
  pub own : Ip → Bool
  pub front_end : Ip → Bool
  pub cloudflare : Ip → Bool

-- `forwarded_for` is split at the commas, the last entry first.
pub record Headers : Type 0 where
  pub remote_addr : Option String
  pub forwarded_for : List String
  pub cf_connecting_ip : Option String

module _ (net : Addresses) where
  -- `_ip`
  unfoldable pub ip_of : Option String → Option net.Ip
  ip_of none = net.ip_address ""
  ip_of (some value) = net.ip_address value

  abbrev pub is_proxy_peer : net.Ip → Bool
  is_proxy_peer ip = net.is_private ip || net.is_loopback ip || net.is_link_local ip || net.own ip

  abbrev pub is_skipped_hop : net.Ip → Bool
  is_skipped_hop ip = net.is_loopback ip || net.is_link_local ip || net.front_end ip || net.own ip

  -- One entry: the walk ends at one that is no address, and at one that no proxy of ours has.
  unfoldable pub after_hop : net.Ip → Option net.Ip → (net.Ip → net.Ip) → net.Ip
  after_hop ip none later = ip
  after_hop ip (some hop) later = if is_skipped_hop hop then later hop else hop

  -- The loop over X-Forwarded-For, from the right.
  unfoldable pub walk : net.Ip → List String → net.Ip
  walk ip [] = ip
  walk ip (hop ∷ rest) = after_hop ip (net.ip_address hop) (λ h. walk h rest)

  unfoldable pub behind_proxies : Headers → net.Ip → net.Ip
  behind_proxies h peer = if is_proxy_peer peer then walk peer h.forwarded_for else peer

  unfoldable pub behind_cloudflare : Headers → net.Ip → net.Ip
  behind_cloudflare h ip = if net.cloudflare ip then get_or (ip_of h.cf_connecting_ip) ip else ip

  unfoldable pub client_of_peer : Headers → Option net.Ip → String
  client_of_peer h none = "unknown"
  client_of_peer h (some peer) = net.text (behind_cloudflare h (behind_proxies h peer))

  unfoldable pub client_ip : Headers → String
  client_ip h = client_of_peer h (ip_of h.remote_addr)
