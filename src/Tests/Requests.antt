-- ===== src/Tests/Requests.antt =====
-- The address of a client behind one proxy, and three sign-ins in a minute.
use javi.Prelude.{
  ℕ, ◌+◌, ◌-◌, ◌*◌, ◌≡◌, refl, String, false, none, some, List, [], ◌∷◌, ◌++◌, any, arith, str_eq,
  length, if◌then◌else◌,
}
use javi.Env.{second}
use javi.ClientIp.{Addresses, Headers, client_ip}
use javi.ClientIp.Trust.{is_stop, client_ip-append}
use javi.Ratelimit.Windows.{
  hits, let_through, after_hits, at_most, key_of_index, hits_let_through_lem,
}

-- Addresses are texts; "10.0.0.1" is private, "35.191.0.1" is the front end.
abbrev pub net : Addresses
net = record {
  Ip = String;
  ip_address = λ s. if str_eq s "" then none else some s;
  text = λ s. s;
  is_private = λ s. str_eq s "10.0.0.1";
  is_loopback = λ s. false;
  is_link_local = λ s. false;
  own = λ s. false;
  front_end = λ s. str_eq s "35.191.0.1";
  cloudflare = λ s. false;
}

abbrev pub request : Headers
request = record { remote_addr = some "10.0.0.1"; forwarded_for = []; cf_connecting_ip = none }

client_ip-append_example :
    client_ip net
      (record request { forwarded_for = ("35.191.0.1" ∷ "5.5.5.5" ∷ []) ++ "6.6.6.6" ∷ [] })
    ≡ client_ip net (record request { forwarded_for = "35.191.0.1" ∷ "5.5.5.5" ∷ [] })
unfolding any is_stop
client_ip-append_example =
    client_ip-append net request ("35.191.0.1" ∷ "5.5.5.5" ∷ []) ("6.6.6.6" ∷ []) refl

abbrev pub direct : Headers
direct = record {
  remote_addr = some "5.5.5.5";
  forwarded_for = "6.6.6.6" ∷ [];
  cf_connecting_ip = some "7.7.7.7";
}

abbrev times : List ℕ
times = 60 * second ∷ 61 * second ∷ 62 * second ∷ []

hits_let_through_lem_example :
    (let_through "login-ip" "5.5.5.5" 2 60 times []
      ≡ at_most (2 - hits (key_of_index "login-ip" "5.5.5.5" 2 60 1) []) (length times))
    × (hits
          (key_of_index "login-ip" "5.5.5.5" 2 60 1)
          (after_hits "login-ip" "5.5.5.5" 2 60 times [])
        ≡ hits (key_of_index "login-ip" "5.5.5.5" 2 60 1) [] + length times)
hits_let_through_lem_example =
    hits_let_through_lem "login-ip" "5.5.5.5" 2 60 times 1 [] (omega arith)
      (refl, (refl, (refl, tt)))
