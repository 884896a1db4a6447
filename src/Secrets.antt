-- ===== src/Secrets.antt =====
-- common/secrets.py: shared secrets of machine callbacks. `password` stands for the decoded
-- password of an `Authorization: Basic` header, which base64 takes apart.
use javi.Prelude.{String, Bool, false, ◌&&◌, ◌||◌, Option, none, some, str_eq, truthy}

pub record Credentials : Type 0 where
  pub header : Option String
  pub password : Option String
  pub query : Option String

-- `secret_matches`: an empty expected secret never matches.
unfoldable pub secret_matches : Option String → String → Bool
secret_matches none expected = false
secret_matches (some provided) expected =
    truthy expected && truthy provided && str_eq provided expected

unfoldable pub request_has_secret : Credentials → String → Bool
unfolding secret_matches
request_has_secret c expected =
    secret_matches c.header expected
    || secret_matches c.password expected
    || secret_matches c.query expected
