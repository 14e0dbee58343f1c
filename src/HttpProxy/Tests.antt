-- ===== src/HttpProxy/Tests.antt =====
-- Requests to a proxy with credentials. The encoding is one that changes nothing.
use cfwarp_cli.Prelude.{◌≡◌, refl, true, false, none, some, [], ◌∷◌}
use cfwarp_cli.Prelude.Prefix.{after_prefix}
use cfwarp_cli.HttpProxy.{
  Config, Request, Outside, get, replied, dialed, closed, challenge_header, basic_auth_header,
  split_colon, parse_basic_auth_header, authenticate, handle_connect, handle_forward, handle,
}
use cfwarp_cli.HttpProxy.Guarded.{IsClean, IsGuarded, handle-IsClean}

abbrev outside : Outside
outside = record {
  encode = λ s. s;
  decode = λ s. some s;
  dial = λ host. true;
  can_hijack = true;
  hijacks = false;
  round_trip = λ r. record {
    dials = ("example.org:80", true) ∷ [];
    response = some (record { status_code = 200; header = []; body = "page" });
  };
}

abbrev config : Config
config = record { listen_addr = "127.0.0.1:8080"; username = "user"; password = "secret" }

abbrev with_credentials : Request
with_credentials = record {
  method = "GET";
  host = "example.org";
  request_uri = "http://example.org/";
  url_host = some "example.org";
  header = ("Proxy-Authorization", "Basic user:secret") ∷ [];
}

abbrev without_credentials : Request
without_credentials = record with_credentials { header = [] }

-- The code that computes when the tests run it.
proxy_code : Unit {0}
unfolding get basic_auth_header authenticate handle_connect handle_forward handle
    parse_basic_auth_header split_colon after_prefix
proxy_code = tt

turned_away : handle outside config without_credentials ≡ replied 407 challenge_header ∷ []
unfolding proxy_code
turned_away = refl

not_hijacked :
    handle outside config (record with_credentials { method = "CONNECT"; host = "example.org:443" })
    ≡ dialed "example.org:443" true ∷ closed ∷ replied 502 [] ∷ []
unfolding proxy_code
not_hijacked = refl

no_colon : parse_basic_auth_header outside "Basic user" ≡ none
unfolding proxy_code
no_colon = refl

handle-IsClean_example :
    IsClean (handle outside config with_credentials)
    × IsGuarded outside config with_credentials (handle outside config with_credentials)
handle-IsClean_example = handle-IsClean outside config with_credentials
