-- ===== src/HttpProxy.antt =====
-- internal/dataplane/frontend/http/server.go: what the proxy does with a request, as the list of its
-- acts. Base64, the stack's dialing, the hijacking of a connection and the round trip of a request are
-- answers from outside. Header keys are in their canonical form, as net/http reads them.
pub mod Guarded
pub mod Basic
mod Tests
use Prim.Native.Char.{code}
use Prim.Native.String as Text
use Prim.Native.String.{◌++◌}
use cfwarp_cli.Prelude.{
  ℕ, Bool, true, false, not, ◌&&◌, String, ◌==◌, Option, none, some, List, [], ◌∷◌, nat_eq, map,
  if◌then◌else◌,
}
use cfwarp_cli.Prelude.Prefix.{after_prefix}

pub record Config : Type 0 where
  pub listen_addr : String
  pub username : String
  pub password : String

abbrev pub Header : Type 0
Header = List (String × String)

-- `url_host` is none for a request without a URL.
pub record Request : Type 0 where
  pub method : String
  pub host : String
  pub request_uri : String
  pub url_host : Option String
  pub header : Header

pub record Response : Type 0 where
  pub status_code : ℕ
  pub header : Header
  pub body : String

-- `Header.Get`: the first value, or "".
unfoldable pub get : String → Header → String
get key [] = ""
get key ((k, v) ∷ rest) = if k == key then v else get key rest

-- `Header.Set` on a header without the key.
abbrev pub challenge_header : Header
challenge_header = ("Proxy-Authenticate", "Basic realm=\"Proxy\"") ∷ []

pub data Act : Type 0 where
  -- An answer to the client: the status, and what was put in its header.
  replied : ℕ → Header → Act
  -- A dial through the stack, and whether it gave a connection.
  dialed : String → Bool → Act
  closed : Act
  -- The answer to CONNECT, and the two copies, each of which closes both connections at its end.
  established relayed : Act
  -- A request that went out through the stack.
  sent : Request → Act
  copied : Response → Act
  -- A dial through the stack that the request's own transport makes, and whether it gave a connection;
  -- the round trip's error; `resp.Body.Close` and `transport.CloseIdleConnections`.
  dialed_over : String → Bool → Act
  failed_trip body_closed idle_closed : Act

-- What `RoundTrip` does: the dials that the transport makes, and the response, or none for an error.
pub record Trip : Type 0 where
  pub dials : List (String × Bool)
  pub response : Option Response

pub record Outside : Type 0 where
  pub encode : String → String
  pub decode : String → Option String
  pub dial : String → Bool
  pub can_hijack : Bool
  pub hijacks : Bool
  pub round_trip : Request → Trip

module _ (out : Outside) where
  unfoldable pub basic_auth_header : String → String → String
  basic_auth_header username password = "Basic " ++ out.encode (username ++ (":" ++ password))

  -- The parts before and after the first colon.
  unfoldable pub split_colon : String → Option (String × String)
  split_colon Text.[] = none
  split_colon (Text.◌∷◌ c s) =
      let rest = split_colon s in
      if nat_eq (code c) b':'
      then some ("", s)
      else elim rest [ none ↦ none | some (before, after) ↦ some (Text.◌∷◌ c before, after) ]

  abbrev pub decoded_parts : Option String → Option (String × String)
  decoded_parts none = none
  decoded_parts (some text) = split_colon text

  -- `ParseBasicAuthHeader`; its `false` is none.
  abbrev pub encoded_parts : Option String → Option (String × String)
  encoded_parts none = none
  encoded_parts (some encoded) = decoded_parts (out.decode encoded)

  unfoldable pub parse_basic_auth_header : String → Option (String × String)
  parse_basic_auth_header v = encoded_parts (after_prefix "Basic " v)

  unfoldable pub authenticate : Config → Request → Bool
  authenticate cfg r =
      if cfg.username == "" && cfg.password == ""
      then true
      else get "Proxy-Authorization" r.header == basic_auth_header cfg.username cfg.password

  unfoldable pub handle_connect : Request → List Act
  handle_connect r =
      if out.dial r.host
      then dialed r.host true
        ∷ (if not out.can_hijack
            then closed ∷ replied 500 [] ∷ []
            else if not out.hijacks
            then closed ∷ replied 502 [] ∷ []
            else established ∷ relayed ∷ [])
      else dialed r.host false ∷ replied 502 [] ∷ []

  -- `outReq`: the clone that goes out.
  abbrev pub outgoing : Request → Request
  outgoing r = record r { request_uri = "" }

  -- After the round trip; what is deferred is done last, the latest first.
  abbrev pub after_trip : Option Response → List Act
  after_trip none = failed_trip ∷ replied 502 [] ∷ idle_closed ∷ []
  after_trip (some response) =
      replied response.status_code response.header
      ∷ copied response
      ∷ body_closed
      ∷ idle_closed
      ∷ []

  abbrev pub dialing : List (String × Bool) → List Act → List Act
  dialing [] acts = acts
  dialing ((addr, ok) ∷ dials) acts = dialed_over addr ok ∷ dialing dials acts

  abbrev pub forwarded : Request → Trip → List Act
  forwarded r trip = sent r ∷ dialing trip.dials (after_trip trip.response)

  abbrev pub forward_to : Request → Option String → List Act
  forward_to r none = replied 400 [] ∷ []
  forward_to r (some host) =
      if host == ""
      then replied 400 [] ∷ []
      else forwarded (outgoing r) (out.round_trip (outgoing r))

  unfoldable pub handle_forward : Request → List Act
  handle_forward r = forward_to r r.url_host

  unfoldable pub handle : Config → Request → List Act
  handle cfg r =
      if not (authenticate cfg r)
      then replied 407 challenge_header ∷ []
      else if r.method == "CONNECT"
      then handle_connect r
      else handle_forward r
