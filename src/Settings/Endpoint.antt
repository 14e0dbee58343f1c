-- ===== src/Settings/Endpoint.antt =====
-- `ValidateEndpoint` of internal/settings/validate.go.
use cfwarp_cli.Prelude.{
  ◌≡◌, refl, not, ◌||◌, String, ◌==◌, Option, none, some, ℤ, is_positive, is_above, if◌then◌else◌,
}
use cfwarp_cli.Prelude.Net.{split_host_port, atoi}

pub data EndpointError : Type 0 where
  not_host_port empty_host port_not_numeric port_out_of_range : EndpointError

unfoldable pub validate_port : Option ℤ → Option EndpointError
validate_port none = some EndpointError.port_not_numeric
validate_port (some port) =
    if not (is_positive port) || is_above port 65535
    then some EndpointError.port_out_of_range
    else none

unfoldable pub validate_split : Option (String × String) → Option EndpointError
validate_split none = some EndpointError.not_host_port
validate_split (some (host, port)) =
    if host == "" then some EndpointError.empty_host else validate_port (atoi port)

unfoldable pub validate_endpoint : String → Option EndpointError
validate_endpoint ep = validate_split (split_host_port ep)

endpoint_tests :
    (validate_endpoint "1.2.3.4:2408" ≡ none)
    × (validate_endpoint "[2606:4700::1]:443" ≡ none)
    × (validate_endpoint "host" ≡ some EndpointError.not_host_port)
    × (validate_endpoint "::1:443" ≡ some EndpointError.not_host_port)
    × (validate_endpoint ":443" ≡ some EndpointError.empty_host)
    × (validate_endpoint "h:x" ≡ some EndpointError.port_not_numeric)
    × (validate_endpoint "h:65536" ≡ some EndpointError.port_out_of_range)
    × (validate_endpoint "h:-1" ≡ some EndpointError.port_out_of_range)
unfolding validate_endpoint split_host_port atoi validate_split validate_port
endpoint_tests = (refl, refl, refl, refl, refl, refl, refl, refl)
