-- ===== src/Singbox/Tests.antt =====
-- A configuration with two listeners and a resolver.
use Prim.Native.Char.{code}
use Prim.Native.String as Text
use Prim.Native.String.{◌++◌}
use cfwarp_cli.Prelude.{
  ℕ, zero, suc, ◌≡◌, refl, sym, ap, ◌∙◌, inl, String, eq_iff, none, some, [], ◌∷◌, ℤ, pos, negsuc,
  nat_eq, arith, if◌then◌else◌,
}
use cfwarp_cli.Prelude.{to_lower, tidy, trim_space}
use cfwarp_cli.Prelude.Net.{has_byte}
use cfwarp_cli.Singbox.{inbound_type_for, build_users, build_local_addresses, ensure_prefix}
use cfwarp_cli.State.Account.{AccountState, no_reserved}
use cfwarp_cli.State.Settings.{
  Settings, AccessConfig, default_settings, default_string, derive_backend_tag,
}
use cfwarp_cli.State.Settings.Normalize.{
  normalize, sync_primary, sync_with, normalize_options, select_names, retag_backend, resolve_mode,
  infer_selection, lower_names, normalize_access, choose_mode, normalize_dns, settle_mode,
}
use cfwarp_cli.Settings.Validate.{
  validate, validate_normal, validate_override, validate_access, validate_dns, validate_listener,
  validate_runtime,
}
use cfwarp_cli.Singbox.{rendered, failed, no_warp_ipv4, unsupported_access, render, build_inbounds}
use cfwarp_cli.Singbox.Closed.{Each, IsClosed, render-IsClosed}
use cfwarp_cli.Singbox.Serves.{Renders, Yields, render-Renders}

-- A way to print numbers that tells them apart: a sign, and a stroke for each one.
strokes : ℕ → String
strokes zero = ""
strokes (suc n) = Text.◌∷◌ "1" (strokes n)

count_strokes : String → ℕ
count_strokes Text.[] = 0
count_strokes (Text.◌∷◌ c s) = suc (count_strokes s)

count-strokes : (n : ℕ) → count_strokes (strokes n) ≡ n
unfolding strokes count_strokes
count-strokes zero = refl
count-strokes (suc n) = ap suc (count-strokes n)

print_strokes : ℤ → String
print_strokes (pos n) = Text.◌∷◌ "+" (strokes n)
print_strokes (negsuc n) = Text.◌∷◌ "-" (strokes n)

read_strokes : String → ℤ
read_strokes Text.[] = pos 0
read_strokes (Text.◌∷◌ c s) =
    if nat_eq (code c) b'-' then negsuc (count_strokes s) else pos (count_strokes s)

read-print : (a : ℤ) → read_strokes (print_strokes a) ≡ a
unfolding read_strokes print_strokes
read-print (pos n) = ap pos (count-strokes n)
read-print (negsuc n) = ap negsuc (count-strokes n)

print_strokes-Injective : (a b : ℤ) → print_strokes a ≡ print_strokes b → a ≡ b
print_strokes-Injective a b e = sym (read-print a) ∙ ap read_strokes e ∙ read-print b

abbrev account : AccountState
account = record {
  schema_version = pos 2;
  account_id = "id";
  token = "token";
  license = "";
  client_id = "";
  wireguard = none;
  masque = none;
  created_at = 7;
  source = "register";
  warp_private_key = "private";
  warp_peer_pub_key = "public";
  warp_ipv4 = "172.16.0.2";
  warp_ipv6 = "2606::1/64";
  warp_reserved = no_reserved;
  warp_peer_endpoint = "";
}

abbrev listening : String → ℤ → AccessConfig
listening type port = record {
  type = type;
  listen_host = "127.0.0.1";
  listen_port = port;
  username = "";
  password = "";
  name = "";
  mtu = pos 0;
}

abbrev settings : Settings
unfolding default_settings
settings = record default_settings {
  access = listening "SOCKS5" (pos 1080) ∷ listening "http" (pos 8080) ∷ [];
  dns =
      some (record {
        mode = "udp";
        server = "1.1.1.1";
        server_port = pos 0;
        path = "";
        strategy = "";
      });
}

settings_valid : validate settings ≡ none
unfolding validate validate_normal normalize sync_primary sync_with normalize_options select_names
    settings retag_backend derive_backend_tag resolve_mode infer_selection lower_names to_lower
    normalize_access tidy validate_override validate_access validate_dns validate_listener
    validate_runtime choose_mode normalize_dns settle_mode default_settings default_string
    trim_space
settings_valid = refl

two_inbounds :
    build_inbounds print_strokes 0 (
      listening "socks5" (pos 1080)
      ∷ (record (listening "http" (pos 8080)) { username = "u"; password = "p" })
      ∷ [])
    ≡ rendered (
        record {
          type = "socks";
          tag = "proxy-in-+1";
          listen = "127.0.0.1";
          listen_port = pos 1080;
          users = [];
        }
        ∷ record {
          type = "http";
          tag = "proxy-in-+11";
          listen = "127.0.0.1";
          listen_port = pos 8080;
          users = record { username = "u"; password = "p" } ∷ [];
        }
        ∷ [])
unfolding build_inbounds print_strokes strokes inbound_type_for build_users
two_inbounds = refl

no_tun :
    build_inbounds print_strokes 0 (listening "socks5" (pos 1080) ∷ listening "tun" (pos 1) ∷ [])
    ≡ failed (unsupported_access "tun")
unfolding build_inbounds inbound_type_for
no_tun = refl

local_addresses :
    (build_local_addresses "172.16.0.2" "2606::1/64"
      ≡ rendered ("172.16.0.2/32" ∷ "2606::1/64" ∷ []))
    × (build_local_addresses "" "2606::1" ≡ failed no_warp_ipv4)
unfolding build_local_addresses ensure_prefix has_byte
local_addresses = (refl, refl)

render-IsClosed_example : Each IsClosed (render print_strokes account settings)
render-IsClosed_example = render-IsClosed print_strokes print_strokes-Injective account settings

render-Renders_example :
    Yields (Renders (normalize settings) account) (render print_strokes account settings)
render-Renders_example =
    render-Renders print_strokes settings account settings_valid
      (λ e. ground (arith, eq_iff "172.16.0.2" "")) (inl refl)
