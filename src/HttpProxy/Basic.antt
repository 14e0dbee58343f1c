-- ===== src/HttpProxy/Basic.antt =====
-- The basic credentials of internal/dataplane/frontend/http/server.go, written and read.
use Prim.Native.Char.{code}
use Prim.Native.String as Text
use Prim.Native.String.{◌++◌}
use text.Mathlib.TextLemmas.{nil-append, cons-append}
use cfwarp_cli.Prelude.{◌≡◌, refl, ap, ◌∙◌, false, String, some, nat_eq}
use cfwarp_cli.Prelude.Prefix.{after_prefix-append}
use cfwarp_cli.HttpProxy.{
  Outside, split_colon, decoded_parts, encoded_parts, basic_auth_header, parse_basic_auth_header,
}

-- No colon in a text.
abbrev pub NoColon : String → Type 0
NoColon Text.[] = Unit
NoColon (Text.◌∷◌ c s) = (nat_eq (code c) b':' ≡ false) × NoColon s

module _ (out : Outside) where
  split_colon-append : (s t : String) → NoColon s → split_colon out (s ++ (":" ++ t)) ≡ some (s, t)
  unfolding split_colon
  split_colon-append Text.[] t h =
      rw (nil-append (":" ++ t), cons-append ":" "" t, nil-append t) refl
  split_colon-append (Text.◌∷◌ c s) t (h, hs) =
      rw (cons-append c s (":" ++ t), h, split_colon-append s t hs) refl

  -- Credentials are read back from the header that is made of them, if the user's name has no colon; Base64
  -- decodes what it encoded.
  pub parse-basic_auth_header :
      (username password : String)
      → NoColon username
      → ((s : String) → out.decode (out.encode s) ≡ some s)
      → parse_basic_auth_header out (basic_auth_header out username password)
        ≡ some (username, password)
  unfolding parse_basic_auth_header basic_auth_header
  parse-basic_auth_header username password h decodes =
      ap (encoded_parts out) (after_prefix-append "Basic " _)
      ∙ ap (decoded_parts out) (decodes _)
      ∙ split_colon-append username password h
