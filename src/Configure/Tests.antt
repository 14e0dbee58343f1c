-- ===== src/Configure/Tests.antt =====
-- Commands on settings files.
use cfwarp_cli.Prelude.{◌≡◌, ◌≢◌, refl, true, eq_iff, arith, to_lower, tidy}
use cfwarp_cli.State.Settings.{default_settings}
use cfwarp_cli.State.Store.{absent, garbled}
use cfwarp_cli.Settings.Validate as Validate
use cfwarp_cli.Prelude.{trim_space}
use cfwarp_cli.State.Settings.{
  derive_backend_tag, default_string, default_int, infer_runtime_selection,
}
use cfwarp_cli.State.Settings.Normalize.{
  normalize, sync_primary, sync_with, normalize_options, select_names, retag_backend, resolve_mode,
  infer_selection, lower_names, legacy_access, settle_mode, normalize_access,
}
use cfwarp_cli.State.Settings.Normalize as Normalize
use cfwarp_cli.State.Store.{load_settings_file, read_json}
use cfwarp_cli.Settings.Validate.{
  validate, validate_normal, validate_override, validate_access, validate_listener,
  validate_runtime,
}
use cfwarp_cli.Configure.{load_mutable_settings, save_settings_validated}
use cfwarp_cli.Service.Action.{err, corrupt, invalid_settings, Ends}
use cfwarp_cli.Configure.{set_mode, set_transport, choose_transport}
use cfwarp_cli.Configure.Set.{Reads, ServesBy, Uses, set_mode-Ends, set_transport-Ends}
use cfwarp_cli.Configure.Stored.{Unchanged}

http_given : tidy "HTTP " ≢ ""
unfolding tidy
http_given e = ground (arith, e, eq_iff "http" "")

set_mode-Ends_example :
    Ends
      (λ _ file'. Reads (ServesBy (tidy "HTTP ")) absent file')
      (Unchanged absent)
      (set_mode true true "HTTP " absent)
set_mode-Ends_example = set_mode-Ends true true "HTTP " absent http_given

masque_given : to_lower "masque" ≢ ""
unfolding to_lower
masque_given e = ground (arith, e, eq_iff "masque" "")

set_transport-Ends_example :
    Ends
      (λ _ file'. Reads (λ _ s. Uses (to_lower "masque") s) absent file')
      (Unchanged absent)
      (set_transport true true "masque" "" absent)
set_transport-Ends_example = set_transport-Ends true true "masque" "" absent masque_given

-- A name in capitals does not bring its family with it, so that it is refused.
capitals :
    set_transport true true "MASQUE" "" absent
    ≡ (err (invalid_settings Validate.transport_not_of_family), absent)
unfolding to_lower trim_space tidy default_settings derive_backend_tag infer_runtime_selection
    default_string default_int normalize sync_primary sync_with normalize_options select_names
    retag_backend resolve_mode infer_selection lower_names legacy_access Normalize.choose_mode
    settle_mode normalize_access validate validate_normal validate_override validate_access
    validate_listener validate_runtime load_mutable_settings load_settings_file read_json
    save_settings_validated set_transport choose_transport
capitals = refl

unreadable_file : set_mode true true "http" garbled ≡ (err corrupt, garbled)
unfolding set_mode load_mutable_settings load_settings_file read_json
unreadable_file = refl
