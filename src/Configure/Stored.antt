-- ===== src/Configure/Stored.antt =====
-- What the commands of cmd/transport_mode.go leave in the settings file.
use cfwarp_cli.Prelude.{◌≡◌, refl, ap, ◌∙◌, Bool, true, false, Option, none, some}
use cfwarp_cli.State.Settings.{Settings}
use cfwarp_cli.State.Settings.Normalize.{normalize}
use cfwarp_cli.State.Settings.Normal.Fixed.{IsNormal, normalize_fixed}
use cfwarp_cli.State.Settings.Normal.Reached.{normalize-IsNormal}
use cfwarp_cli.State.Settings.Json.{SettingsJson, marshal}
use cfwarp_cli.State.Settings.Json.Roundtrip.{without_zero_blocks, without_zero_blocks-IsNormal}
use cfwarp_cli.State.Store.{Content, holds, found, read_json, load_settings_file, save_settings}
use cfwarp_cli.Settings.Stored.{trim_space-mode, unmarshal-marshal_settings}
use cfwarp_cli.Settings.Validate as Validate
use cfwarp_cli.Settings.Validate.{validate, validate_normal}
use cfwarp_cli.Settings.Validate.Spec.{IsValid}
use cfwarp_cli.Settings.Validate.Valid.{validate_iff}
use cfwarp_cli.Service.Action.{
  Result, ok, err, Ends, map-Ends, of_result, raise_unless, no_directories, ◌>>◌,
}
use cfwarp_cli.Configure.{change_loaded}
use cfwarp_cli.Configure.{
  no_fault, write_result, save_settings_validated, change_settings, load_mutable_settings,
}

-- The file holds what was saved: valid settings, but for blocks of zero values.
pub record Stores (s : Settings) (file : Content SettingsJson) : Type 0 where
  pub loaded : load_settings_file file ≡ found (without_zero_blocks (normalize s))
  pub valid : IsValid (normalize s)

valid-IsNormal : (s : Settings) → IsValid (normalize s) → IsNormal (normalize s)
valid-IsNormal s v = normalize-IsNormal s (trim_space-mode _ v.proxied)

validate-normalize : (s : Settings) → IsNormal (normalize s) → validate (normalize s) ≡ validate s
unfolding validate
validate-normalize s n = ap validate_normal (normalize_fixed (normalize s) n)

stored_loaded :
    (s : Settings)
    → validate s ≡ none
    → load_settings_file (holds (marshal (normalize s))) ≡ found (without_zero_blocks (normalize s))
unfolding load_settings_file read_json
stored_loaded s h =
    let n = valid-IsNormal s ((validate_iff s).0 h) in
    let read =
      unmarshal-marshal_settings (normalize s) (validate-normalize s n ∙ h)
      ∙ ap without_zero_blocks (normalize_fixed (normalize s) n) in
    ap found (ap normalize read ∙ normalize_fixed _ (without_zero_blocks-IsNormal (normalize s) n))

-- The file as it was.
abbrev pub Unchanged : Content SettingsJson → Content SettingsJson → Type 0
Unchanged file file' = file' ≡ file

written-Ends :
    (s : Settings) (writes : Bool) (file : Content SettingsJson)
    → validate s ≡ none
    → Ends (λ _ file'. Stores s file') (Unchanged file) (write_result (save_settings writes s file))
unfolding save_settings
written-Ends s true file h = record {
  outcome = record { loaded = stored_loaded s h; valid = (validate_iff s).0 h };
}
written-Ends s false file h = record { outcome = refl }

module _ (makes writes : Bool) where
  save_settings_validated-Ends :
      (s : Settings) (file : Content SettingsJson)
      → Ends
          (λ _ file'. Stores s file')
          (Unchanged file)
          (save_settings_validated makes writes s file)
  unfolding save_settings_validated
  save_settings_validated-Ends s file = checked (validate s) refl makes
    where
      checked :
          (e : Option Validate.Error)
          → validate s ≡ e
          → (makes : Bool)
          → Ends
              (λ _ file'. Stores s file')
              (Unchanged file)
              ((of_result (no_fault e)
                  >> (raise_unless no_directories makes
                      >> (λ file. write_result (save_settings writes s file))))
                file)
      checked (some e) h makes = record { outcome = refl }
      checked none h false = record { outcome = refl }
      checked none h true = written-Ends s writes file h

  -- A command that reports no error read settings from the file, or the defaults if there is none, and
  -- left the changed ones in it: they are valid, and reading the file gives them, but for blocks of
  -- zero values. One that ends in an error left the file as it was.
  pub change_settings-Ends :
      (f : Settings → Settings) (file : Content SettingsJson)
      → Ends
          (λ _ file'.
            (sett : Settings) × (load_mutable_settings file ≡ ok sett)
            × Stores (normalize (f sett)) file')
          (Unchanged file)
          (change_settings makes writes f file)
  change_settings-Ends f file = loaded (load_mutable_settings file) refl
    where
      loaded :
          (r : Result Settings)
          → load_mutable_settings file ≡ r
          → Ends
              (λ _ file'.
                (sett : Settings) × (load_mutable_settings file ≡ ok sett)
                × Stores (normalize (f sett)) file')
              (Unchanged file)
              (change_loaded makes writes f r file)
      loaded (ok sett) e =
          map-Ends _ (λ _ file' h. (sett, e, h)) (λ _ h. h)
            (save_settings_validated-Ends (normalize (f sett)) file)
      loaded (err x) e = record { outcome = refl }
