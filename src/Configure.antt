-- ===== src/Configure.antt =====
-- The commands of cmd/transport_mode.go that change the settings file: `transport set` and `mode
-- set`. `makes` and `writes` say whether the directories are made and the file is written.
pub mod Stored
pub mod Set
mod Tests
use cfwarp_cli.Prelude.{
  Bool, true, false, String, ◌==◌, Option, none, some, List, [], ◌∷◌, if◌then◌else◌, pos,
}
use cfwarp_cli.State.Settings.{
  Settings, AccessConfig, default_settings, transport_masque, transport_wireguard,
  runtime_family_native, runtime_family_legacy,
}
use cfwarp_cli.State.Settings.Normalize.{normalize}
use cfwarp_cli.State.Settings.Json.{SettingsJson}
use cfwarp_cli.State.Store.{
  Content, Loading, found, missing, unreadable, load_settings_file, save_settings,
}
use cfwarp_cli.Settings.Validate as Validate
use cfwarp_cli.Settings.Validate.{validate}
use cfwarp_cli.Service.Action.{
  corrupt, no_directories, write_failed, invalid_settings, Result, ok, err, Action, ⊤, of_result,
  ◌>>=◌, ◌>>◌, raise_unless, raise,
}

abbrev pub or_defaults : Loading Settings → Result Settings
or_defaults (found sett) = ok sett
or_defaults missing = ok default_settings
or_defaults unreadable = err corrupt

unfoldable pub load_mutable_settings : Content SettingsJson → Result Settings
load_mutable_settings file = or_defaults (load_settings_file file)

abbrev pub no_fault : Option Validate.Error → Result ⊤
no_fault none = ok tt
no_fault (some e) = err (invalid_settings e)

abbrev pub write_result : Bool × Content SettingsJson → Result ⊤ × Content SettingsJson
write_result (true, file) = (ok tt, file)
write_result (false, file) = (err write_failed, file)

-- The family that a transport is known to need, or the one that was set.
abbrev pub family_for : String → String → String
family_for name family =
    if name == transport_masque
    then runtime_family_native
    else if name == transport_wireguard
    then runtime_family_legacy
    else family

-- `family` is the flag.
unfoldable pub choose_transport : String → String → Settings → Settings
choose_transport name family sett = record sett {
  transport = name;
  runtime_family = if family == "" then family_for name sett.runtime_family else family;
}

abbrev pub retyped : String → Settings → List AccessConfig → List AccessConfig
retyped mode sett [] =
    record {
      type = mode;
      listen_host = sett.listen_host;
      listen_port = sett.listen_port;
      username = sett.proxy_username;
      password = sett.proxy_password;
      name = "";
      mtu = pos 0;
    }
    ∷ []
retyped mode sett (a ∷ rest) = record a { type = mode } ∷ rest

unfoldable pub choose_mode : String → Settings → Settings
choose_mode mode sett = record sett {
  mode = mode;
  proxy_mode = mode;
  access = retyped mode sett sett.access;
}

module _ (makes writes : Bool) where
  unfoldable pub save_settings_validated : Settings → Action (Content SettingsJson) ⊤
  save_settings_validated sett = do
    of_result (no_fault (validate sett))
    raise_unless no_directories makes
    λ file. write_result (save_settings writes sett file)

  -- A command that changes the settings of the file.
  abbrev pub change_loaded :
      (Settings → Settings) → Result Settings → Action (Content SettingsJson) ⊤
  change_loaded f (ok sett) = save_settings_validated (normalize (f sett))
  change_loaded f (err e) = raise e

  abbrev pub change_settings : (Settings → Settings) → Action (Content SettingsJson) ⊤
  change_settings f file = change_loaded f (load_mutable_settings file) file

  unfoldable pub set_transport : String → String → Action (Content SettingsJson) ⊤
  set_transport name family = change_settings (choose_transport name family)

  unfoldable pub set_mode : String → Action (Content SettingsJson) ⊤
  set_mode mode = change_settings (choose_mode mode)
