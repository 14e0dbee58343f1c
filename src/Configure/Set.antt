-- ===== src/Configure/Set.antt =====
-- What `transport set` and `mode set` of cmd/transport_mode.go make of their argument.
use cfwarp_cli.Prelude.{
  ◌≡◌, ◌≢◌, ◌⊎◌, refl, sym, ap, ◌∙◌, Bool, String, eq_iff, List, [], ◌∷◌, map, arith, to_lower,
  to_lower_idem, trim_space, trim_space-tidy, tidy, pos,
}
use cfwarp_cli.State.Settings.{Settings, AccessConfig}
use cfwarp_cli.State.Settings.Normalize.{
  normalize, normalize_access, normalize_options, select_names, sync_primary, sync_with,
  typed_primary, follow, lower_names,
}
use cfwarp_cli.State.Settings.Normal.Selection.{fill_transport}
use cfwarp_cli.State.Settings.Normal.Selected.{select_names_lem}
use cfwarp_cli.State.Settings.Normal.Reached.{normalize_idem}
use cfwarp_cli.State.Settings.Json.{SettingsJson}
use cfwarp_cli.State.Settings.Json.Roundtrip.{without_zero_blocks}
use cfwarp_cli.State.Store.{Content, found, load_settings_file}
use cfwarp_cli.Settings.Load.Synced.{normalize-listed}
use cfwarp_cli.Service.Action.{ok, Ends, map-Ends}
use cfwarp_cli.Configure.{
  retyped, choose_mode, choose_transport, load_mutable_settings, set_mode, set_transport,
}
use cfwarp_cli.Configure.Stored.{Stores, Unchanged, change_settings-Ends}

abbrev pub others : List AccessConfig → List AccessConfig
others [] = []
others (a ∷ rest) = rest

-- The settings that serve by a mode: so does their first listener, and the others are those of
-- earlier settings.
pub record ServesBy (mode : String) (earlier : Settings) (s : Settings) : Type 0 where
  pub moded : s.mode ≡ mode
  pub supported : (s.mode ≡ "socks5") ⊎ (s.mode ≡ "http")
  pub primary : AccessConfig
  pub typed : primary.type ≡ mode
  pub listed : s.access ≡ primary ∷ map normalize_access (others earlier.access)

abbrev first_retyped : String → Settings → List AccessConfig → AccessConfig
first_retyped mode sett [] = record {
  type = mode;
  listen_host = sett.listen_host;
  listen_port = sett.listen_port;
  username = sett.proxy_username;
  password = sett.proxy_password;
  name = "";
  mtu = pos 0;
}
first_retyped mode sett (a ∷ rest) = record a { type = mode }

retyped_lem :
    (mode : String) (sett : Settings) (l : List AccessConfig)
    → retyped mode sett l ≡ first_retyped mode sett l ∷ others l
retyped_lem mode sett [] = refl
retyped_lem mode sett (a ∷ rest) = refl

first_retyped-type :
    (mode : String) (sett : Settings) (l : List AccessConfig)
    → (first_retyped mode sett l).type ≡ mode
first_retyped-type mode sett [] = refl
first_retyped-type mode sett (a ∷ rest) = refl

typed_primary-type :
    (t : Settings) (a : AccessConfig)
    → tidy a.type ≢ ""
    → (typed_primary t (normalize_access a)).type ≡ tidy a.type
unfolding normalize_access
typed_primary-type t a h = ground (arith, eq_iff (tidy a.type) "", h)

module _ (mode : String) (given : tidy mode ≢ "") (sett : Settings) where
  abbrev chosen : Settings
  chosen = choose_mode mode sett

  abbrev first : AccessConfig
  first = first_retyped mode sett sett.access

  abbrev reached : Settings
  reached = normalize_options (select_names chosen)

  chosen_first : AccessConfig
  chosen_first = typed_primary reached (normalize_access first)

  chosen_first-type : chosen_first.type ≡ tidy mode
  unfolding chosen_first
  chosen_first-type =
      let type : first.type ≡ mode = first_retyped-type mode sett sett.access in
      typed_primary-type reached first (λ e. given (ap tidy (sym type) ∙ e)) ∙ ap tidy type

  normalize-chosen :
      normalize chosen ≡ follow reached chosen_first (map normalize_access (others sett.access))
  unfolding choose_mode chosen_first
  normalize-chosen =
      normalize-listed chosen first (others sett.access) (retyped_lem mode sett sett.access)

  chosen-mode : (normalize chosen).mode ≡ tidy mode
  chosen-mode = ap (λ (s : Settings). s.mode) normalize-chosen ∙ chosen_first-type

  chosen_idem : normalize (normalize chosen) ≡ normalize chosen
  chosen_idem =
      normalize_idem chosen (ap trim_space chosen-mode ∙ trim_space-tidy mode ∙ sym chosen-mode)

  Stores-ServesBy :
      (file : Content SettingsJson)
      → Stores (normalize chosen) file
      → (s : Settings) × (load_settings_file file ≡ found s) × ServesBy (tidy mode) sett s
  Stores-ServesBy file h = (
    without_zero_blocks (normalize (normalize chosen)),
    h.loaded,
    record {
      moded = ap (λ (s : Settings). s.mode) chosen_idem ∙ chosen-mode;
      supported = h.valid.proxied;
      primary = chosen_first;
      typed = chosen_first-type;
      listed =
          ap (λ (s : Settings). s.access) chosen_idem
          ∙ ap (λ (s : Settings). s.access) normalize-chosen;
    },
  )

-- The settings that use a transport, which `to_lower` names, and the family that it belongs to.
pub record Uses (transport : String) (s : Settings) : Type 0 where
  pub named : s.transport ≡ transport
  pub paired :
      ((s.runtime_family ≡ "legacy") × (s.transport ≡ "wireguard"))
      ⊎ ((s.runtime_family ≡ "native") × (s.transport ≡ "masque"))

sync_with-transport :
    (t : Settings) (l : List AccessConfig) → (sync_with t l).transport ≡ t.transport
unfolding sync_with
sync_with-transport t [] = refl
sync_with-transport t (a ∷ rest) = refl

normalize-transport :
    (s : Settings) → to_lower s.transport ≢ "" → (normalize s).transport ≡ to_lower s.transport
unfolding normalize sync_primary normalize_options fill_transport lower_names
normalize-transport s given = sync_with-transport (normalize_options (select_names s)) _ ∙ selected
  where
    selected : (select_names s).transport ≡ to_lower s.transport
    selected = rw select_names_lem (ground (arith, eq_iff (to_lower s.transport) "", given))

module _ (name family : String) (given : to_lower name ≢ "") (sett : Settings) where
  abbrev moved : Settings
  moved = choose_transport name family sett

  moved-transport : (normalize (normalize moved)).transport ≡ to_lower name
  unfolding choose_transport
  moved-transport =
      let once : (normalize moved).transport ≡ to_lower name = normalize-transport moved given in
      let lowered : to_lower (normalize moved).transport ≡ to_lower name =
        ap to_lower once ∙ to_lower_idem name in
      normalize-transport (normalize moved) (λ e. given (sym lowered ∙ e)) ∙ lowered

  Stores-Uses :
      (file : Content SettingsJson)
      → Stores (normalize moved) file
      → (s : Settings) × (load_settings_file file ≡ found s) × Uses (to_lower name) s
  Stores-Uses file h = (
    without_zero_blocks (normalize (normalize moved)),
    h.loaded,
    record { named = moved-transport; paired = h.valid.runtime },
  )

-- What reading the file gives afterwards.
abbrev pub Reads :
    (Settings → Settings → Type 0) → Content SettingsJson → Content SettingsJson → Type 0
Reads P file file' =
    (sett s : Settings) × (load_mutable_settings file ≡ ok sett)
    × (load_settings_file file' ≡ found s)
    × P sett s

module _ (makes writes : Bool) where
  -- `mode set` with a text that is not blank: without an error, the settings that are read from the
  -- file serve by the mode, trimmed and in lower case, which is SOCKS5 or HTTP; the first listener is of
  -- that type and the others are the earlier ones as `Normalize` leaves them. With an error, the file is
  -- as it was.
  pub set_mode-Ends :
      (mode : String) (file : Content SettingsJson)
      → tidy mode ≢ ""
      → Ends
          (λ _ file'. Reads (ServesBy (tidy mode)) file file')
          (Unchanged file)
          (set_mode makes writes mode file)
  unfolding set_mode
  set_mode-Ends mode file given =
      map-Ends _
        (λ _ file' (sett, e, h).
          let (s, loaded, serves) = Stores-ServesBy mode given sett file' h in
          (sett, s, e, loaded, serves))
        (λ _ h. h) (change_settings-Ends makes writes (choose_mode mode) file)

  -- `transport set` with a name that is not empty: without an error, the settings that are read from
  -- the file use the transport of that name, in lower case, with the runtime family that it belongs to.
  -- With an error, the file is as it was.
  pub set_transport-Ends :
      (name family : String) (file : Content SettingsJson)
      → to_lower name ≢ ""
      → Ends
          (λ _ file'. Reads (λ _ s. Uses (to_lower name) s) file file')
          (Unchanged file)
          (set_transport makes writes name family file)
  unfolding set_transport
  set_transport-Ends name family file given =
      map-Ends _
        (λ _ file' (sett, e, h).
          let (s, loaded, uses) = Stores-Uses name family given sett file' h in
          (sett, s, e, loaded, uses))
        (λ _ h. h) (change_settings-Ends makes writes (choose_transport name family) file)
