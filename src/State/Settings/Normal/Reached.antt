-- ===== src/State/Settings/Normal/Reached.antt =====
-- `Settings.Normalize` reaches normal settings, but for a mode with spaces around it.

use cfwarp_cli.Prelude.{
  ◌≡◌, ◌≢◌, refl, ap, ap₂, ◌∙◌, ◌==◌, eq_iff, String, List, [], ◌∷◌, map, arith, to_lower,
  trim_space, tidy, to_lower-tidy, if_elim,
}
use cfwarp_cli.State.Settings.{Settings, AccessConfig, default_string, mode_tun}
use cfwarp_cli.State.Settings.Normalize.{
  normalize_caps, normalize_dns, normalize_rotation, normalize_access, normalize_options,
  legacy_access, typed_primary, follow, sync_with, sync_primary, select_names, normalize,
}
use cfwarp_cli.State.Settings.Normal.Options.{
  map_idem, Option-map_idem, normalize_caps_idem, normalize_dns_idem, normalize_rotation_idem,
  normalize_access_idem,
}
use cfwarp_cli.State.Settings.Normal.Selected.{Selects, select_names-Selects}
use cfwarp_cli.State.Settings.Normal.Fixed.{IsNormal, normalize_fixed}

-- A listener that `Normalize` leaves alone if its type is tidy: only a TUN one may lack a host.
abbrev IsHosted : AccessConfig → Type 0
IsHosted a = a.listen_host ≡ "" → a.type ≡ mode_tun

-- A listener's type is lowered and, unless it is absent, so is the mode that stands in for it.
record IsSettled (t : Settings) (a : AccessConfig) : Type 0 where
  type_lowered : to_lower a.type ≡ a.type
  hosted : IsHosted a

normalize_access-fixed :
    (a : AccessConfig) → tidy a.type ≡ a.type → IsHosted a → normalize_access a ≡ a
unfolding normalize_access
normalize_access-fixed a e h = ground (arith, e, h, eq_iff a.listen_host "", eq_iff a.type mode_tun)

tidy_of_trimmed : (x : String) → trim_space x ≡ x → to_lower x ≡ x → tidy x ≡ x
unfolding tidy
tidy_of_trimmed x h k = ap to_lower h ∙ k

typed_primary-normalize_access :
    (t : Settings) (a : AccessConfig)
    → to_lower t.mode ≡ t.mode
    → IsSettled t (typed_primary t (normalize_access a))
unfolding normalize_access
typed_primary-normalize_access t a m = record {
  type_lowered = if_elim (λ y. to_lower y ≡ y) (tidy a.type == "") m (to_lower-tidy a.type);
  hosted = ground (
    arith,
    eq_iff (tidy a.type) mode_tun,
    eq_iff (tidy a.type) "",
    eq_iff a.listen_host "",
    eq_iff mode_tun "",
    eq_iff "0.0.0.0" "",
  );
}

typed_primary-legacy_access :
    (t : Settings) → to_lower t.mode ≡ t.mode → IsSettled t (typed_primary t (legacy_access t))
unfolding legacy_access default_string
typed_primary-legacy_access t m = record {
  type_lowered = if_elim (λ y. to_lower y ≡ y) (t.mode == "") m m;
  hosted = ground (arith, eq_iff t.listen_host "", eq_iff "0.0.0.0" "");
}

typed_primary-ne-nil :
    (t : Settings) (a : AccessConfig) → t.mode ≢ "" → (typed_primary t a).type ≢ ""
typed_primary-ne-nil t a h = ground (arith, eq_iff a.type "")

module _ (t : Settings) where
  -- The listener that comes first once the options are normalised.
  pub first_of_access : List AccessConfig → AccessConfig
  first_of_access [] = typed_primary t (legacy_access t)
  first_of_access (a ∷ rest) = typed_primary t a

  pub rest_of_access : List AccessConfig → List AccessConfig
  rest_of_access [] = []
  rest_of_access (a ∷ rest) = rest

  sync_with_lem :
      (l : List AccessConfig) → sync_with t l ≡ follow t (first_of_access l) (rest_of_access l)
  unfolding sync_with first_of_access rest_of_access
  sync_with_lem [] = refl
  sync_with_lem (a ∷ rest) = refl

  first_of_access-IsSettled :
      (l : List AccessConfig)
      → to_lower t.mode ≡ t.mode
      → IsSettled t (first_of_access (map normalize_access l))
  unfolding first_of_access
  first_of_access-IsSettled [] m = typed_primary-legacy_access t m
  first_of_access-IsSettled (a ∷ rest) m = typed_primary-normalize_access t a m

  first_of_access-ne-nil : (l : List AccessConfig) → t.mode ≢ "" → (first_of_access l).type ≢ ""
  unfolding first_of_access
  first_of_access-ne-nil [] h = typed_primary-ne-nil t (legacy_access t) h
  first_of_access-ne-nil (a ∷ rest) h = typed_primary-ne-nil t a h

  rest_of_access_fixed :
      (l : List AccessConfig)
      → map normalize_access (rest_of_access (map normalize_access l))
        ≡ rest_of_access (map normalize_access l)
  unfolding rest_of_access
  rest_of_access_fixed [] = refl
  rest_of_access_fixed (a ∷ rest) = map_idem normalize_access normalize_access_idem rest

-- The settings that `Normalize` ends with, from those that the selecting blocks leave.
normalize_lem :
    (s : Settings)
    → let t = normalize_options (select_names s) in
      normalize s ≡ follow t (first_of_access t t.access) (rest_of_access t t.access)
unfolding normalize sync_primary
normalize_lem s = sync_with_lem _ _

-- After `Normalize` a second pass changes nothing, unless the mode has spaces around it.
pub normalize-IsNormal :
    (s : Settings) → trim_space (normalize s).mode ≡ (normalize s).mode → IsNormal (normalize s)
unfolding normalize_options
normalize-IsNormal s = rw normalize_lem λ trimmed. record {
  versioned = sel.versioned;
  selected = sel.selected;
  log_lowered = sel.log_lowered;
  mode_lowered = settled.type_lowered;
  caps_fixed = Option-map_idem normalize_caps normalize_caps_idem _;
  dns_fixed = Option-map_idem normalize_dns normalize_dns_idem _;
  rotation_fixed = Option-map_idem normalize_rotation normalize_rotation_idem _;
  primary = first_of_access t t.access;
  rest = rest_of_access t t.access;
  access_fixed =
      ap₂ ◌∷◌
        (normalize_access-fixed _ (tidy_of_trimmed _ trimmed settled.type_lowered) settled.hosted)
        (rest_of_access_fixed t (select_names s).access);
  typed = first_of_access-ne-nil t t.access sel.mode_given;
  followed = refl;
}
  where
    t : Settings
    t = normalize_options (select_names s)

    sel : Selects s (select_names s)
    sel = select_names-Selects s

    settled : IsSettled t (first_of_access t t.access)
    settled = first_of_access-IsSettled t (select_names s).access sel.mode_lowered

-- Such settings are a fixed point of `Normalize`.
pub normalize_idem :
    (s : Settings)
    → trim_space (normalize s).mode ≡ (normalize s).mode
    → normalize (normalize s) ≡ normalize s
normalize_idem s h = normalize_fixed (normalize s) (normalize-IsNormal s h)

-- The legacy fields repeat the first listener, which has a type; the runtime's names are in lower
-- case.
pub record MirrorsPrimary (s : Settings) : Type 0 where
  pub primary : AccessConfig
  pub rest : List AccessConfig
  pub listed : s.access ≡ primary ∷ rest
  pub typed : primary.type ≢ ""
  pub moded : (s.mode ≡ primary.type) × (s.proxy_mode ≡ primary.type)
  pub placed : (s.listen_host ≡ primary.listen_host) × (s.listen_port ≡ primary.listen_port)
  pub credentials : (s.proxy_username ≡ primary.username) × (s.proxy_password ≡ primary.password)
  pub lowered : (to_lower s.mode ≡ s.mode) × (to_lower s.log_level ≡ s.log_level)

-- Settings always have a listener after `Normalize`, and their legacy fields repeat the first one.
pub normalize-MirrorsPrimary : (s : Settings) → MirrorsPrimary (normalize s)
unfolding normalize_options
normalize-MirrorsPrimary s =
    let sel = select_names-Selects s in
    let t = normalize_options (select_names s) in
    let settled = first_of_access-IsSettled t (select_names s).access sel.mode_lowered in
    rw normalize_lem (record {
      primary = first_of_access t t.access;
      rest = rest_of_access t t.access;
      listed = refl;
      typed = first_of_access-ne-nil t t.access sel.mode_given;
      moded = (refl, refl);
      placed = (refl, refl);
      credentials = (refl, refl);
      lowered = (settled.type_lowered, sel.log_lowered);
    })
