-- ===== src/State/Settings/Json/Roundtrip.antt =====
-- Settings that are stored and read back.
use mathlib.Core.Option as Opt
use cfwarp_cli.Prelude.{
  same_int_iff, is_zero-eq, if_elim, Bool, ◌≡◌, ◌≢◌, refl, sym, ap, ◌∙◌, true, false, eq_iff,
  String, Option, none, some, List, [], ◌∷◌, arith, is_zero, to_lower, Bool-cases, inl, inr,
  if◌then◌else◌,
}
use cfwarp_cli.State.Settings.{
  default_string, default_int, Settings, AccessConfig, default_settings, derive_backend_tag,
}
use cfwarp_cli.State.Settings.Normal.Selection.{derive_without_family, derive_without_transport}
use cfwarp_cli.State.Settings.Normalize.{
  normalize, select_names, normalize_dns, normalize_rotation, legacy_access, sync_primary,
  sync_with, normalize_options, lower_names, infer_selection, resolve_mode, retag_backend,
}
use cfwarp_cli.State.Settings.Normal.Fixed.{
  IsNormal, mode-type, proxy_mode-type, choose_mode_self, sync_primary_fixed,
  normalize_options_fixed, sync_primary_listed,
}
use cfwarp_cli.State.Settings.Json.{
  mirrors_legacy, access_matches_legacy, zero_dns, zero_rotation, zero_daemon, unless_zero, or_keep,
  or_keep_pointer, to_payload, marshal, overlay, unmarshal,
}

-- Normal settings that the payload can carry: none of the fields with a default is empty.
pub record IsStorable (n : Settings) : Type 0 where
  pub normal : IsNormal n
  pub supported : derive_backend_tag n.runtime_family n.transport ≢ ""
  pub logged : n.log_level ≢ ""
  pub hosted : n.listen_host ≢ ""
  pub ported : is_zero n.listen_port ≡ false

-- What is left of settings in the file: blocks of zero values are gone.
abbrev pub without_zero_blocks : Settings → Settings
without_zero_blocks n = record n {
  dns = unless_zero zero_dns n.dns;
  rotation = unless_zero zero_rotation n.rotation;
  daemon = unless_zero zero_daemon n.daemon;
}

or_keep_nil : (v : String) → or_keep v "" ≡ v
or_keep_nil v = ground (arith, eq_iff v "")

or_keep_given : (v d : String) → v ≢ "" → or_keep v d ≡ v
or_keep_given v d h = ground (arith, h, eq_iff v "")

or_keep_pointer-none {ℓ} : {A : Type ℓ} → (v : Option A) → or_keep_pointer v none ≡ v
or_keep_pointer-none none = refl
or_keep_pointer-none (some a) = refl

module _ (n : Settings) (supported : derive_backend_tag n.runtime_family n.transport ≢ "") where
  family-given : n.runtime_family ≢ ""
  family-given e = supported (rw e (derive_without_family n.transport))

  transport-given : n.transport ≢ ""
  transport-given e = supported (rw e (derive_without_transport n.runtime_family))

module _ (n : Settings) (s : IsStorable n) where
  open s use {normal, supported}

  mode-given : n.mode ≢ ""
  mode-given e = normal.typed (sym (mode-type n normal) ∙ e)

  -- The settings as `UnmarshalJSON` has them before it normalises.
  overlay-to_payload : overlay default_settings (to_payload n) ≡ record (without_zero_blocks n) {
    access = if access_matches_legacy n n.access then [] else n.access;
    backend = "singbox-wireguard";
  }
  unfolding overlay to_payload default_settings
  overlay-to_payload =
      rw
        (
          or_keep_nil n.proxy_username,
          or_keep_nil n.proxy_password,
          or_keep_nil n.endpoint_override,
          or_keep_nil n.state_dir,
          or_keep_given n.runtime_family "legacy" (family-given n supported),
          or_keep_given n.transport "wireguard" (transport-given n supported),
          or_keep_given n.mode "socks5" mode-given,
          or_keep_given n.listen_host "0.0.0.0" s.hosted,
          or_keep_given n.log_level "info" s.logged,
          or_keep_pointer-none n.masque_options,
          or_keep_pointer-none n.caps,
          normal.versioned,
          s.ported,
        )
        (ap
          (λ m. record (without_zero_blocks n) {
            access = if access_matches_legacy n n.access then [] else n.access;
            backend = "singbox-wireguard";
            proxy_mode = m;
          })
          (mode-type n normal ∙ sym (proxy_mode-type n normal)))

unless_zero-map {ℓ} :
    {A : Type ℓ}
    → (zero : A → Bool) (f : A → A) (o : Option A) → Opt.map f o ≡ o
    → Opt.map f (unless_zero zero o) ≡ unless_zero zero o
unless_zero-map zero f none h = h
unless_zero-map zero f (some a) h = if_elim (λ o. Opt.map f o ≡ o) (zero a) refl h

pub without_zero_blocks-IsNormal : (n : Settings) → IsNormal n → IsNormal (without_zero_blocks n)
without_zero_blocks-IsNormal n h = record {
  versioned = h.versioned;
  selected = h.selected;
  log_lowered = h.log_lowered;
  mode_lowered = h.mode_lowered;
  caps_fixed = h.caps_fixed;
  dns_fixed = unless_zero-map zero_dns normalize_dns n.dns h.dns_fixed;
  rotation_fixed = unless_zero-map zero_rotation normalize_rotation n.rotation h.rotation_fixed;
  primary = h.primary;
  rest = h.rest;
  access_fixed = h.access_fixed;
  typed = h.typed;
  followed = ap without_zero_blocks h.followed;
}

tag_lowered : to_lower "singbox-wireguard" ≡ "singbox-wireguard"
unfolding to_lower
tag_lowered = refl

-- Reading needs the names only: the tag follows from them.
select_names-stored :
    (m : Settings) (l : List AccessConfig)
    → IsNormal m
    → derive_backend_tag m.runtime_family m.transport ≢ ""
    → select_names (record m { access = l; backend = "singbox-wireguard" })
      ≡ record m { access = l }
unfolding select_names lower_names infer_selection resolve_mode retag_backend
select_names-stored m l h k = ground (
  arith,
  h.versioned,
  h.selected.lowered,
  h.selected.tagged,
  h.log_lowered,
  h.mode_lowered,
  mode-type m h,
  proxy_mode-type m h,
  choose_mode_self m h,
  eq_iff m.runtime_family "",
  eq_iff m.transport "",
  family-given m k,
  transport-given m k,
  tag_lowered,
  eq_iff (derive_backend_tag m.runtime_family m.transport) "",
)

mirrors_legacy-eq :
    (m : Settings) (a : AccessConfig)
    → m.listen_host ≢ ""
    → is_zero m.listen_port ≡ false
    → mirrors_legacy m a ≡ true
    → a ≡ legacy_access m
unfolding mirrors_legacy legacy_access default_string default_int
mirrors_legacy-eq m a h k e = ground (
  arith,
  e,
  eq_iff a.type m.mode,
  eq_iff a.listen_host m.listen_host,
  (same_int_iff a.listen_port m.listen_port).0,
  eq_iff a.username m.proxy_username,
  eq_iff a.password m.proxy_password,
  eq_iff a.name "",
  is_zero-eq a.mtu,
  eq_iff m.listen_host "",
)

normalize_options-dropped :
    (m : Settings)
    → IsNormal m
    → normalize_options (record m { access = [] }) ≡ record m { access = [] }
unfolding normalize_options
normalize_options-dropped m h =
    let drop_access : Settings → Settings = λ t. record t { access = [] } in
    ap drop_access (normalize_options_fixed m h)

module _ (m : Settings) (hosted : m.listen_host ≢ "") (ported : is_zero m.listen_port ≡ false) where
  dropped_single :
      (l : List AccessConfig) → access_matches_legacy m l ≡ true → l ≡ legacy_access m ∷ []
  unfolding access_matches_legacy
  dropped_single [] e = ground arith
  dropped_single (a ∷ []) e = ap (λ x. x ∷ []) (mirrors_legacy-eq m a hosted ported e)
  dropped_single (a ∷ b ∷ rest) e = ground arith

  -- The listener that stands for an empty list is the one that was left out.
  sync_primary-dropped :
      IsNormal m
      → access_matches_legacy m m.access ≡ true
      → sync_primary (record m { access = [] }) ≡ m
  unfolding sync_primary sync_with legacy_access
  sync_primary-dropped h e =
      sym (sync_primary_listed m (legacy_access m) [] (dropped_single m.access e))
      ∙ sync_primary_fixed m h

  normalize-stored :
      IsNormal m
      → derive_backend_tag m.runtime_family m.transport ≢ ""
      → normalize (record m {
        access = if access_matches_legacy m m.access then [] else m.access;
        backend = "singbox-wireguard";
      })
        ≡ m
  unfolding normalize
  normalize-stored h k =
      ap (λ t. sync_primary (normalize_options t)) (select_names-stored m _ h k)
      ∙ elim (Bool-cases (access_matches_legacy m m.access)) [
        | inl e ↦
            ap
              (λ b.
                sync_primary (normalize_options (record m { access = if b then [] else m.access })))
              e
            ∙ ap sync_primary (normalize_options-dropped m h)
            ∙ sync_primary-dropped h e
        | inr e ↦
            ap
              (λ b.
                sync_primary (normalize_options (record m { access = if b then [] else m.access })))
              e
            ∙ ap sync_primary (normalize_options_fixed m h)
            ∙ sync_primary_fixed m h
      ]

access_matches_legacy-without :
    (n : Settings) (l : List AccessConfig)
    → access_matches_legacy n l ≡ access_matches_legacy (without_zero_blocks n) l
unfolding access_matches_legacy mirrors_legacy
access_matches_legacy-without n [] = refl
access_matches_legacy-without n (a ∷ []) = refl
access_matches_legacy-without n (a ∷ b ∷ rest) = refl

-- Storable settings come back as they were, but for the blocks of zero values.
pub unmarshal-marshal_storable :
    (s : Settings)
    → IsStorable (normalize s)
    → unmarshal (marshal s) ≡ without_zero_blocks (normalize s)
unfolding unmarshal marshal
unmarshal-marshal_storable s h =
    let n = normalize s in
    ap normalize (overlay-to_payload n h)
    ∙ ap
        (λ b. normalize (record (without_zero_blocks n) {
          access = if b then [] else n.access;
          backend = "singbox-wireguard";
        }))
        (access_matches_legacy-without n n.access)
    ∙ normalize-stored (without_zero_blocks n) h.hosted h.ported
        (without_zero_blocks-IsNormal n h.normal) h.supported
