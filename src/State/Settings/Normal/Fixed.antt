-- ===== src/State/Settings/Normal/Fixed.antt =====
-- A predicate for normalised settings, on which `Normalize` changes nothing.
use mathlib.Core.Option as Opt
use cfwarp_cli.Prelude.{
  ◌≡◌, ◌≢◌, sym, ap, ◌∙◌, false, eq_iff, List, ◌∷◌, map, arith, is_zero, to_lower, inl, inr,
}
use cfwarp_cli.State.Settings.{Settings, AccessConfig}
use cfwarp_cli.State.Settings.Normalize.{
  lower_names, infer_selection, settle_mode, choose_mode, resolve_mode, retag_backend,
  normalize_caps, normalize_dns, normalize_rotation, normalize_access, normalize_options,
  typed_primary, follow, sync_with, sync_primary, select_names, normalize,
}
use cfwarp_cli.State.Settings.Normal.Selection.{IsSelected}

pub record IsNormal (s : Settings) : Type 0 where
  pub versioned : is_zero s.schema_version ≡ false
  pub selected : IsSelected s.runtime_family s.transport s.backend
  pub log_lowered : to_lower s.log_level ≡ s.log_level
  pub mode_lowered : to_lower s.mode ≡ s.mode
  pub caps_fixed : Opt.map normalize_caps s.caps ≡ s.caps
  pub dns_fixed : Opt.map normalize_dns s.dns ≡ s.dns
  pub rotation_fixed : Opt.map normalize_rotation s.rotation ≡ s.rotation
  pub primary : AccessConfig
  pub rest : List AccessConfig
  pub access_fixed : map normalize_access (primary ∷ rest) ≡ primary ∷ rest
  pub typed : primary.type ≢ ""
  pub followed : follow s primary rest ≡ s

pub sync_primary_listed :
    (s : Settings) (a : AccessConfig) (rest : List AccessConfig)
    → s.access ≡ a ∷ rest
    → sync_primary s ≡ follow s (typed_primary s a) rest
unfolding sync_primary sync_with
sync_primary_listed s a rest e = ap (sync_with s) e

module _ (s : Settings) (h : IsNormal s) where
  open h use {primary, rest, followed}

  pub mode-type : s.mode ≡ primary.type
  mode-type = sym (ap (λ t. t.mode) followed)

  pub proxy_mode-type : s.proxy_mode ≡ primary.type
  proxy_mode-type = sym (ap (λ t. t.proxy_mode) followed)

  pub access-listed : s.access ≡ primary ∷ rest
  access-listed = sym (ap (λ t. t.access) followed)

  pub lower_names_fixed : lower_names s ≡ s
  unfolding lower_names
  lower_names_fixed = ground (
    arith, h.versioned, h.selected.lowered, h.log_lowered, h.mode_lowered, mode-type,
    proxy_mode-type,
  )

  pub infer_selection_fixed : infer_selection s ≡ s
  unfolding infer_selection
  infer_selection_fixed = ground (
    arith,
    h.selected.no_family,
    h.selected.no_transport,
    eq_iff s.runtime_family "",
    eq_iff s.transport "",
  )

  pub choose_mode_self : choose_mode primary.type primary.type ≡ primary.type
  unfolding choose_mode settle_mode
  choose_mode_self = ground (arith, h.typed, eq_iff primary.type "")

  pub resolve_mode_fixed : resolve_mode s ≡ s
  unfolding resolve_mode
  resolve_mode_fixed = ground (arith, mode-type, proxy_mode-type, choose_mode_self)

  retag_backend_fixed : retag_backend s ≡ s
  unfolding retag_backend
  retag_backend_fixed = elim h.selected.tagged [ inl e ↦ rw e | inr e ↦ ground (arith, e) ]

  pub normalize_options_fixed : normalize_options s ≡ s
  unfolding normalize_options
  normalize_options_fixed =
      ground (arith, h.caps_fixed, h.dns_fixed, h.rotation_fixed, h.access_fixed, access-listed)

  pub typed_fixed : typed_primary s primary ≡ primary
  typed_fixed = ground (arith, h.typed, eq_iff primary.type "")

  pub sync_primary_fixed : sync_primary s ≡ s
  sync_primary_fixed =
      sync_primary_listed s primary rest access-listed
      ∙ ap (λ p. follow s p rest) typed_fixed
      ∙ followed

  -- On normal settings `Normalize` changes nothing.
  pub normalize_fixed : normalize s ≡ s
  unfolding normalize select_names
  normalize_fixed =
      rw
        (
          lower_names_fixed, infer_selection_fixed, resolve_mode_fixed, retag_backend_fixed,
          normalize_options_fixed,
        )
        sync_primary_fixed
