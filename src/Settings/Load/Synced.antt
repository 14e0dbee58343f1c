-- ===== src/Settings/Load/Synced.antt =====
-- Settings under flags or variables after `Settings.Normalize`: the backend's tag, and the primary
-- listener that `syncPrimaryAccessFromLegacy` sets.
use cfwarp_cli.Prelude.{
  ◌≡◌, ◌≢◌, refl, ap, ◌∙◌, ◌⊎◌, inl, inr, true, Bool-cases, String, ◌==◌, eq_iff, List, [], ◌∷◌,
  map, arith, is_zero, to_lower, to_lower_idem, trim_space, tidy,
}
use cfwarp_cli.State.Settings.{Settings, AccessConfig, derive_backend_tag}
use cfwarp_cli.State.Settings.Normalize.{
  normalize, select_names, lower_names, infer_selection, resolve_mode, retag_backend,
  normalize_options, normalize_access, sync_primary, sync_with, follow, typed_primary,
}
use cfwarp_cli.State.Settings.Normal.Selection.{derive_without_family, derive_without_transport}
use cfwarp_cli.State.Settings.Normal.Fixed.{sync_primary_listed}
use cfwarp_cli.State.Settings.Normal.Selected.{select_names-Selects, select_names_lem}
use cfwarp_cli.Prelude.Text.Laws.{trim_space-to_lower}
use cfwarp_cli.Settings.Load.{
  Overrides, empty_access, with_primary, apply_names, legacy_access_touched, primary_from_legacy,
  sync_primary_access_from_legacy, apply_overrides,
}

select_names-backend :
    (s : Settings) (backend : String)
    → derive_backend_tag (to_lower s.runtime_family) (to_lower s.transport) ≢ ""
    → select_names (record s { backend = backend }) ≡ select_names s
unfolding select_names retag_backend resolve_mode infer_selection lower_names
select_names-backend s backend h = ground (
  arith,
  h,
  eq_iff (to_lower s.runtime_family) "",
  eq_iff (to_lower s.transport) "",
  ap (λ f. derive_backend_tag f (to_lower s.transport)),
  derive_without_transport (to_lower s.runtime_family),
  derive_without_family (to_lower s.transport),
  eq_iff (derive_backend_tag (to_lower s.runtime_family) (to_lower s.transport)) "",
)

-- A runtime family and a transport that are supported decide the backend: the tag that was set does
-- not count.
pub normalize-backend :
    (s : Settings) (backend : String)
    → derive_backend_tag (to_lower s.runtime_family) (to_lower s.transport) ≢ ""
    → normalize (record s { backend = backend }) ≡ normalize s
unfolding normalize
normalize-backend s backend h =
    ap (λ t. sync_primary (normalize_options t)) (select_names-backend s backend h)

-- The settings that `Normalize` makes when a listener is listed.
pub normalize-listed :
    (u : Settings) (a : AccessConfig) (rest : List AccessConfig)
    → u.access ≡ a ∷ rest
    → let t = normalize_options (select_names u) in
      normalize u ≡ follow t (typed_primary t (normalize_access a)) (map normalize_access rest)
unfolding normalize normalize_options
normalize-listed u a rest e =
    sync_primary_listed _ (normalize_access a) (map normalize_access rest)
      (ap (map normalize_access) ((select_names-Selects u).access_kept ∙ e))

sync_with-kept :
    (t : Settings) (l : List AccessConfig)
    → ((sync_with t l).log_level ≡ t.log_level)
      × ((sync_with t l).endpoint_override ≡ t.endpoint_override)
unfolding sync_with
sync_with-kept t [] = (refl, refl)
sync_with-kept t (a ∷ rest) = (refl, refl)

select_names-kept :
    (s : Settings)
    → ((select_names s).log_level ≡ to_lower s.log_level)
      × ((select_names s).endpoint_override ≡ s.endpoint_override)
unfolding lower_names
select_names-kept s = rw select_names_lem (refl, refl)

pub normalize-kept :
    (s : Settings)
    → ((normalize s).log_level ≡ to_lower s.log_level)
      × ((normalize s).endpoint_override ≡ s.endpoint_override)
unfolding normalize sync_primary normalize_options
normalize-kept s =
    let k = sync_with-kept (normalize_options (select_names s)) _ in
    (k.0 ∙ (select_names-kept s).0, k.1 ∙ (select_names-kept s).1)

pub tidy-to_lower : (m : String) → tidy (to_lower m) ≡ tidy m
unfolding tidy
tidy-to_lower m = ap to_lower (trim_space-to_lower m) ∙ to_lower_idem (trim_space m)

abbrev first_listed : List AccessConfig → AccessConfig
first_listed [] = empty_access
first_listed (a ∷ rest) = a

abbrev rest_listed : List AccessConfig → List AccessConfig
rest_listed [] = []
rest_listed (a ∷ rest) = rest

with_primary_lem :
    (u : Settings) (l : List AccessConfig)
    → with_primary u l ≡ primary_from_legacy u (first_listed l) ∷ rest_listed l
with_primary_lem u [] = refl
with_primary_lem u (a ∷ rest) = refl

tidy_nil : tidy "" ≡ ""
unfolding tidy to_lower trim_space
tidy_nil = refl

-- A listener from the legacy fields.
module _ (u : Settings) (a : AccessConfig) where
  abbrev primary : AccessConfig
  primary = normalize_access (primary_from_legacy u a)

  primary-shows :
      ((tidy u.mode ≡ "") ⊎ (primary.type ≡ tidy u.mode))
      × ((u.listen_host ≡ "") ⊎ (primary.listen_host ≡ u.listen_host))
      × ((is_zero u.listen_port ≡ true) ⊎ (primary.listen_port ≡ u.listen_port))
      × ((u.proxy_username ≡ "") ⊎ (primary.username ≡ u.proxy_username))
      × ((u.proxy_password ≡ "") ⊎ (primary.password ≡ u.proxy_password))
  unfolding normalize_access primary_from_legacy
  primary-shows = (
    elim (Bool-cases (u.mode == "")) [
      | inl e ↦ inl (ap tidy ((eq_iff u.mode "").0 e) ∙ tidy_nil)
      | inr e ↦ inr (ground (arith, e))
    ],
    ground (arith, eq_iff u.listen_host ""),
    ground arith,
    ground (arith, eq_iff u.proxy_username ""),
    ground (arith, eq_iff u.proxy_password ""),
  )

-- The legacy fields of normalised settings whose primary listener was taken from them.
pub normalize-synced :
    (u : Settings)
    → let t = normalize (sync_primary_access_from_legacy u) in
      ((tidy u.mode ≡ "") ⊎ (t.mode ≡ tidy u.mode))
      × ((u.listen_host ≡ "") ⊎ (t.listen_host ≡ u.listen_host))
      × ((is_zero u.listen_port ≡ true) ⊎ (t.listen_port ≡ u.listen_port))
      × ((u.proxy_username ≡ "") ⊎ (t.proxy_username ≡ u.proxy_username))
      × ((u.proxy_password ≡ "") ⊎ (t.proxy_password ≡ u.proxy_password))
unfolding sync_primary_access_from_legacy
normalize-synced u =
    let a = primary_from_legacy u (first_listed u.access) in
    let p = primary-shows u (first_listed u.access) in
    rw
      (normalize-listed (sync_primary_access_from_legacy u) a (rest_listed u.access)
        (with_primary_lem u u.access))
      (
        ground (arith, p.0, eq_iff (normalize_access a).type "", eq_iff (tidy u.mode) ""),
        p.1,
        p.2,
        p.3,
        p.4,
      )

apply_overrides_synced :
    (o : Overrides) (s : Settings)
    → legacy_access_touched o ≡ true
    → apply_overrides o s ≡ sync_primary_access_from_legacy (apply_names o s)
unfolding apply_overrides
apply_overrides_synced o s e = ground (arith, e)
