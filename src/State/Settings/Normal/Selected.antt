-- ===== src/State/Settings/Normal/Selected.antt =====
-- The fields of settings after the blocks of `Normalize` that select the runtime and the mode.
use cfwarp_cli.Prelude.{
  ◌≡◌, ◌≢◌, refl, false, ◌==◌, eq_iff, String, arith, is_zero, to_lower, to_lower_idem, if_elim,
  if◌then◌else◌,
}
use cfwarp_cli.State.Settings.{Settings}
use cfwarp_cli.State.Settings.Normalize.{
  lower_names, infer_selection, settle_mode, choose_mode, resolve_mode, retag_backend, select_names,
}
use cfwarp_cli.State.Settings.Normal.Selection.{
  IsSelected, fill_family, fill_transport, retag, fill-IsSelected,
}

module _ {ℓ} (P : String → Type ℓ) (mode proxy_mode : String) where
  settle_mode_cases : P mode → P proxy_mode → P (settle_mode mode proxy_mode)
  unfolding settle_mode
  settle_mode_cases p q = if_elim P _ (if_elim P _ q (if_elim P _ chosen q)) chosen
    where
      chosen : P (if mode == "" then proxy_mode else mode)
      chosen = if_elim P (mode == "") q p

  -- The mode is the one given, the legacy one, or the default.
  pub choose_mode_cases : P mode → P proxy_mode → P "socks5" → P (choose_mode mode proxy_mode)
  unfolding choose_mode
  choose_mode_cases p q d = if_elim P _ d (settle_mode_cases p q)

pub choose_mode-ne-nil : (mode proxy_mode : String) → choose_mode mode proxy_mode ≢ ""
unfolding choose_mode
choose_mode-ne-nil mode proxy_mode =
    ground (arith, eq_iff (settle_mode mode proxy_mode) "", eq_iff "socks5" "")

infer_selection_lem :
    (s : Settings)
    → infer_selection s ≡ record s {
      runtime_family = fill_family s.backend s.runtime_family;
      transport = fill_transport s.backend s.transport;
    }
unfolding infer_selection fill_family fill_transport
infer_selection_lem s = ground arith

retag_backend_lem :
    (s : Settings)
    → retag_backend s ≡ record s { backend = retag s.runtime_family s.transport s.backend }
unfolding retag_backend retag
retag_backend_lem s = ground arith

-- What the selecting blocks leave: a fixed selection, a lowered mode that is not empty and stands
-- in both mode fields, and everything else as it was.
pub record Selects (s t : Settings) : Type 0 where
  pub versioned : is_zero t.schema_version ≡ false
  pub selected : IsSelected t.runtime_family t.transport t.backend
  pub log_lowered : to_lower t.log_level ≡ t.log_level
  pub mode_lowered : to_lower t.mode ≡ t.mode
  pub mode_given : t.mode ≢ ""
  pub proxied : t.proxy_mode ≡ t.mode
  pub access_kept : t.access ≡ s.access
  pub options_kept : (t.caps ≡ s.caps) × (t.dns ≡ s.dns) × (t.rotation ≡ s.rotation)

pub select_names_lem :
    (s : Settings)
    → let l = lower_names s in
      let f = fill_family l.backend l.runtime_family in
      let t = fill_transport l.backend l.transport in
      select_names s ≡ record l {
        runtime_family = f;
        transport = t;
        mode = choose_mode l.mode l.proxy_mode;
        proxy_mode = choose_mode l.mode l.proxy_mode;
        backend = retag f t l.backend;
      }
unfolding select_names resolve_mode
select_names_lem s = rw (retag_backend_lem, infer_selection_lem)

pub select_names-Selects : (s : Settings) → Selects s (select_names s)
unfolding lower_names
select_names-Selects s = rw select_names_lem (record {
  versioned = ground arith;
  selected =
      fill-IsSelected _ _ _ (to_lower_idem s.runtime_family) (to_lower_idem s.transport)
        (to_lower_idem s.backend);
  log_lowered = to_lower_idem s.log_level;
  mode_lowered =
      choose_mode_cases (λ m. to_lower m ≡ m) _ _ (to_lower_idem s.mode)
        (to_lower_idem s.proxy_mode) (unfold to_lower in refl);
  mode_given = choose_mode-ne-nil _ _;
  proxied = refl;
  access_kept = refl;
  options_kept = (refl, refl, refl);
})
