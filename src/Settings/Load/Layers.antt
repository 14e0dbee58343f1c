-- ===== src/Settings/Load/Layers.antt =====
-- Which source of settings wins.
use mathlib.Core.Path.{subst}
use cfwarp_cli.Prelude.{
  ◌≡◌, refl, ap, ◌∙◌, ◌⊎◌, inl, inr, Bool, true, false, Bool-cases, if_elim, String, ◌==◌, Option,
  none, some, arith, is_zero, to_lower, to_lower_idem, tidy,
}
use cfwarp_cli.State.Settings.{Settings}
use cfwarp_cli.State.Settings.Normalize.{normalize}
use cfwarp_cli.Settings.Validate.{Error}
use cfwarp_cli.Settings.Validate.Spec.{IsValid}
use cfwarp_cli.Settings.Validate.Valid.{validate_iff}
use cfwarp_cli.Settings.Load.Env.{given, or_given, lowered}
use cfwarp_cli.Settings.Load.{
  Overrides, apply_persisted, apply_names, legacy_access_touched, sync_primary_access_from_legacy,
  apply_env, apply_overrides, Read, found, not_found, broken, Loaded, loaded, settings_file,
  checked, overlay_file, finish, load_file, load,
}
use cfwarp_cli.Settings.Load.Synced.{normalize-kept, normalize-synced, tidy-to_lower}

-- What holds of a value that is given.
abbrev pub IfGiven {ℓ κ} : {A : Type ℓ} → (A → Type κ) → Option A → Type κ
IfGiven P none = Unit
IfGiven P (some v) = P v

-- The settings show the flags: a text that is empty once tidied, and a port 0, leave the layer below.
pub record ShowsFlags (o : Overrides) (t : Settings) : Type 0 where
  pub moded : IfGiven (λ m. (tidy m ≡ "") ⊎ (t.mode ≡ tidy m)) o.mode
  pub hosted : IfGiven (λ h. (h ≡ "") ⊎ (t.listen_host ≡ h)) o.listen_host
  pub ported : IfGiven (λ p. (is_zero p ≡ true) ⊎ (t.listen_port ≡ p)) o.listen_port
  pub named : IfGiven (λ u. (u ≡ "") ⊎ (t.proxy_username ≡ u)) o.proxy_username
  pub guarded : IfGiven (λ p. (p ≡ "") ⊎ (t.proxy_password ≡ p)) o.proxy_password
  pub overridden : IfGiven (λ e. t.endpoint_override ≡ e) o.endpoint_override
  pub logged : IfGiven (λ l. t.log_level ≡ to_lower l) o.log_level

if_given {ℓ κ} :
    {A : Type ℓ} (P : A → Type κ) (v : Option A) (kept : A) → P (or_given v kept) → IfGiven P v
if_given P none kept h = tt
if_given P (some v) kept h = h

if_not_given {ℓ κ} : {A : Type ℓ} (P : A → Type κ) (v : Option A) → given v ≡ false → IfGiven P v
if_not_given P none h = tt
if_not_given P (some v) h = ground (arith, h)

if_mode_given :
    (x : String) (v : Option String) (kept : String)
    → (tidy (or_given (lowered v) kept) ≡ "") ⊎ (x ≡ tidy (or_given (lowered v) kept))
    → IfGiven (λ m. (tidy m ≡ "") ⊎ (x ≡ tidy m)) v
if_mode_given x none kept h = tt
if_mode_given x (some m) kept h = subst (λ z. (z ≡ "") ⊎ (x ≡ z)) (tidy-to_lower m) h

if_log_given :
    (x : String) (v : Option String) (kept : String)
    → x ≡ to_lower (or_given (lowered v) kept)
    → IfGiven (λ l. x ≡ to_lower l) v
if_log_given x none kept h = tt
if_log_given x (some l) kept h = h ∙ to_lower_idem l

-- A flag of the listener that is given makes the primary listener follow.
module _ (o : Overrides) (s : Settings) where
  abbrev named : Settings
  named = apply_names o s

  overridden-shows :
      (t : Settings)
      → t.endpoint_override ≡ named.endpoint_override
      → IfGiven (λ e. t.endpoint_override ≡ e) o.endpoint_override
  unfolding apply_names
  overridden-shows t e =
      if_given (λ x. t.endpoint_override ≡ x) o.endpoint_override s.endpoint_override e

  logged-shows :
      (t : Settings)
      → t.log_level ≡ to_lower named.log_level
      → IfGiven (λ l. t.log_level ≡ to_lower l) o.log_level
  unfolding apply_names
  logged-shows t e = if_log_given t.log_level o.log_level s.log_level e

  synced-ShowsFlags : ShowsFlags o (normalize (sync_primary_access_from_legacy named))
  unfolding apply_names sync_primary_access_from_legacy
  synced-ShowsFlags =
      let k = normalize-kept (sync_primary_access_from_legacy named) in
      let n = normalize-synced named in
      let t = normalize (sync_primary_access_from_legacy named) in
      record {
        moded = if_mode_given t.mode o.mode (or_given (lowered o.proxy_mode) s.mode) n.0;
        hosted = if_given _ o.listen_host s.listen_host n.1;
        ported = if_given _ o.listen_port s.listen_port n.2;
        named = if_given _ o.proxy_username s.proxy_username n.3;
        guarded = if_given _ o.proxy_password s.proxy_password n.4;
        overridden = overridden-shows t k.1;
        logged = logged-shows t k.0;
      }

  named-ShowsFlags : legacy_access_touched o ≡ false → ShowsFlags o (normalize named)
  unfolding legacy_access_touched
  named-ShowsFlags e = record {
    moded = if_not_given _ o.mode (ground (arith, e));
    hosted = if_not_given _ o.listen_host (ground (arith, e));
    ported = if_not_given _ o.listen_port (ground (arith, e));
    named = if_not_given _ o.proxy_username (ground (arith, e));
    guarded = if_not_given _ o.proxy_password (ground (arith, e));
    overridden = overridden-shows (normalize named) (normalize-kept named).1;
    logged = logged-shows (normalize named) (normalize-kept named).0;
  }

  apply_overrides-ShowsFlags : ShowsFlags o (normalize (apply_overrides o s))
  unfolding apply_overrides
  apply_overrides-ShowsFlags = elim (Bool-cases (legacy_access_touched o)) [
    | inl e ↦ rw e synced-ShowsFlags
    | inr e ↦ rw e (named-ShowsFlags e)
  ]

loaded_settings : Settings → Loaded → Settings
loaded_settings kept (loaded t) = t
loaded_settings kept _ = kept

is_loaded : Loaded → Bool
is_loaded (loaded t) = true
is_loaded _ = false

checked_cases : (s t : Settings) (v : Option Error) → checked s v ≡ loaded t → (v ≡ none) × (s ≡ t)
unfolding loaded_settings is_loaded
checked_cases s t none e = (refl, ap (loaded_settings s) e)
checked_cases s t (some f) e = ground (arith, ap is_loaded e)

absurd_load {ℓ} : {A : Type ℓ} → false ≡ true → A
absurd_load e = ground (arith, e)

-- What settings that are returned have gone through.
abbrev Accepted : Overrides → Settings → Type 0
Accepted o t = ShowsFlags o t × IsValid (normalize t)

finish-Accepted :
    (getenv : String → String) (o : Overrides) (s t : Settings)
    → finish getenv o s ≡ loaded t
    → Accepted o t
unfolding finish
finish-Accepted getenv o s t e =
    let u = apply_env getenv s in
    let (passed, same) = checked_cases (normalize (apply_overrides o u)) t _ e in
    subst (Accepted o) same
      (apply_overrides-ShowsFlags o u, (validate_iff (normalize (apply_overrides o u))).0 passed)

overlay_file-Accepted :
    (getenv : String → String) (o : Overrides) (s t : Settings) (r : Read)
    → overlay_file getenv o s r ≡ loaded t
    → Accepted o t
unfolding is_loaded
overlay_file-Accepted getenv o s t (found p) e = finish-Accepted getenv o (apply_persisted s p) t e
overlay_file-Accepted getenv o s t not_found e = absurd_load (ap is_loaded e)
overlay_file-Accepted getenv o s t broken e = absurd_load (ap is_loaded e)

load_file-Accepted :
    (read : String → Read) (getenv : String → String) (o : Overrides) (s t : Settings)
    → load_file read getenv o s ≡ loaded t
    → Accepted o t
unfolding load_file
load_file-Accepted read getenv o s t =
    if_elim (λ r. r ≡ loaded t → Accepted o t) (settings_file getenv o == "")
      (finish-Accepted getenv o s t)
      (overlay_file-Accepted getenv o s t (read (settings_file getenv o)))

-- Settings that `Load` returns show the flags for the mode, the listener's host, port, user and
-- password, the endpoint and the log level, over the environment and the files, where a flag for the
-- mode is blank, one for a text of the listener empty or one for the port 0, the field is free; and
-- they are valid once normalised.
pub load-Accepted :
    (persisted : Read) (read : String → Read) (getenv : String → String) (o : Overrides)
    (t : Settings)
    → load persisted read getenv o ≡ loaded t
    → ShowsFlags o t × IsValid (normalize t)
unfolding load is_loaded
load-Accepted (found p) read getenv o t e = load_file-Accepted read getenv o _ t e
load-Accepted not_found read getenv o t e = load_file-Accepted read getenv o _ t e
load-Accepted broken read getenv o t e = absurd_load (ap is_loaded e)
