-- ===== src/State/Settings/Normal/Options.antt =====
-- Each block of options is normalised once and for all.
use mathlib.Core.Option as Opt
use cfwarp_cli.Prelude.{
  ◌≡◌, refl, ap, ap₂, eq_iff, Option, none, some, List, [], ◌∷◌, map, arith, tidy, tidy_idem,
}
use cfwarp_cli.State.Settings.{CapCheck, CapsOptions, DnsOptions, RotationOptions, AccessConfig}
use cfwarp_cli.State.Settings.Normalize.{
  normalize_check, normalize_caps, normalize_dns, normalize_rotation, normalize_access,
}

module _ {ℓ} {A : Type ℓ} (f : A → A) (f_idem : (a : A) → f (f a) ≡ f a) where
  pub map_idem : (xs : List A) → map f (map f xs) ≡ map f xs
  map_idem [] = refl
  map_idem (x ∷ xs) = ap₂ ◌∷◌ (f_idem x) (map_idem xs)

  pub Option-map_idem : (o : Option A) → Opt.map f (Opt.map f o) ≡ Opt.map f o
  Option-map_idem none = refl
  Option-map_idem (some a) = ap some (f_idem a)

normalize_check_idem : (c : CapCheck) → normalize_check (normalize_check c) ≡ normalize_check c
unfolding normalize_check
normalize_check_idem c = ground (arith, tidy_idem c.probe)

pub normalize_caps_idem : (c : CapsOptions) → normalize_caps (normalize_caps c) ≡ normalize_caps c
unfolding normalize_caps
normalize_caps_idem c = ground (arith, map_idem normalize_check normalize_check_idem c.checks)

pub normalize_dns_idem : (d : DnsOptions) → normalize_dns (normalize_dns d) ≡ normalize_dns d
unfolding normalize_dns
normalize_dns_idem d = ground (
  arith,
  tidy_idem d.mode,
  tidy_idem d.strategy,
  eq_iff (tidy d.mode) "https",
  eq_iff (tidy d.mode) "udp",
)

tidy-either : tidy "either" ≡ "either"
unfolding tidy
tidy-either = refl

pub normalize_rotation_idem :
    (r : RotationOptions) → normalize_rotation (normalize_rotation r) ≡ normalize_rotation r
unfolding normalize_rotation
normalize_rotation_idem r =
    ground (arith, tidy_idem r.distinctness, eq_iff (tidy r.distinctness) "", tidy-either)

pub normalize_access_idem :
    (a : AccessConfig) → normalize_access (normalize_access a) ≡ normalize_access a
unfolding normalize_access
normalize_access_idem a = ground (arith, tidy_idem a.type)
