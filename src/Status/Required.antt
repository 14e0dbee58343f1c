-- ===== src/Status/Required.antt =====
-- The requirements of `status`, in cmd/status.go.
use cfwarp_cli.Prelude.{◌≡◌, ◌↔◌, ◌⊎◌, refl, Bool, true, false, Option, none, some, arith}
use cfwarp_cli.Status.{StatusReport, Flags, require_verified, require_status}

-- A requirement that is not made, or is met.
abbrev pub IsMet : Bool → Bool → Type 0
IsMet required met = (required ≡ false) ⊎ (met ≡ true)

pub record Meets (flags : Flags) (r : StatusReport) : Type 0 where
  pub account : IsMet flags.require_account r.account_configured
  pub running : IsMet flags.require_running r.backend_running
  pub reachable : IsMet flags.require_reachable r.local_reachable
  pub verified : (flags.require_warp ≡ false) ⊎ (r.warp_verified ≡ some true)

verified_iff :
    (r : StatusReport) (v : Option Bool) → (require_verified r v ≡ none) ↔ (v ≡ some true)
verified_iff r none = (λ h. cc, λ h. cc)
verified_iff r (some true) = (λ h. refl, λ h. refl)
verified_iff r (some false) = (λ h. cc, λ h. cc)

-- The command ends without an error exactly when every requirement of its flags is met by the report:
-- an account, a running backend, a reachable listener, and a trace that was taken and showed WARP.
pub require_status_iff :
    (flags : Flags) (r : StatusReport) → (require_status flags r ≡ none) ↔ Meets flags r
unfolding require_status
require_status_iff flags r = (
  λ h. record {
    account = ground arith;
    running = ground arith;
    reachable = ground arith;
    verified = ground (arith, (verified_iff r r.warp_verified).0);
  },
  λ m.
      ground
        (arith, m.account, m.running, m.reachable, m.verified, (verified_iff r r.warp_verified).1),
)
