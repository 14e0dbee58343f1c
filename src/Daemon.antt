-- ===== src/Daemon.antt =====
-- cmd/daemon.go: which failed checks call for a remedy, and the attempts of `remediate`. What the
-- program's other parts answer in an attempt is a parameter.
pub mod Policy
pub mod Manager
pub mod Remedy
pub mod Cooldown
pub mod Restore
mod Tests
use cfwarp_cli.Prelude.{
  ℕ, zero, suc, Bool, true, false, not, ◌&&◌, ◌||◌, String, ◌==◌, Option, none, some, List, [], ◌∷◌,
  ℤ, pos, is_positive, pos_part, is_empty, if◌then◌else◌,
}
use cfwarp_cli.State.Settings.{CapCheck, CapsOptions, RotationOptions, Settings}

-- `caps.Result`, as far as it is read here.
pub record CheckResult : Type 0 where
  pub ok : Bool

pub record Failures : Type 0 where
  pub active_failed : Bool
  pub required_failed : Bool
  pub any_rotate : Bool

abbrev pub no_failures : Failures
no_failures = record { active_failed = false; required_failed = false; any_rotate = false }

abbrev pub count_failure : CapCheck → CheckResult → Failures → Failures
count_failure check result f = if result.ok then f else record {
  active_failed = if check.required || check.rotate_on_fail then true else f.active_failed;
  required_failed = if check.required then true else f.required_failed;
  any_rotate = if check.rotate_on_fail then true else f.any_rotate;
}

-- The loop over the checks, up to the last result.
unfoldable pub check_failures : List CapCheck → List CheckResult → Failures → Failures
check_failures [] results f = f
check_failures (check ∷ checks) [] f = f
check_failures (check ∷ checks) (result ∷ results) f =
    check_failures checks results (count_failure check result f)

unfoldable pub check_failure_policy : List CapCheck → List CheckResult → Failures
check_failure_policy checks results = check_failures checks results no_failures
