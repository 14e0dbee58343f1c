-- ===== src/Daemon/Policy.antt =====
-- What `checkFailurePolicy` says of the checks and their results.
use cfwarp_cli.Prelude.{◌≡◌, refl, Bool, false, not, ◌&&◌, ◌||◌, List, [], ◌∷◌, arith}
use cfwarp_cli.State.Settings.{CapCheck}
use cfwarp_cli.Daemon.{
  CheckResult, Failures, no_failures, count_failure, check_failures, check_failure_policy,
}

-- Whether a check that failed is of a kind.
unfoldable pub any_failed : (CapCheck → Bool) → List CapCheck → List CheckResult → Bool
any_failed kind [] results = false
any_failed kind (check ∷ checks) [] = false
any_failed kind (check ∷ checks) (result ∷ results) =
    (not result.ok && kind check) || any_failed kind checks results

abbrev failures_of : List CapCheck → List CheckResult → Failures → Failures
failures_of checks results f = record {
  active_failed =
      any_failed (λ c. c.required || c.rotate_on_fail) checks results || f.active_failed;
  required_failed = any_failed (λ c. c.required) checks results || f.required_failed;
  any_rotate = any_failed (λ c. c.rotate_on_fail) checks results || f.any_rotate;
}

check_failures_lem :
    (checks : List CapCheck) (results : List CheckResult) (f : Failures)
    → check_failures checks results f ≡ failures_of checks results f
unfolding check_failures any_failed
check_failures_lem [] results f = refl
check_failures_lem (check ∷ checks) [] f = refl
check_failures_lem (check ∷ checks) (result ∷ results) f =
    ground (arith, check_failures_lem checks results (count_failure check result f))

any_failed_or :
    (checks : List CapCheck) (results : List CheckResult)
    → any_failed (λ c. c.required || c.rotate_on_fail) checks results
      ≡ any_failed (λ c. c.required) checks results
        || any_failed (λ c. c.rotate_on_fail) checks results
unfolding any_failed
any_failed_or [] results = refl
any_failed_or (check ∷ checks) [] = refl
any_failed_or (check ∷ checks) (result ∷ results) = ground (arith, any_failed_or checks results)

-- The policy reports whether a required check failed and whether one that rotates did, over the
-- checks that have a result; the failure is active exactly if one of the two holds.
pub check_failure_policy_lem :
    (checks : List CapCheck) (results : List CheckResult)
    → let p = check_failure_policy checks results in
      (p.required_failed ≡ any_failed (λ c. c.required) checks results)
      × (p.any_rotate ≡ any_failed (λ c. c.rotate_on_fail) checks results)
      × (p.active_failed ≡ p.required_failed || p.any_rotate)
unfolding check_failure_policy
check_failure_policy_lem checks results =
    ground (arith, check_failures_lem checks results no_failures, any_failed_or checks results)
