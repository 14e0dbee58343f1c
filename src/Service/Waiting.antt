-- ===== src/Service/Waiting.antt =====
-- The wait for a listener ends: the clock goes on while the program sleeps.
use Prim.Native.Nat.{◌+◌, ◌-◌, ◌≤◌}
use cfwarp_cli.Prelude.{
  ℕ, zero, suc, ◌≡◌, refl, Bool, true, false, Option, some, ℤ, pos, negsuc, ltb, arith, if_elim,
  if_cases,
}
use cfwarp_cli.State.Account.{Time}
use cfwarp_cli.Service.Host.{Host}
use cfwarp_cli.Service.Access.{half_second, wait_until, rounds, wait_for}

-- The wait has an answer.
abbrev pub Answers : {W : Type 0} → Option Bool × W → Type 0
Answers x = (b : Bool) × (x.0 ≡ some b)

module _ {W : Type 0} (host : Host W) (probe : W → Bool × W)
    (goes_on : (w : W) → (host.now w).0 ≤ (host.now (host.now w).1).0)
    (probes : (w : W) → (host.now w).0 ≤ (host.now (probe w).1).0)
    (sleeps : (d : ℕ) (w : W) → (host.now w).0 + d ≤ (host.now (host.sleep d w)).0) where
  wait_until-some :
      (n : ℕ) (end : Time) (w : W)
      → end ≤ (host.now w).0 + n
      → Answers (wait_until host (suc n) end probe w)
  unfolding wait_until
  wait_until-some zero end w h =
      if_cases Answers (ltb (host.now w).0 end) (λ e. ground (arith, e, h)) (λ _. (false, refl))
  wait_until-some (suc n) end w h =
      let w2 = (probe (host.now w).1).1 in
      let later = sleeps half_second w2 in
      if_elim Answers (ltb (host.now w).0 end)
        (if_elim Answers (probe (host.now w).1).0 (true, refl)
          (wait_until-some n end (host.sleep half_second w2)
            (omega (arith, h, goes_on w, probes (host.now w).1, later))))
        (false, refl)

  -- The wait always ends with an answer: its rounds are enough for every deadline, if sleeping for a
  -- time brings the clock forward by that time and the other calls do not turn it back.
  pub wait_for-some : (deadline : ℤ) (w : W) → Answers (wait_for host probe deadline w)
  unfolding wait_for rounds
  wait_for-some (pos d) w =
      wait_until-some (suc d) ((host.now w).0 + d) (host.now w).1 (omega (arith, goes_on w))
  wait_for-some (negsuc d) w =
      wait_until-some 1 ((host.now w).0 - suc d) (host.now w).1 (omega (arith, goes_on w))
