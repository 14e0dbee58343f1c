-- ===== src/Daemon/Cooldown.antt =====
-- The cooldown after a remedy.
use cfwarp_cli.Prelude.{
  ◌≡◌, refl, Bool, true, false, ◌⊎◌, inl, inr, ℤ, is_positive, pos, if◌then◌else◌,
}
use cfwarp_cli.State.Settings.{Settings}
use cfwarp_cli.State.Account.{AccountState}
use cfwarp_cli.State.History.{RotationNovelty}
use cfwarp_cli.Service.Registration.{read_account}
use cfwarp_cli.Service.Resolve.{ensure_rotation_account}
use cfwarp_cli.Service.Action.{Result, ok, err, Action, ⊤, Returns, after_return, ◌>>=◌}
use cfwarp_cli.Service.Host.{Host, asks}
use cfwarp_cli.Service.Access.{add_time}
use cfwarp_cli.Daemon.Manager.{Daemon, on_machine, update, set_cooldown}
use cfwarp_cli.Daemon.Remedy.{
  note_rotation, mark_account, write_last_good, recovered, mark_last_good, try_last_good,
  checks_after, restore_last_good,
}

-- The cooldown that `setCooldown` sets: none, or a duration from a reading of the clock on.
abbrev pub Cools : {W : Type 0} → Host W → ℤ → Daemon W → Type 0
Cools {W} host d s =
    ((is_positive d ≡ false) × (s.manager.cooldown_until ≡ 0))
    ⊎ ((w : W) × (s.manager.cooldown_until ≡ add_time (host.now w).0 d)
        × (s.machine.world ≡ (host.now w).1))

module _ {W : Type 0} (host : Host W) where
  pub set_cooldown-Returns :
      (d : ℤ) (s : Daemon W) → Returns (λ _ t. Cools host d t) (set_cooldown host d s)
  unfolding set_cooldown
  set_cooldown-Returns d s = go (is_positive d) refl
    where
      go :
          (b : Bool)
          → is_positive d ≡ b
          → Returns
              (λ _ t. Cools host d t)
              ((if b
                  then on_machine (asks host.now)
                    >>= (λ t. update (λ g. record g { cooldown_until = add_time t d }))
                  else update (λ g. record g { cooldown_until = 0 }))
                s)
      go true e = record { outcome = inr (s.machine.world, refl, refl) }
      go false e = record { outcome = inl (e, refl) }

  pub try_last_good-Returns :
      (b : Bool) (s : Daemon W) → Returns (λ _ _. ⊤) (try_last_good host b s)
  try_last_good-Returns false s = record { outcome = tt }
  try_last_good-Returns true s = go (restore_last_good host s).0 (restore_last_good host s).1
    where
      go : (r : Result ⊤) (t : Daemon W) → Returns (λ _ _. ⊤) (checks_after host r t)
      go (ok a) t = record { outcome = tt }
      go (err e) t = record { outcome = tt }

  note_rotation-Returns :
      (r : Result RotationNovelty) (s : Daemon W) → Returns (λ _ _. ⊤) (note_rotation host r s)
  note_rotation-Returns (ok status) s = record { outcome = tt }
  note_rotation-Returns (err e) s = record { outcome = tt }

  mark_account-Returns :
      (r : Result AccountState) (s : Daemon W) → Returns (λ _ _. ⊤) (mark_account host r s)
  unfolding write_last_good
  mark_account-Returns (err e) s = record { outcome = tt }
  mark_account-Returns (ok acc) s =
      let (noted, t) = on_machine (ensure_rotation_account host acc s.manager.settings) s in
      after_return (note_rotation host noted) (λ _. on_machine (write_last_good host acc)) t
        (note_rotation-Returns noted t) λ _ u _. record { outcome = tt }

  -- A round that goes well marks the account and lifts the cooldown: neither reports an error.
  pub recovered-Returns :
      (s : Daemon W) → Returns (λ _ t. t.manager.cooldown_until ≡ 0) (recovered host s)
  unfolding mark_last_good set_cooldown
  recovered-Returns s =
      after_return (mark_last_good host) (λ _. set_cooldown host (pos 0)) s
        (mark_account-Returns (read_account host s.machine).0 (on_machine (read_account host) s).1)
        λ _ u _. record { outcome = refl }
