-- ===== src/Daemon/Restore.antt =====
-- The account after a remedy that fails.
use cfwarp_cli.Prelude.{
  ℕ, zero, suc, ℤ, is_positive, ◌≡◌, refl, ap, ◌∙◌, arith, is_empty, if◌then◌else◌, Bool, true,
  false, not, ◌||◌, ◌==◌, List, [], ◌∷◌,
}
use cfwarp_cli.State.Account as Account
use cfwarp_cli.State.Account.{AccountState, AccountStateJson}
use cfwarp_cli.State.Settings.{Settings, CapCheck, transport_masque}
use cfwarp_cli.State.Store.{Content, holds, found, load_last_good_account, load_account, read_json}
use cfwarp_cli.State.Store.Laws.{account_read_back}
use cfwarp_cli.Daemon.{CheckResult, check_failure_policy}
use cfwarp_cli.Service.Action.{
  Error, remediation_failed, not_new, not_reachable, still_failing, Result, ok, err, Action, ⊤,
  Ends, Returns, after_return, >>=-Ends, map-Ends, raise, ◌>>=◌, ◌>>◌, pure, of_result,
  raise_unless,
}
use cfwarp_cli.Service.Host.{Files, Machine, Host, asks}
use cfwarp_cli.Service.Access.{add_time, wait_for_primary_access}
use cfwarp_cli.Service.Resolve.{resolve_settings, remember_rotation_account}
use cfwarp_cli.Service.Registration.{read_account, write_account, register_account}
use cfwarp_cli.Service.Backend.{start_backend_runtime, stop_backend_runtime}
use cfwarp_cli.Service.Frame.{with_account, write_account-Returns}
use cfwarp_cli.Service.Running.{RuntimeOnly, stop_backend_runtime-Ends}
use cfwarp_cli.Service.Starting.{
  Always, register_account-Around, start_backend_runtime-Around, start_backend_runtime-Always,
}
use cfwarp_cli.Daemon.Manager.{
  Daemon, on_machine, update, set_rotation, set_error, set_cooldown, set_results, refresh_settings,
  checks_of, run_probes, run_checks,
}
use cfwarp_cli.Daemon.Remedy.{
  Plan, plan_of, start_again, rotation_enrolls, rotate_once, settled, round, recovered, after_round,
  attempt_rounds, restore_last_good, checks_after, try_last_good, give_up, remedy,
}
use cfwarp_cli.Daemon.Cooldown.{recovered-Returns}

-- A call of the daemon that ends with `I` of the files, with an error or not.
abbrev pub AlwaysFiles : {W A : Type 0} → (Files → Type 0) → Result A × Daemon W → Type 0
AlwaysFiles I = Ends (λ _ d. I d.machine.files) (λ d. I d.machine.files)

-- The file of the last good account holds this.
abbrev Holds : Content AccountStateJson → Files → Type 0
Holds c f = f.last_good ≡ c

module _ {W A : Type 0} (I : Files → Type 0) where
  on_machine-Always :
      (f : Action (Machine W) A) (d : Daemon W)
      → Always I (f d.machine)
      → AlwaysFiles I (on_machine f d)
  on_machine-Always f d h = go (f d.machine) h
    where
      go : (x : Result A × Machine W) → Always I x → AlwaysFiles I (x.0, record d { machine = x.1 })
      go (ok a, m) h = record { outcome = h.outcome }
      go (err e, m) h = record { outcome = h.outcome }

  on_machine-Returns :
      (f : Action (Machine W) A) (d : Daemon W)
      → Returns (λ _ m. I m.files) (f d.machine)
      → Returns (λ _ d'. I d'.machine.files) (on_machine f d)
  on_machine-Returns f d h = go (f d.machine) h
    where
      go :
          (x : Result A × Machine W)
          → Returns (λ _ m. I m.files) x
          → Returns (λ _ (d' : Daemon W). I d'.machine.files) (x.0, record d { machine = x.1 })
      go (ok a, m) h = record { outcome = h.outcome }
      go (err e, m) h = record { outcome = h.outcome }

  answered : (r : Result A) (m : Machine W) → I m.files → Always I (r, m)
  answered (ok a) m h = record { outcome = h }
  answered (err e) m h = record { outcome = h }

  of_result-Always :
      (r : Result A) (d : Daemon W) → I d.machine.files → AlwaysFiles I (of_result r d)
  of_result-Always (ok a) d h = record { outcome = h }
  of_result-Always (err e) d h = record { outcome = h }

module _ {W : Type 0} (host : Host W) (I : Files → Type 0) where
  refresh_settings-Always :
      (d : Daemon W) → I d.machine.files → AlwaysFiles I (refresh_settings host d)
  unfolding refresh_settings resolve_settings
  refresh_settings-Always d h = record { outcome = ground (arith, h) }

  run_probes-Always :
      (sett : Settings) (checks : List CapCheck) (d : Daemon W)
      → I d.machine.files
      → AlwaysFiles I (run_probes host sett checks d)
  unfolding set_results
  run_probes-Always sett [] d h = record { outcome = h }
  run_probes-Always sett (check ∷ rest) d h = record { outcome = ground (arith, h) }

  run_checks-Always : (d : Daemon W) → I d.machine.files → AlwaysFiles I (run_checks host d)
  unfolding run_checks
  run_checks-Always d h =
      >>=-Ends (refresh_settings host) _ d (refresh_settings-Always d h)
        λ sett d1 h1. run_probes-Always sett (checks_of host sett) d1 h1

  checks_after-Always :
      (x : Result ⊤ × Daemon W) → AlwaysFiles I x → AlwaysFiles I (checks_after host x.0 x.1)
  checks_after-Always (ok a, d) h = checked (run_checks host d) (run_checks-Always d h.outcome)
    where
      checked :
          (x : Result (List CheckResult) × Daemon W) → AlwaysFiles I x → AlwaysFiles I (ok tt, x.1)
      checked (ok results, d) h = record { outcome = h.outcome }
      checked (err e, d) h = record { outcome = h.outcome }
  checks_after-Always (err e, d) h = record { outcome = h.outcome }

  set_cooldown-Always :
      (t : ℤ) (d : Daemon W) → I d.machine.files → AlwaysFiles I (set_cooldown host t d)
  unfolding set_cooldown
  set_cooldown-Always t d h = go (is_positive t)
    where
      go :
          (b : Bool)
          → AlwaysFiles I (
              (if b
                  then on_machine (asks host.now)
                    >>= (λ now. update (λ g. record g { cooldown_until = add_time now t }))
                  else update (λ g. record g { cooldown_until = 0 }))
                d)
      go true = record { outcome = h }
      go false = record { outcome = h }

  raise_unless-Always :
      (e : Error) (b : Bool) (d : Daemon W) → I d.machine.files → AlwaysFiles I (raise_unless e b d)
  raise_unless-Always e true d h = record { outcome = h }
  raise_unless-Always e false d h = record { outcome = h }

  settled-Always :
      (sett : Settings) (plan : Plan) (d : Daemon W)
      → I d.machine.files
      → AlwaysFiles I (settled host sett plan d)
  unfolding settled
  settled-Always sett plan d h =
      >>=-Ends (on_machine (asks (wait_for_primary_access host sett plan.settle))) _ d
        (on_machine-Always I (asks (wait_for_primary_access host sett plan.settle)) d
          (record { outcome = h }))
        λ reached d1 h1.
          >>=-Ends (raise_unless (not_reachable plan.settle) reached) _ d1
            (raise_unless-Always (not_reachable plan.settle) reached d1 h1)
            λ _ d2 h2. go (is_empty (checks_of host sett)) d2 h2
    where
      failing : List CheckResult → Bool
      failing results = not (check_failure_policy (checks_of host sett) results).active_failed

      go :
          (b : Bool) (d : Daemon W)
          → I d.machine.files
          → AlwaysFiles I (
              (if b
                  then pure tt
                  else (run_checks host >>= λ results.
                      raise_unless still_failing (failing results)))
                d)
      go true d h = record { outcome = h }
      go false d h =
          >>=-Ends (run_checks host) (λ results. raise_unless still_failing (failing results)) d
            (run_checks-Always d h)
            λ results d1 h1. raise_unless-Always still_failing (failing results) d1 h1

module _ {W : Type 0} (host : Host W) (c : Content AccountStateJson) where
  stopped :
      (d : Daemon W)
      → Holds c d.machine.files
      → Always (Holds c) (stop_backend_runtime host d.machine)
  stopped d h =
      map-Ends (stop_backend_runtime host d.machine) (λ _ _ e. ap (λ f. f.last_good) e ∙ h)
        (λ _ e. ap (λ f. f.last_good) e.1 ∙ h) (stop_backend_runtime-Ends host d.machine)

  registered :
      (masque : Bool) (d : Daemon W)
      → Holds c d.machine.files
      → Always (Holds c) (register_account host true masque d.machine)
  registered masque d h =
      map-Ends (register_account host true masque d.machine) (λ _ _ e. e.0 ∙ h) (λ _ e. e.0 ∙ h)
        (register_account-Around host d.machine.files true masque d.machine (refl, refl))

  read : (d : Daemon W) → Holds c d.machine.files → Always (Holds c) (read_account host d.machine)
  unfolding read_account
  read d h = answered (Holds c) _ d.machine h

  remembered :
      (acc : AccountState) (sett : Settings) (d : Daemon W)
      → Holds c d.machine.files
      → Always (Holds c) (remember_rotation_account host acc sett d.machine)
  unfolding remember_rotation_account
  remembered acc sett d h = answered (Holds c) _ _ h

  started :
      (sett : Settings) (d : Daemon W)
      → Holds c d.machine.files
      → AlwaysFiles (Holds c) (start_again host sett d)
  started sett d h =
      >>=-Ends (on_machine (start_backend_runtime host sett false)) (λ _. pure tt) d
        (on_machine-Always (Holds c) (start_backend_runtime host sett false) d (
          map-Ends (start_backend_runtime host sett false d.machine) (λ _ _ e. e.0 ∙ h)
            (λ _ e. e.0 ∙ h)
            (start_backend_runtime-Around host d.machine.files sett false d.machine (refl, refl))))
        λ _ d1 h1. record { outcome = h1 }

  rotate_once-Always :
      (d : Daemon W) → Holds c d.machine.files → AlwaysFiles (Holds c) (rotate_once host d)
  unfolding rotate_once
  rotate_once-Always d h =
      >>=-Ends (refresh_settings host) _ d (refresh_settings-Always host (Holds c) d h)
        λ sett d1 h1.
          >>=-Ends (on_machine (stop_backend_runtime host)) _ d1
            (on_machine-Always (Holds c) (stop_backend_runtime host) d1 (stopped d1 h1))
            λ _ d2 h2.
              let masque = sett.transport == transport_masque || rotation_enrolls sett.rotation in
              >>=-Ends (on_machine (register_account host true masque)) _ d2
                (on_machine-Always (Holds c) (register_account host true masque) d2
                  (registered masque d2 h2))
                λ _ d3 h3.
                  >>=-Ends (on_machine (read_account host)) _ d3
                    (on_machine-Always (Holds c) (read_account host) d3 (read d3 h3))
                    λ acc d4 h4.
                      >>=-Ends (on_machine (remember_rotation_account host acc sett)) _ d4
                        (on_machine-Always (Holds c) (remember_rotation_account host acc sett) d4
                          (remembered acc sett d4 h4))
                        λ status d5 h5.
                          >>=-Ends (raise_unless (not_new status.distinctness) status.qualifies) _
                            (set_rotation status d5).1
                            (raise_unless-Always host (Holds c) (not_new status.distinctness)
                              status.qualifies _ h5)
                            λ _ d6 h6. started sett d6 h6

  round-Always :
      (sett : Settings) (plan : Plan) (d : Daemon W)
      → Holds c d.machine.files
      → AlwaysFiles (Holds c) (round host sett plan d)
  unfolding round
  round-Always sett plan d h =
      >>=-Ends (rotate_once host) (λ _. settled host sett plan) d (rotate_once-Always d h)
        λ _ d1 h1. settled-Always host (Holds c) sett plan d1 h1

  after_round-Always :
      (again : Error → Action (Daemon W) ⊤) (x : Result ⊤ × Daemon W)
      → AlwaysFiles (Holds c) x
      → ((e : Error) (u : Daemon W)
          → Holds c u.machine.files
          → Ends (λ _ _. ⊤) (λ d. Holds c d.machine.files) (again e u))
      → Ends (λ _ _. ⊤) (λ d. Holds c d.machine.files) (after_round host again x.0 x.1)
  unfolding set_error
  after_round-Always again (ok a, t) h k =
      map-Ends (recovered host t) (λ _ _ _. tt) (λ _ x. absurd x) (recovered-Returns host t)
  after_round-Always again (err e, t) h k = k e _ h.outcome

  attempt_rounds-Always :
      (n : ℕ) (sett : Settings) (plan : Plan) (last : Error) (d : Daemon W)
      → Holds c d.machine.files
      → Ends (λ _ _. ⊤) (λ d'. Holds c d'.machine.files) (attempt_rounds host n sett plan last d)
  unfolding attempt_rounds
  attempt_rounds-Always zero sett plan last d h = record { outcome = h }
  attempt_rounds-Always (suc n) sett plan last d h =
      after_round-Always (attempt_rounds host n sett plan) (round host sett plan d)
        (round-Always sett plan d h) (λ e t. attempt_rounds-Always n sett plan e t)

module _ {W : Type 0} (host : Host W) (writes : (w : W) → (host.writes w).0 ≡ true)
    (acc : AccountState) (c : Content AccountStateJson) where
  -- The account's file holds the last good account, whose own file is as before.
  abbrev pub Restored : Files → Type 0
  Restored f = (f.account ≡ holds (Account.marshal (Account.normalize acc))) × (f.last_good ≡ c)

  Restored-RuntimeOnly : (f g : Files) → Restored f → RuntimeOnly f g → Restored g
  Restored-RuntimeOnly f g (a, b) (x, e) = (ap (λ f. f.account) e ∙ a, ap (λ f. f.last_good) e ∙ b)

  read_back :
      load_account (holds (Account.marshal (Account.normalize acc))) ≡ found (Account.normalize acc)
  unfolding load_account read_json
  read_back = ap found (account_read_back acc)

  start_again-Restored :
      (sett : Settings) (d : Daemon W)
      → Restored d.machine.files
      → AlwaysFiles Restored (start_again host sett d)
  start_again-Restored sett d h =
      >>=-Ends (on_machine (start_backend_runtime host sett false)) (λ _. pure tt) d
        (on_machine-Always Restored (start_backend_runtime host sett false) d (
          map-Ends (start_backend_runtime host sett false d.machine)
            (λ _ _ e. Restored-RuntimeOnly d.machine.files _ h e)
            (λ _ e. Restored-RuntimeOnly d.machine.files _ h e)
            (start_backend_runtime-Always host sett false (Account.normalize acc) d.machine
              (ap load_account h.0 ∙ read_back))))
        λ _ d1 h1. record { outcome = h1 }

  stop-Restored : (m : Machine W) → Restored m.files → Always Restored (stop_backend_runtime host m)
  stop-Restored m h =
      map-Ends (stop_backend_runtime host m) (λ _ _ e. Restored-RuntimeOnly m.files _ h (_, e))
        (λ _ e. Restored-RuntimeOnly m.files _ h e) (stop_backend_runtime-Ends host m)

  restore_last_good-Restored :
      (d : Daemon W)
      → load_last_good_account c ≡ found acc
      → d.machine.files.last_good ≡ c
      → AlwaysFiles Restored (restore_last_good host d)
  unfolding restore_last_good
  restore_last_good-Restored d e h = rw (ap load_last_good_account h ∙ e) (
      after_return (on_machine (write_account host true acc)) _ d
        (on_machine-Returns (λ f. f ≡ with_account acc d.machine.files)
          (write_account host true acc) d (write_account-Returns host acc d.machine writes))
        λ _ d1 k.
          >>=-Ends (on_machine (stop_backend_runtime host)) _ d1
            (on_machine-Always Restored (stop_backend_runtime host) d1
              (stop-Restored d1.machine (ap (λ f. f.account) k, ap (λ f. f.last_good) k ∙ h)))
            λ _ d2 h2.
              >>=-Ends (refresh_settings host) (start_again host) d2
                (refresh_settings-Always host Restored d2 h2)
                λ sett d3 h3. start_again-Restored sett d3 h3)

  tried :
      (d : Daemon W)
      → load_last_good_account c ≡ found acc
      → d.machine.files.last_good ≡ c
      → AlwaysFiles Restored (try_last_good host true d)
  tried d e h =
      checks_after-Always host Restored (restore_last_good host d)
        (restore_last_good-Restored d e h)

  give_up-Restored :
      (plan : Plan) (r : Result ⊤) (d : Daemon W)
      → load_last_good_account c ≡ found acc
      → plan.restore_last_good ≡ true
      → Ends (λ _ _. ⊤) (λ d'. d'.machine.files.last_good ≡ c) (r, d)
      → Ends (λ _ _. ⊤) (λ d'. Restored d'.machine.files) (give_up host plan r d)
  give_up-Restored plan (ok a) d e b h = record { outcome = tt }
  give_up-Restored plan (err reason) d e b h = rw b (
      >>=-Ends (try_last_good host true) (λ _. set_cooldown host plan.cooldown >> raise reason) d
        (tried d e h.outcome)
        λ _ d1 h1.
          >>=-Ends (set_cooldown host plan.cooldown) (λ _. raise reason) d1
            (set_cooldown-Always host Restored plan.cooldown d1 h1)
            λ _ d2 h2. record { outcome = h2 })

  -- A remedy that fails and is to restore the last good account leaves that account, normalized, in
  -- the account's file, and its own file as it was, when every write goes through.
  pub remedy-Restored :
      (sett : Settings) (d : Daemon W)
      → load_last_good_account c ≡ found acc
      → d.machine.files.last_good ≡ c
      → (plan_of sett.rotation).restore_last_good ≡ true
      → Ends (λ _ _. ⊤) (λ d'. Restored d'.machine.files) (remedy host sett d)
  unfolding remedy
  remedy-Restored sett d e h b =
      let plan = plan_of sett.rotation in
      let x = attempt_rounds host plan.attempts sett plan remediation_failed d in
      give_up-Restored plan x.0 x.1 e b
        (attempt_rounds-Always host c plan.attempts sett plan remediation_failed d h)
