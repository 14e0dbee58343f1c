-- ===== src/Status/Connected.antt =====
-- The phase that `status` of cmd/status.go reports of a backend that runs and can be reached.
use cfwarp_cli.Prelude.{◌≡◌, ◌⊎◌, inl, inr, refl, Bool, true, false, ◌||◌, none, if_elim}
use cfwarp_cli.State.Account.{AccountState}
use cfwarp_cli.State.Settings.{Settings}
use cfwarp_cli.State.Runtime.{RuntimeState}
use cfwarp_cli.State.Store.{Loading, found, missing, unreadable}
use cfwarp_cli.Orchestrator.{RuntimeInfo, derive_phase}
use cfwarp_cli.Service.Action.{Result, ok, err}
use cfwarp_cli.Service.Backend.{runtime_info}
use cfwarp_cli.Status.{
  StatusReport, BackendStatus, Flags, Answers, no_report, is_found, with_runtime, with_listener,
  with_status, ask_backend, with_backend, traced, with_trace, report, require_status,
}
use cfwarp_cli.Status.Required.{require_status_iff}

-- A backend that runs and can be reached is shown as connected.
abbrev Fits : StatusReport → Type 0
Fits r = r.backend_running ≡ true → r.local_reachable ≡ true → r.phase ≡ "connected"

derive_phase-connected :
    (rt : RuntimeState) (running reachable : Bool)
    → running ≡ true
    → reachable ≡ true
    → derive_phase rt running reachable ≡ "connected"
unfolding derive_phase
derive_phase-connected rt true true p q = refl
derive_phase-connected rt true false p q = cc
derive_phase-connected rt false reachable p q = cc

module _ (ans : Answers) where
  with_status-Fits :
      (rt : RuntimeState) (s : Result BackendStatus) (r : StatusReport)
      → r.backend_running ≡ false
      → Fits (with_status ans rt s r)
  unfolding with_status
  with_status-Fits rt (err e) r h p q = cc (h, p)
  with_status-Fits rt (ok st) r h p q = derive_phase-connected rt st.running st.local_reachable p q

  ask_backend-Fits :
      (rt : RuntimeState) (sett : Settings)
      (b : Result (RuntimeInfo → Settings → Result BackendStatus)) (r : StatusReport)
      → r.backend_running ≡ false
      → Fits (ask_backend ans rt sett b r)
  ask_backend-Fits rt sett (err e) r h p q = cc (h, p)
  ask_backend-Fits rt sett (ok status) r h p q =
      with_status-Fits rt (status (runtime_info rt) sett) r h p q

  with_backend-Fits :
      (rt : Loading RuntimeState) (sett : Result Settings) (r : StatusReport)
      → r.backend_running ≡ false
      → r.local_reachable ≡ false
      → Fits (with_backend ans rt sett (with_listener ans sett r))
  unfolding with_backend with_listener
  with_backend-Fits missing (ok s) r h k p q = cc (h, p)
  with_backend-Fits missing (err e) r h k p q = cc (h, p)
  with_backend-Fits unreadable (ok s) r h k p q = cc (h, p)
  with_backend-Fits unreadable (err e) r h k p q = cc (h, p)
  with_backend-Fits (found rt) (err e) r h k p q = cc (k, q)
  with_backend-Fits (found rt) (ok s) r h k p q =
      ask_backend-Fits rt s (ans.backend rt.backend) _ h p q

  traced-Fits :
      (json : Bool) (t : Result Bool) (r : StatusReport) → Fits r → Fits (traced ans json t r)
  traced-Fits json (ok on) r h = h
  traced-Fits true (err e) r h = h
  traced-Fits false (err e) r h = h

  with_trace-Fits :
      (flags : Flags) (sett : Result Settings) (r : StatusReport)
      → Fits r
      → Fits (with_trace ans flags sett r)
  unfolding with_trace
  with_trace-Fits flags (err e) r h = h
  with_trace-Fits flags (ok sett) r h =
      if_elim Fits (flags.trace || flags.require_warp) (traced-Fits flags.json _ r h) h

  with_runtime-blank :
      (rt : Loading RuntimeState) (r : StatusReport)
      → ((with_runtime ans rt r).backend_running ≡ r.backend_running)
        × ((with_runtime ans rt r).local_reachable ≡ r.local_reachable)
  unfolding with_runtime
  with_runtime-blank missing r = (refl, refl)
  with_runtime-blank unreadable r = (refl, refl)
  with_runtime-blank (found rt) r = (refl, refl)

  report-Fits :
      (flags : Flags) (acc : Loading AccountState) (rt : Loading RuntimeState)
      (sett : Result Settings)
      → Fits (report ans flags acc rt sett)
  unfolding report
  report-Fits flags acc rt sett =
      let (running, reachable) =
        with_runtime-blank rt (record no_report { account_configured = is_found acc }) in
      with_trace-Fits flags sett _ (with_backend-Fits rt sett _ running reachable)

  -- When `status` is to require a running backend and a reachable listener and ends without an error, the
  -- report shows the phase "connected", whatever the files hold and the world answers.
  pub require_status-report :
      (flags : Flags) (acc : Loading AccountState) (rt : Loading RuntimeState)
      (sett : Result Settings)
      → flags.require_running ≡ true
      → flags.require_reachable ≡ true
      → require_status flags (report ans flags acc rt sett) ≡ none
      → (report ans flags acc rt sett).phase ≡ "connected"
  require_status-report flags acc rt sett p q h =
      let m = (require_status_iff flags (report ans flags acc rt sett)).0 h in
      report-Fits flags acc rt sett (made flags.require_running p m.running)
        (made flags.require_reachable q m.reachable)
    where
      made :
          (required : Bool)
          → required ≡ true
          → {met : Bool} → (required ≡ false) ⊎ (met ≡ true)
          → met ≡ true
      made required p (inl e) = cc (p, e)
      made required p (inr e) = e
