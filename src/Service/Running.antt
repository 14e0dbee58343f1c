-- ===== src/Service/Running.antt =====
-- What starting and stopping the backend does.
use cfwarp_cli.Prelude.{
  ◌≡◌, refl, ap, ◌∙◌, ◌⊎◌, inl, inr, Bool, true, false, arith, if◌then◌else◌, if_elim,
}
use cfwarp_cli.State.Account.{AccountState}
use cfwarp_cli.State.Settings.{Settings}
use cfwarp_cli.State.Runtime.{RuntimeState, RuntimeStateJson}
use cfwarp_cli.State.Store.{
  Content, absent, garbled, holds, Loading, found, missing, unreadable, read_json, load_account,
  load_runtime, clear_runtime,
}
use cfwarp_cli.Service.Action.{
  ◌>>=◌, remove_failed, under, Result, ok, err, Ends, >>=-Ends, under-Ends, map-Ends, of_result,
}
use cfwarp_cli.Service.Host.{Files, Machine, Backend, Host, outside_call, loaded_or_error}
use cfwarp_cli.Service.Registration.{read_account}
use cfwarp_cli.Service.Backend.{
  configured_backend, runtime_backend, active, forget_runtime, account_or_register, start_backend,
  start_backend_runtime, stop_active, stop_loaded, stop_backend_runtime, runtime_info,
}
use cfwarp_cli.Service.Frame.{under_call-Keeps, of_result-Keeps}

abbrev pub with_runtime : Content RuntimeStateJson → Files → Files
with_runtime c f = record f { runtime = c }

-- Only the runtime's file may differ.
abbrev pub RuntimeOnly : Files → Files → Type 0
RuntimeOnly f g = (c : Content RuntimeStateJson) × (g ≡ with_runtime c f)

-- The runtime's file is gone, the others are as they were.
abbrev pub cleared : Files → Files
cleared = with_runtime absent

module _ {W : Type 0} (host : Host W) where
  removed-Ends :
      (r : Bool × Content RuntimeStateJson) (f : Files) (w : W)
      → (r.0 ≡ true → r.1 ≡ absent)
      → Ends
          (λ _ (m' : Machine W). m'.files ≡ cleared f)
          (λ m'. RuntimeOnly f m'.files)
          (
            if r.0 then ok tt else err remove_failed,
            record { files = with_runtime r.1 f; world = w },
          )
  removed-Ends (true, c) f w h = record { outcome = ap (λ c. with_runtime c f) (h refl) }
  removed-Ends (false, c) f w h = record { outcome = (c, refl) }

  clear_runtime-absent :
      (removes removes_config : Bool) (c : Content RuntimeStateJson)
      → (clear_runtime removes removes_config c).0 ≡ true
      → (clear_runtime removes removes_config c).1 ≡ absent
  unfolding clear_runtime
  clear_runtime-absent removes removes_config c e = ground (arith, e)

  pub forget_runtime-Ends :
      (m : Machine W)
      → Ends
          (λ _ m'. m'.files ≡ cleared m.files)
          (λ m'. RuntimeOnly m.files m'.files)
          (forget_runtime host m)
  unfolding forget_runtime
  forget_runtime-Ends m =
      removed-Ends
        (clear_runtime (host.removes m.world).0 (host.removes (host.removes m.world).1).0
          m.files.runtime)
        m.files _
        (clear_runtime-absent (host.removes m.world).0 (host.removes (host.removes m.world).1).0
          m.files.runtime)

  stop_active-Ends :
      (rt : RuntimeState) (m : Machine W)
      → Ends
          (λ _ m'. m'.files ≡ cleared m.files)
          (λ m'. RuntimeOnly m.files m'.files)
          (stop_active host rt m)
  stop_active-Ends rt m =
      >>=-Ends (of_result (runtime_backend host rt)) _ m
        (map-Ends (of_result (runtime_backend host rt) m) (λ _ _ e. e) (λ _ e. (m.files.runtime, e))
          (of_result-Keeps (runtime_backend host rt) m refl))
        λ b m1 e1.
          >>=-Ends (under "stop backend" (outside_call (b.stop (runtime_info rt)))) _ m1
            (map-Ends _ (λ _ _ e. e) (λ _ e. (m.files.runtime, e))
              (under_call-Keeps "stop backend" (b.stop (runtime_info rt)) m1 e1))
            λ _ m2 e2. under-Ends "clear runtime state" (forget_runtime host) m2 (
              map-Ends (forget_runtime host m2) (λ _ _ h. h ∙ ap cleared e2)
                (λ _ h. (h.0, h.1 ∙ ap (with_runtime h.0) e2)) (forget_runtime-Ends m2))

  stop_loaded-Ends :
      (r : Loading RuntimeState) (m : Machine W)
      → (r ≡ missing → m.files.runtime ≡ absent)
      → Ends
          (λ _ m'. m'.files ≡ cleared m.files)
          (λ m'. RuntimeOnly m.files m'.files)
          (stop_loaded host r m)
  stop_loaded-Ends (found rt) m h =
      if_elim (Ends (λ _ m'. m'.files ≡ cleared m.files) (λ m'. RuntimeOnly m.files m'.files))
        (active host rt m.world) (stop_active-Ends rt m) (forget_runtime-Ends m)
  stop_loaded-Ends missing m h = record { outcome = ap (λ c. with_runtime c m.files) (h refl) }
  stop_loaded-Ends unreadable m h = record { outcome = (m.files.runtime, refl) }

  load_runtime-missing : (c : Content RuntimeStateJson) → load_runtime c ≡ missing → c ≡ absent
  unfolding load_runtime read_json
  load_runtime-missing absent e = refl
  load_runtime-missing garbled e = ground (arith, e)
  load_runtime-missing (holds p) e = ground (arith, e)

  -- When stopping the backend reports no error, the runtime's file is gone; the files of the
  -- accounts and of the history are as they were in any case.
  pub stop_backend_runtime-Ends :
      (m : Machine W)
      → Ends
          (λ _ m'. m'.files ≡ cleared m.files)
          (λ m'. RuntimeOnly m.files m'.files)
          (stop_backend_runtime host m)
  unfolding stop_backend_runtime
  stop_backend_runtime-Ends m =
      stop_loaded-Ends (load_runtime m.files.runtime) m (load_runtime-missing m.files.runtime)

  start_backend-running :
      (sett : Settings) (foreground : Bool) (acc : AccountState) (b : Backend W) (rt : RuntimeState)
      (m : Machine W)
      → load_runtime m.files.runtime ≡ found rt
      → active host rt (b.validate_prereqs m.world).1 ≡ true
      → Ends
          (λ _ _. ⊥)
          (λ m'. (m'.files ≡ m.files) × (m'.world ≡ (b.validate_prereqs m.world).1))
          (start_backend host sett foreground acc b m)
  unfolding start_backend
  start_backend-running sett foreground acc b rt m hr h = record { outcome = ground (arith, hr, h) }

  -- With an account on record, a start is one with that account.
  pub start_backend_runtime-account :
      (sett : Settings) (foreground : Bool) (acc : AccountState) (m : Machine W)
      → load_account m.files.account ≡ found acc
      → start_backend_runtime host sett foreground m
        ≡ (of_result (configured_backend host sett) >>= start_backend host sett foreground acc) m
  unfolding start_backend_runtime read_account
  start_backend_runtime-account sett foreground acc m e =
      ap
        (λ l.
          (account_or_register host sett (loaded_or_error l) >>= λ acc.
          of_result (configured_backend host sett) >>= start_backend host sett foreground acc)
            m)
        e

  -- With an account and an active runtime on record, a start ends in an error, changes no file and
  -- asks the world for nothing but the prerequisites of the backend.
  pub start_backend_runtime-running :
      (sett : Settings) (foreground : Bool) (acc : AccountState) (rt : RuntimeState) (m : Machine W)
      → load_account m.files.account ≡ found acc
      → load_runtime m.files.runtime ≡ found rt
      → ((b : Backend W)
          → configured_backend host sett ≡ ok b
          → active host rt (b.validate_prereqs m.world).1 ≡ true)
      → Ends
          (λ _ _. ⊥)
          (λ m'.
            (m'.files ≡ m.files)
            × ((m'.world ≡ m.world)
                ⊎ ((b : Backend W) × (configured_backend host sett ≡ ok b)
                    × (m'.world ≡ (b.validate_prereqs m.world).1))))
          (start_backend_runtime host sett foreground m)
  start_backend_runtime-running sett foreground acc rt m ha hr h =
      rw (start_backend_runtime-account sett foreground acc m ha)
        (go (configured_backend host sett) refl)
    where
      go :
          (r : Result (Backend W))
          → configured_backend host sett ≡ r
          → Ends
              (λ _ _. ⊥)
              (λ m'.
                (m'.files ≡ m.files)
                × ((m'.world ≡ m.world)
                    ⊎ ((b : Backend W) × (configured_backend host sett ≡ ok b)
                        × (m'.world ≡ (b.validate_prereqs m.world).1))))
              ((of_result r >>= start_backend host sett foreground acc) m)
      go (ok b) e =
          map-Ends _ (λ _ _ x. x) (λ _ x. (x.0, inr (b, e, x.1)))
            (start_backend-running sett foreground acc b rt m hr (h b e))
      go (err reason) e = record { outcome = (refl, inl refl) }
