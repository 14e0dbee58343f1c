-- ===== src/Service/Starting.antt =====
-- The files after a start of the backend.
use cfwarp_cli.Prelude.{
  ◌≡◌, refl, ap, ◌∙◌, ◌&&◌, ◌==◌, Bool, true, false, arith, if_elim, if◌then◌else◌,
}
use cfwarp_cli.State.Account.{AccountState}
use cfwarp_cli.State.Settings.{Settings, runtime_family_native, transport_masque}
use cfwarp_cli.State.Runtime.{RuntimeState}
use cfwarp_cli.State.Store.{
  Loading, found, missing, unreadable, load_account, load_runtime, save_runtime,
}
use cfwarp_cli.Service.Action.{
  ◌>>=◌, ◌>>◌, raise, not_found, Result, Ends, >>=-Ends, under, under-Ends, map-Ends, of_result,
}
use cfwarp_cli.Service.Host.{
  Files, Machine, RenderResult, Backend, Host, outside_call, loaded_or_error,
}
use cfwarp_cli.Service.Registration.{read_account, register_account}
use cfwarp_cli.Service.Backend.{
  configured_backend, write_runtime, active, forget_runtime, account_or_register, claim_runtime,
  launch, started_state, start_result, start_backend, start_backend_runtime, auto_register_on_start,
}
use cfwarp_cli.Service.Frame.{
  Keeps, register_account-Ends, outside_call-Keeps, under_call-Keeps, of_result-Keeps,
}
use cfwarp_cli.Service.Running.{with_runtime, RuntimeOnly, start_backend_runtime-account}

-- A call that ends with `I` of the files, with an error or not.
abbrev pub Always : {W A : Type 0} → (Files → Type 0) → Result A × Machine W → Type 0
Always I = Ends (λ _ m. I m.files) (λ m. I m.files)

RuntimeOnly-trans : (f g h : Files) → RuntimeOnly f g → RuntimeOnly g h → RuntimeOnly f h
RuntimeOnly-trans f g h (c, e) (d, e') = (d, e' ∙ ap (with_runtime d) e)

module _ {W A : Type 0} (f : Files) where
  -- Only the runtime's file differs after a call too that leaves the files alone.
  kept_runtime :
      (m : Machine W) (x : Result A × Machine W)
      → RuntimeOnly f m.files
      → Keeps m.files x
      → Always (RuntimeOnly f) x
  kept_runtime m x (c, e) h = map-Ends x (λ _ _ k. (c, k ∙ e)) (λ _ k. (c, k ∙ e)) h

module _ {W : Type 0} (host : Host W) (f : Files) where
  forgotten : (m : Machine W) → RuntimeOnly m.files (forget_runtime host m).1.files
  unfolding forget_runtime
  forgotten m = (_, refl)

  claim_runtime-Always :
      (r : Loading RuntimeState) (m : Machine W)
      → RuntimeOnly f m.files
      → Always (RuntimeOnly f) (claim_runtime host r m)
  claim_runtime-Always (found rt) m h =
      if_elim (Always (RuntimeOnly f)) (active host rt m.world) (record { outcome = h })
        (record {
          outcome = RuntimeOnly-trans f m.files (forget_runtime host m).1.files h (forgotten m);
        })
  claim_runtime-Always missing m h = record { outcome = h }
  claim_runtime-Always unreadable m h = record { outcome = h }

  launch-Always :
      (sett : Settings) (foreground : Bool) (b : Backend W) (rendered : RenderResult)
      (m : Machine W)
      → RuntimeOnly f m.files
      → Always (RuntimeOnly f) (launch host sett foreground b rendered m)
  unfolding launch write_runtime
  launch-Always sett foreground b rendered m h =
      let started = (b.start rendered foreground m.world).0 in
      let rt = started_state host sett started in
      let file =
        (save_runtime (host.writes (b.start rendered foreground m.world).1).0 rt
          m.files.runtime).1 in
      kept_runtime f
        (record {
          files = with_runtime file m.files;
          world = (host.writes (b.start rendered foreground m.world).1).1;
        })
        _ (file, ap (with_runtime file) h.1)
        (of_result-Keeps (start_result host rt started.1) _ refl)

  start_backend-Always :
      (sett : Settings) (foreground : Bool) (acc : AccountState) (b : Backend W) (m : Machine W)
      → RuntimeOnly f m.files
      → Always (RuntimeOnly f) (start_backend host sett foreground acc b m)
  unfolding start_backend
  start_backend-Always sett foreground acc b m h =
      >>=-Ends (outside_call b.validate_prereqs) _ m
        (kept_runtime f m _ h (outside_call-Keeps b.validate_prereqs m refl))
        λ _ m1 h1.
          >>=-Ends (claim_runtime host (load_runtime m1.files.runtime)) _ m1
            (claim_runtime-Always (load_runtime m1.files.runtime) m1 h1)
            λ _ m2 h2.
              >>=-Ends (under "render config" (outside_call (b.render_config acc sett))) _ m2
                (kept_runtime f m2 _ h2
                  (under_call-Keeps "render config" (b.render_config acc sett) m2 refl))
                λ rendered m3 h3. launch-Always sett foreground b rendered m3 h3

  configured-Always :
      (sett : Settings) (foreground : Bool) (acc : AccountState) (m : Machine W)
      → RuntimeOnly f m.files
      → Always
          (RuntimeOnly f)
          ((of_result (configured_backend host sett) >>= start_backend host sett foreground acc) m)
  configured-Always sett foreground acc m h =
      >>=-Ends (of_result (configured_backend host sett)) _ m
        (kept_runtime f m _ h (of_result-Keeps (configured_backend host sett) m refl))
        λ b m1 h1. start_backend-Always sett foreground acc b m1 h1

module _ {W : Type 0} (host : Host W) where
  -- With an account on record, starting the backend changes no file but the runtime's, whether it
  -- ends in an error or not.
  pub start_backend_runtime-Always :
      (sett : Settings) (foreground : Bool) (acc : AccountState) (m : Machine W)
      → load_account m.files.account ≡ found acc
      → Always (RuntimeOnly m.files) (start_backend_runtime host sett foreground m)
  start_backend_runtime-Always sett foreground acc m e =
      rw (start_backend_runtime-account host sett foreground acc m e)
        (configured-Always host m.files sett foreground acc m (m.files.runtime, refl))

-- The last good account and the history are left alone.
abbrev pub Around : Files → Files → Type 0
Around f g = (g.last_good ≡ f.last_good) × (g.history ≡ f.history)

pub RuntimeOnly-Around : (f g h : Files) → Around f g → RuntimeOnly g h → Around f h
RuntimeOnly-Around f g h (a, b) (c, e) = (ap (λ x. x.last_good) e ∙ a, ap (λ x. x.history) e ∙ b)

module _ {W : Type 0} (host : Host W) (f : Files) where
  read_account-Around :
      (m : Machine W)
      → Around f m.files
      → Always (Around f) (under "load account" (read_account host) m)
  unfolding read_account
  read_account-Around m h = record { outcome = ground (arith, h) }

  pub register_account-Around :
      (force masque : Bool) (m : Machine W)
      → Around f m.files
      → Always (Around f) (register_account host force masque m)
  register_account-Around force masque m h =
      map-Ends (register_account host force masque m)
        (λ _ _ e. (ap (λ x. x.last_good) e.1 ∙ h.0, ap (λ x. x.history) e.1 ∙ h.1))
        (λ _ e. (ap (λ x. x.last_good) e ∙ h.0, ap (λ x. x.history) e ∙ h.1))
        (register_account-Ends host force masque m m.files refl)

  account_or_register-Around :
      (sett : Settings) (r : Loading AccountState) (m : Machine W)
      → Around f m.files
      → Always (Around f) (account_or_register host sett (loaded_or_error r) m)
  account_or_register-Around sett (found acc) m h = record { outcome = h }
  account_or_register-Around sett unreadable m h = record { outcome = h }
  account_or_register-Around sett missing m h = go (auto_register_on_start host.getenv)
    where
      masque : Bool
      masque = sett.runtime_family == runtime_family_native && sett.transport == transport_masque

      go :
          (b : Bool)
          → Always (Around f) (
              (if b
                  then (under "auto-register on start" (register_account host false masque)
                      >> under "load account" (read_account host))
                  else under "load account" (raise not_found))
                m)
      go true =
          >>=-Ends (under "auto-register on start" (register_account host false masque)) _ m
            (under-Ends "auto-register on start" (register_account host false masque) m
              (register_account-Around false masque m h))
            λ _ m1 h1. read_account-Around m1 h1
      go false = record { outcome = h }

  -- However a start ends, the last good account and the history are as they were.
  pub start_backend_runtime-Around :
      (sett : Settings) (foreground : Bool) (m : Machine W)
      → Around f m.files
      → Always (Around f) (start_backend_runtime host sett foreground m)
  unfolding start_backend_runtime read_account
  start_backend_runtime-Around sett foreground m h =
      >>=-Ends (account_or_register host sett (loaded_or_error (load_account m.files.account))) _ m
        (account_or_register-Around sett (load_account m.files.account) m h)
        λ acc m1 h1.
          map-Ends _ (λ _ g k. RuntimeOnly-Around f m1.files g.files h1 k)
            (λ g k. RuntimeOnly-Around f m1.files g.files h1 k)
            (configured-Always host m1.files sett foreground acc m1 (m1.files.runtime, refl))
