-- ===== src/Rotate.antt =====
-- cmd/rotate.go: the rotate command, once its settings and its list of services are resolved. What
-- the unlock checks say of the services is an argument; lines that are only printed are left out.
pub mod Previous
mod Tests
use cfwarp_cli.Prelude.{
  ℕ, zero, suc, Bool, true, false, not, ◌&&◌, ◌||◌, String, ◌==◌, Option, none, some, List, [], ◌∷◌,
  is_empty, ℤ, is_positive, pos_part, if◌then◌else◌,
}
use cfwarp_cli.State.Account.{AccountState, MasqueState}
use cfwarp_cli.State.Settings.{Settings, transport_masque}
use cfwarp_cli.State.Runtime.{RuntimeState}
use cfwarp_cli.State.Store.{Loading, found, missing, unreadable, load_account, load_runtime}
use cfwarp_cli.Service.Action.{
  Error, corrupt, wrap, not_new, not_reachable, rotation_failed, attempts_too_few, Result, ok, err,
  Action, ⊤, pure, raise, gets, of_result, ◌>>=◌, ◌>>◌, attempt, under, raise_unless,
}
use cfwarp_cli.Service.Host.{Machine, Host, asks, outside_call}
use cfwarp_cli.Service.Access.{wait_for_proxy_reachable}
use cfwarp_cli.Service.Registration.{read_account, write_account, register_account}
use cfwarp_cli.Service.Backend.{active, start_backend_runtime, stop_backend_runtime}
use cfwarp_cli.Service.Resolve.{ensure_rotation_account, remember_rotation_account}

-- The flags of the command: `settle` in nanoseconds.
pub record Flags : Type 0 where
  pub attempts : ℤ
  pub settle : ℤ
  pub masque : Bool

abbrev pub has_masque : AccountState → Bool
has_masque acc = given acc.masque
  where
    given : Option MasqueState → Bool
    given none = false
    given (some m) = true

-- The account there was, none if no device was registered.
abbrev pub previous_account : Loading AccountState → Result (Option AccountState)
previous_account (found acc) = ok (some acc)
previous_account missing = ok none
previous_account unreadable = err (wrap "load current account" corrupt)

abbrev pub enrolled : Option AccountState → Bool
enrolled none = false
enrolled (some acc) = has_masque acc

module _ {W : Type 0} (host : Host W) (check_services : Settings → List String → W → Result ⊤ × W)
    (sett : Settings) (services : List String) (flags : Flags) where
  -- An error after the start stops the backend.
  abbrev pub or_stop : Action (Machine W) ⊤ → Action (Machine W) ⊤
  or_stop f m = stop_after (f m).0 (f m).1
    where
      stop_after : Result ⊤ → Action (Machine W) ⊤
      stop_after (ok _) = pure tt
      stop_after (err e) = attempt (stop_backend_runtime host) >> raise e

  -- The backend is started and reached, and the services pass.
  unfoldable pub served : Action (Machine W) ⊤
  served = do
    start_backend_runtime host sett false
    reached ← asks (wait_for_proxy_reachable host sett flags.settle)
    raise_unless (not_reachable flags.settle) reached
    if is_empty services then pure tt else outside_call (check_services sett services)

  -- A backend that was started for the checks only is stopped.
  abbrev pub stop_temporary : Bool → Action (Machine W) ⊤
  stop_temporary keep =
      if keep || is_empty services
      then pure tt
      else (attempt (stop_backend_runtime host) >> pure tt)

  -- One round of the loop, up to its error.
  unfoldable pub rotate_attempt : Bool → Bool → Action (Machine W) ⊤
  rotate_attempt masque keep = do
    register_account host true masque
    acc ← under "load rotated account" (read_account host)
    status ← remember_rotation_account host acc sett
    raise_unless (not_new status.distinctness) status.qualifies
    if keep || not (is_empty services) then (or_stop served >> stop_temporary keep) else pure tt

  abbrev pub next_attempt : (Error → Action (Machine W) ⊤) → Result ⊤ → Action (Machine W) ⊤
  next_attempt again (ok _) = pure tt
  next_attempt again (err e) = again e

  unfoldable pub rotate_attempts : ℕ → Bool → Bool → Error → Action (Machine W) ⊤
  rotate_attempts zero masque keep last = raise last
  rotate_attempts (suc n) masque keep last = do
    tried ← attempt (rotate_attempt masque keep)
    next_attempt (rotate_attempts n masque keep) tried

  abbrev pub start_kept : Bool → Action (Machine W) ⊤
  start_kept keep =
      if keep
      then (under "restore backend with previous account" (start_backend_runtime host sett false)
          >> pure tt)
      else pure tt

  abbrev pub put_back : Option AccountState → Bool → Action (Machine W) ⊤
  put_back none keep = pure tt
  put_back (some acc) keep =
      under "restore previous account" (write_account host true acc) >> start_kept keep

  -- What follows the loop.
  abbrev pub rotate_result : Option AccountState → Bool → Result ⊤ → Action (Machine W) ⊤
  rotate_result previous keep (ok _) = pure tt
  rotate_result previous keep (err e) = put_back previous keep >> raise e

  abbrev pub is_active : Loading RuntimeState → W → Bool
  is_active (found rt) w = active host rt w
  is_active missing w = false
  is_active unreadable w = false

  abbrev pub note_current : Option AccountState → Action (Machine W) ⊤
  note_current none = pure tt
  note_current (some acc) = attempt (ensure_rotation_account host acc sett) >> pure tt

  -- The loop and what follows it.
  unfoldable pub rotate_loop : Option AccountState → Bool → Action (Machine W) ⊤
  rotate_loop previous running = do
    let masque = flags.masque || sett.transport == transport_masque || enrolled previous
    tried ← attempt (rotate_attempts (pos_part flags.attempts) masque running rotation_failed)
    rotate_result previous running tried

  unfoldable pub rotate_with : Option AccountState → Action (Machine W) ⊤
  rotate_with previous = do
    note_current previous
    running ← gets (λ m. is_active (load_runtime m.files.runtime) m.world)
    stop_backend_runtime host
    rotate_loop previous running

  unfoldable pub rotate : Action (Machine W) ⊤
  rotate = do
    raise_unless attempts_too_few (is_positive flags.attempts)
    previous ← gets (λ m. previous_account (load_account m.files.account))
    of_result previous >>= rotate_with
