-- ===== src/Orchestrator/Phases.antt =====
-- The phases that are shown for the runtime states that the program makes.
use cfwarp_cli.Prelude.{
  ◌≡◌, ◌≢◌, refl, sym, ◌∙◌, Bool, true, false, eq_iff, String, List, [], ◌∷◌, arith,
}
use cfwarp_cli.State.Account.{Time}
use cfwarp_cli.State.Settings.{Settings}
use cfwarp_cli.State.Runtime.{RuntimeState, normalize}
use cfwarp_cli.State.Runtime.Laws.{normalize-kept}
use cfwarp_cli.Orchestrator.{
  RuntimeInfo, build_runtime_state, derive_phase, mark_transport_error, mark_stopped,
}

-- What is done to the state of a backend while it is not forgotten: errors are marked, its end is
-- marked, and it is normalised before it is written.
pub data Mark : Type 0 where
  transport_error : String → Time → Mark
  ended : String → Mark
  settled : Mark

abbrev pub mark : Mark → RuntimeState → RuntimeState
mark (transport_error reason at) rt = mark_transport_error reason at rt
mark (ended reason) rt = mark_stopped reason rt
mark settled rt = normalize rt

-- The marks, the first of them first.
abbrev pub marked : List Mark → RuntimeState → RuntimeState
marked [] rt = rt
marked (m ∷ ms) rt = marked ms (mark m rt)

mark-socket :
    (m : Mark) (rt : RuntimeState) → (mark m rt).service_socket_path ≡ rt.service_socket_path
unfolding mark_transport_error mark_stopped
mark-socket (transport_error reason at) rt = refl
mark-socket (ended reason) rt = ground arith
mark-socket settled rt = ground (arith, normalize-kept rt)

marked-socket :
    (ms : List Mark) (rt : RuntimeState)
    → (marked ms rt).service_socket_path ≡ rt.service_socket_path
marked-socket [] rt = refl
marked-socket (m ∷ ms) rt = marked-socket ms (mark m rt) ∙ mark-socket m rt

-- What is shown of a backend that does not run, of one that runs and cannot be reached, and of one
-- that can.
pub record IsShown (rt : RuntimeState) : Type 0 where
  pub stopped : (local_reachable : Bool) → derive_phase rt false local_reachable ≡ "stopped"
  pub degraded : derive_phase rt true false ≡ "degraded"
  pub connected : derive_phase rt true true ≡ "connected"

derive_phase-IsShown : (rt : RuntimeState) → rt.service_socket_path ≢ "" → IsShown rt
unfolding derive_phase
derive_phase-IsShown rt h = record {
  stopped =
      λ local_reachable. ground (arith, h, normalize-kept rt, eq_iff rt.service_socket_path "");
  degraded = ground arith;
  connected = ground arith;
}

-- The state of a backend that was started with a socket path, after any number of transport errors and
-- ends that were marked in it, in any order and normalised in between, is shown as stopped when the
-- backend does not run, as degraded when it runs and cannot be reached, and as connected when it can:
-- never as idle or connecting.
pub derive_phase-build :
    (socket : String) (sett : Settings) (info : RuntimeInfo) (ms : List Mark)
    → socket ≢ ""
    → IsShown (marked ms (build_runtime_state socket sett info))
unfolding build_runtime_state
derive_phase-build socket sett info ms h =
    derive_phase-IsShown (marked ms (build_runtime_state socket sett info))
      (λ e. h (sym (marked-socket ms (build_runtime_state socket sett info)) ∙ e))
