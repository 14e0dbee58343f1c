-- ===== src/RunNative/Told.antt =====
-- The phase that the tracker of cmd/native_runtime.go shows while a transport error is on record.
use cfwarp_cli.Prelude.{
  ◌≡◌, ◌≢◌, ◌⊎◌, inl, inr, refl, ap, sym, ◌∙◌, Bool, ◌||◌, String, ◌==◌, eq_iff, some, arith,
  to_lower, if_elim,
}
use cfwarp_cli.State.Account.{Time}
use cfwarp_cli.State.Settings.{Settings}
use cfwarp_cli.State.Runtime as Runtime
use cfwarp_cli.State.Runtime.{RuntimeState, RuntimeDiagnostics}
use cfwarp_cli.State.Runtime.Laws.{
  normalize-diagnostics, normalize-last_transport_error, normalize-phase,
}
use cfwarp_cli.Orchestrator.{mark_transport_error, mark_stopped}
use cfwarp_cli.Masque.Tunnel.{Event}
use cfwarp_cli.RunNative.{
  Snapshot, RuntimeTracker, Change, socket_set, told, snapped, stopped, update, note_event,
  follow_event, snapshot_phase, take_snapshot, persist_snapshot, set_service_socket, record_event,
  stop, perform, Reach, begins, changes,
}

-- The record shows an error by its phase, unless the backend has stopped.
abbrev pub Shows : RuntimeState → Type 0
Shows rt = (rt.last_transport_error ≡ "") ⊎ ((rt.phase ≡ "degraded") ⊎ (rt.phase ≡ "stopped"))

pub record IsTold (rt : RuntimeState) : Type 0 where
  pub shown : Shows rt
  pub diagnosed : (d : RuntimeDiagnostics) × (rt.diagnostics ≡ some d)

kept_phase :
    (phase : String) (r : RuntimeState)
    → to_lower phase ≡ phase
    → phase ≢ ""
    → r.phase ≡ phase
    → (Runtime.normalize r).phase ≡ phase
kept_phase phase r h given e =
    normalize-phase r (ap to_lower e ∙ h ∙ sym e) (λ n. given (sym e ∙ n)) ∙ e

normalize-IsTold : (r : RuntimeState) → IsTold r → IsTold (Runtime.normalize r)
unfolding to_lower
normalize-IsTold r h = record {
  shown = elim h.shown [
    | inl e ↦ inl (normalize-last_transport_error r ∙ e)
    | inr (inl e) ↦
        inr (inl (kept_phase "degraded" r refl (λ n. ground (arith, eq_iff "degraded" "")) e))
    | inr (inr e) ↦
        inr (inr (kept_phase "stopped" r refl (λ n. ground (arith, eq_iff "stopped" "")) e))
  ];
  diagnosed = (h.diagnosed.0, normalize-diagnostics r ∙ h.diagnosed.1);
}

take_snapshot-IsTold :
    (reachable : Bool) (now : Time) (snap : Snapshot) (rt : RuntimeState)
    → IsTold (take_snapshot reachable now snap rt)
unfolding take_snapshot snapshot_phase
take_snapshot-IsTold reachable now snap rt = record {
  shown = ground (arith, eq_iff rt.last_transport_error "");
  diagnosed = (_, refl);
}

note_event-Shows : (ev : Event) (rt : RuntimeState) → Shows rt → IsTold (note_event ev rt)
unfolding note_event
note_event-Shows ev rt h = record { shown = h; diagnosed = (_, refl) }

follow_event-IsTold : (ev : Event) (rt : RuntimeState) → IsTold rt → IsTold (follow_event ev rt)
unfolding follow_event mark_transport_error
follow_event-IsTold ev rt h =
    if_elim IsTold (ev.type == "endpoint_selected")
      (record { shown = h.shown; diagnosed = h.diagnosed })
      (if_elim IsTold (ev.type == "retry" || ev.type == "reconnect")
        (record { shown = inr (inl refl); diagnosed = h.diagnosed })
        (if_elim IsTold (ev.type == "connected" || ev.type == "reconnected")
          (record { shown = inl refl; diagnosed = h.diagnosed }) h))

perform-IsTold :
    (writes : Bool) (c : Change) (t : RuntimeTracker) → IsTold t.rt → IsTold (perform writes c t).rt
unfolding perform set_service_socket record_event persist_snapshot stop update mark_stopped
perform-IsTold writes (socket_set path) t h =
    normalize-IsTold _ (record { shown = h.shown; diagnosed = h.diagnosed })
perform-IsTold writes (told ev) t h =
    normalize-IsTold _ (follow_event-IsTold ev _ (note_event-Shows ev t.rt h.shown))
perform-IsTold writes (snapped probe now snap) t h =
    normalize-IsTold _ (take_snapshot-IsTold _ now snap t.rt)
perform-IsTold writes (stopped reason) t h =
    normalize-IsTold _ (record { shown = inr (inr refl); diagnosed = h.diagnosed })

-- From the first snapshot on, whatever the runtime file held before, and in whatever order events,
-- snapshots and the end come, the state has diagnostics, and while a transport error is on record its
-- phase is degraded or stopped.
pub Reach-IsTold : {sett : Settings} {t : RuntimeTracker} → Reach sett t → IsTold t.rt
unfolding persist_snapshot update
Reach-IsTold (begins file writes probe now snap) =
    normalize-IsTold _ (take_snapshot-IsTold _ now snap _)
Reach-IsTold (changes t writes c r) = perform-IsTold writes c t (Reach-IsTold r)
