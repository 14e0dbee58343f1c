-- ===== src/RunNative/Stored.antt =====
-- What the tracker of cmd/native_runtime.go writes to runtime.json.
use cfwarp_cli.Prelude.{◌≡◌, refl, ap, ◌∙◌, Bool, true, false}
use cfwarp_cli.State.Runtime as Runtime
use cfwarp_cli.State.Runtime.{RuntimeState, RuntimeStateJson}
use cfwarp_cli.State.Runtime.Laws.{normalize_idem, unmarshal-marshal_runtime}
use cfwarp_cli.State.Store.{holds, found, read_json, save_runtime, load_runtime}
use cfwarp_cli.RunNative.{
  RuntimeTracker, Change, socket_set, told, snapped, stopped, update, set_service_socket,
  record_event, persist_snapshot, stop, perform,
}

-- The file says what the tracker holds, or what it said before.
abbrev pub Writes : Bool → RuntimeTracker → RuntimeTracker → Type 0
Writes true t t' = load_runtime t'.file ≡ found t'.rt
Writes false t t' = t'.file ≡ t.file

settled :
    (r : RuntimeState)
    → Runtime.normalize r ≡ r
    → load_runtime (holds (Runtime.marshal (Runtime.normalize r))) ≡ found r
unfolding load_runtime read_json
settled r e = ap found (
    ap Runtime.normalize (unmarshal-marshal_runtime (Runtime.normalize r) ∙ normalize_idem r ∙ e)
    ∙ e)

update-Writes :
    (writes : Bool) (fn : RuntimeState → RuntimeState) (t : RuntimeTracker)
    → Writes writes t (update writes fn t)
unfolding update save_runtime
update-Writes true fn t = settled (Runtime.normalize (fn t.rt)) (normalize_idem (fn t.rt))
update-Writes false fn t = refl

-- After every change whose write goes through, loading the runtime file gives the state that the
-- tracker holds; a write that fails leaves the file as it was.
pub perform-Writes :
    (writes : Bool) (c : Change) (t : RuntimeTracker) → Writes writes t (perform writes c t)
unfolding perform set_service_socket record_event persist_snapshot stop
perform-Writes writes (socket_set path) t = update-Writes writes _ t
perform-Writes writes (told ev) t = update-Writes writes _ t
perform-Writes writes (snapped probe now snap) t = update-Writes writes _ t
perform-Writes writes (stopped reason) t = update-Writes writes _ t
