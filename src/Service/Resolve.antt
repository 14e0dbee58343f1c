-- ===== src/Service/Resolve.antt =====
-- `resolveSettings` of cmd/settings.go: the layers of Settings/Load on what the host holds. Also
-- `ensureRotationAccount` and `rememberRotationAccount` on the machine's history file.
use cfwarp_cli.Prelude.{Bool, Option, none, some}
use cfwarp_cli.State.Account.{Time, AccountState}
use cfwarp_cli.State.Settings.{Settings}
use cfwarp_cli.State.History.{RotationHistory, RotationNovelty}
use cfwarp_cli.State.Store as Store
use cfwarp_cli.State.Store.{
  Content, Loading, load_settings_file, load_rotation_history, save_rotation_history,
}
use cfwarp_cli.Settings.Load as Load
use cfwarp_cli.Settings.Load.{Read, Loaded, loaded, persisted_error, file_error, invalid}
use cfwarp_cli.Rotation as Rotation
use cfwarp_cli.Rotation.{
  ReadHistory, Answer, noted, load_failed, save_failed, build_failed, Outcome,
}
use cfwarp_cli.Service.Action.{
  corrupt, write_failed, no_settings, no_settings_file, invalid_settings, no_fingerprint, wrap,
  Result, ok, err, Action,
}
use cfwarp_cli.Service.Host.{Machine, Host}

abbrev pub as_read : Loading Settings → Read
as_read (Store.found s) = Load.found s
as_read Store.missing = Load.not_found
as_read Store.unreadable = Load.broken

abbrev pub settings_result : Loaded → Result Settings
settings_result (loaded s) = ok s
settings_result persisted_error = err no_settings
settings_result file_error = err no_settings_file
settings_result (invalid s e) = err (invalid_settings e)

abbrev pub as_history : Loading RotationHistory → ReadHistory
as_history (Store.found h) = Rotation.found h
as_history Store.missing = Rotation.absent
as_history Store.unreadable = Rotation.unreadable

abbrev pub novelty_result : Answer → Result RotationNovelty
novelty_result (noted status) = ok status
novelty_result load_failed = err (wrap "load rotation history" corrupt)
novelty_result save_failed = err (wrap "save rotation history" write_failed)
novelty_result (build_failed e) = err (no_fingerprint e)

-- The file after the history that was handed to the store.
abbrev pub history_after :
    Bool → Option RotationHistory → Content RotationHistory → Content RotationHistory
history_after writes none old = old
history_after writes (some h) old = (save_rotation_history writes h old).1

module _ {W : Type 0} (host : Host W) where
  unfoldable pub resolve_settings : Action (Machine W) Settings
  resolve_settings m = (
    settings_result (
        Load.load (as_read (load_settings_file (host.settings_file m.world)))
          (host.read_settings m.world) host.getenv host.overrides),
    m,
  )

  -- A call on the history, with the clock and whether a write goes through.
  abbrev pub with_history :
      ((RotationHistory → Bool) → Time → ReadHistory → Outcome) → Action (Machine W) RotationNovelty
  with_history call m =
      let (t, w1) = host.now m.world in
      let (writes, w2) = host.writes w1 in
      let r = call (λ h. writes) t (as_history (load_rotation_history m.files.history)) in
      (
        novelty_result r.answer,
        record {
          files = record m.files { history = history_after writes r.written m.files.history };
          world = w2;
        },
      )

  unfoldable pub ensure_rotation_account :
      AccountState → Settings → Action (Machine W) RotationNovelty
  ensure_rotation_account acc sett =
      with_history (λ save t read. Rotation.ensure_rotation_account save t host.hash read acc sett)

  unfoldable pub remember_rotation_account :
      AccountState → Settings → Action (Machine W) RotationNovelty
  remember_rotation_account acc sett =
      with_history
        (λ save t read. Rotation.remember_rotation_account save t host.hash read acc sett t)
