-- ===== src/Rotation.antt =====
-- cmd/rotation_memory.go: the fingerprint of the current account, checked against the stored history
-- and recorded there. `read` is what the history file holds; `save` says whether writing succeeds.
pub mod Memory
mod Tests
use cfwarp_cli.Prelude.{
  ℕ, Bool, true, false, String, ◌==◌, Option, none, some, [], ℤ, pos, nat_eq, is_zero, is_positive,
  length, if◌then◌else◌,
}
use cfwarp_cli.State.Account.{Time, AccountState}
use cfwarp_cli.State.Settings.{Settings, RotationOptions}
use cfwarp_cli.State.History.{
  RotationFingerprint, RotationHistory, RotationNovelty, FingerprintError, Built, built, failed,
  build_rotation_fingerprint, evaluate_rotation_novelty, remember_rotation_fingerprint,
}

abbrev distinctness_of : Option RotationOptions → String
distinctness_of none = "either"
distinctness_of (some r) = if r.distinctness == "" then "either" else r.distinctness

unfoldable pub rotation_distinctness : Settings → String
rotation_distinctness sett = distinctness_of sett.rotation

abbrev history_size_of : Option RotationOptions → ℤ
history_size_of none = pos 128
history_size_of (some r) = if is_positive r.history_size then r.history_size else pos 128

unfoldable pub rotation_history_size : Settings → ℤ
rotation_history_size sett = history_size_of sett.rotation

pub data ReadHistory : Type 0 where
  found : RotationHistory → ReadHistory
  absent unreadable : ReadHistory

pub data Answer : Type 0 where
  noted : RotationNovelty → Answer
  load_failed save_failed : Answer
  build_failed : FingerprintError → Answer

-- The answer, and the history that was handed to the store.
pub record Outcome : Type 0 where
  pub answer : Answer
  pub written : Option RotationHistory

abbrev pub no_history : RotationHistory
no_history = record { schema_version = pos 0; entries = [] }

abbrev counted : RotationNovelty → RotationHistory → RotationNovelty
counted status h = record status { history_entries = length h.entries }

abbrev pub write_down : (RotationHistory → Bool) → RotationNovelty → RotationHistory → Outcome
write_down save status h = record {
  answer = if save h then noted (counted status h) else save_failed;
  written = some h;
}

abbrev leave : RotationNovelty → RotationHistory → Outcome
leave status h = record {
  answer = noted (if nat_eq status.history_entries 0 then counted status h else status);
  written = none;
}

module _ (save : RotationHistory → Bool) (now : Time) where
  unfoldable pub ensure_fingerprint : RotationHistory → Settings → Built → Outcome
  ensure_fingerprint history sett (failed e) = record { answer = build_failed e; written = none }
  ensure_fingerprint history sett (built fp) =
      let status = evaluate_rotation_novelty history fp (rotation_distinctness sett) in
      if is_zero status.seen_count
      then write_down save status
          (remember_rotation_fingerprint now history fp now (rotation_history_size sett))
      else leave status history

  unfoldable pub ensure_rotation_account :
      (String → String) → ReadHistory → AccountState → Settings → Outcome
  ensure_rotation_account hash (found h) acc sett =
      ensure_fingerprint h sett (build_rotation_fingerprint hash acc sett.transport)
  ensure_rotation_account hash absent acc sett =
      ensure_fingerprint no_history sett (build_rotation_fingerprint hash acc sett.transport)
  ensure_rotation_account hash unreadable acc sett = record { answer = load_failed; written = none }

  unfoldable pub record_fingerprint : RotationHistory → Settings → Time → Built → Outcome
  record_fingerprint history sett observed_at (failed e) = record {
    answer = build_failed e;
    written = none;
  }
  record_fingerprint history sett observed_at (built fp) =
      write_down save (evaluate_rotation_novelty history fp (rotation_distinctness sett))
        (remember_rotation_fingerprint now history fp observed_at (rotation_history_size sett))

  unfoldable pub remember_rotation_account :
      (String → String) → ReadHistory → AccountState → Settings → Time → Outcome
  remember_rotation_account hash (found h) acc sett observed_at =
      record_fingerprint h sett observed_at (build_rotation_fingerprint hash acc sett.transport)
  remember_rotation_account hash absent acc sett observed_at =
      record_fingerprint no_history sett observed_at
        (build_rotation_fingerprint hash acc sett.transport)
  remember_rotation_account hash unreadable acc sett observed_at = record {
    answer = load_failed;
    written = none;
  }
