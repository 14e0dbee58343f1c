-- ===== src/State/Store/Atomic.antt =====
-- `writeSecure` of internal/state/store.go step by step, on files by their paths. A fault makes one of
-- its calls fail; `prefix` is what has reached the temporary file when the encoder fails.
use Prim.Native.String.{◌++◌}
use cfwarp_cli.Prelude.{
  Bool, true, false, String, ◌==◌, Option, none, some, List, [], ◌∷◌, if◌then◌else◌,
}

abbrev pub Disk : Type 0
Disk = String → Option String

pub data Fault : Type 0 where
  no_fault open_fails encode_fails close_fails rename_fails : Fault

abbrev pub temporary : String → String
temporary path = path ++ ".tmp"

abbrev pub place : String → Option String → Disk → Disk
place path text disk p = if p == path then text else disk p

-- The disk at the end, after each earlier call, and whether there was no error.
pub record Trace : Type 0 where
  pub final : Disk
  pub earlier : List Disk
  pub success : Bool

-- `os.Rename`.
abbrev pub rename : String → String → Disk → Disk
rename from to disk = place from none (place to (disk from) disk)

unfoldable pub write_secure : Fault → String → String → String → Disk → Trace
write_secure open_fails prefix path text disk = record {
  final = disk;
  earlier = [];
  success = false;
}
write_secure encode_fails prefix path text disk =
    let tmp = temporary path in
    let opened = place tmp (some "") disk in
    let partly = place tmp (some prefix) opened in
    record { final = place tmp none partly; earlier = partly ∷ opened ∷ disk ∷ []; success = false }
write_secure close_fails prefix path text disk =
    let tmp = temporary path in
    let opened = place tmp (some "") disk in
    let written = place tmp (some text) opened in
    record {
      final = place tmp none written;
      earlier = written ∷ opened ∷ disk ∷ [];
      success = false;
    }
write_secure rename_fails prefix path text disk =
    let tmp = temporary path in
    let opened = place tmp (some "") disk in
    let written = place tmp (some text) opened in
    record {
      final = place tmp none written;
      earlier = written ∷ opened ∷ disk ∷ [];
      success = false;
    }
write_secure no_fault prefix path text disk =
    let tmp = temporary path in
    let opened = place tmp (some "") disk in
    let written = place tmp (some text) opened in
    record {
      final = rename tmp path written;
      earlier = written ∷ opened ∷ disk ∷ [];
      success = true;
    }
