-- ===== src/State/History.antt =====
-- internal/state/rotation_history.go: the hashed memory of the addresses that were assigned. `hash` is
-- `hashRotationValue`, SHA-256 in hexadecimal; times are numbers, 0 for Go's zero time; counts are
-- 64-bit integers that wrap around.
pub mod Novelty
pub mod Loop
pub mod Remember
mod Tests
use Prim.Native.String.{◌++◌}
use mathlib.Core.Option as Opt
use cfwarp_cli.Prelude.{
  to_int, ℕ, ◌+◌, ◌-◌, ◌%◌, ◌^◌, Bool, true, false, not, ◌&&◌, ◌||◌, String, ◌==◌, Option, none,
  some, List, [], ◌∷◌, map, ℤ, pos, negsuc, ltb, leb, nat_eq, is_zero, is_positive, pos_part,
  length, take, if◌then◌else◌, tidy,
}
use cfwarp_cli.State.Account.{Time, WireGuardState, MasqueState, AccountState}
use cfwarp_cli.State.Account as Account
use cfwarp_cli.State.Settings.{transport_wireguard, transport_masque}

abbrev pub default_rotation_history_size : ℕ
default_rotation_history_size = 128

pub record RotationFingerprint : Type 0 where
  pub transport : String
  pub fingerprint : String
  pub ipv4_hash : String
  pub ipv6_hash : String

pub record RotationHistoryEntry : Type 0 where
  pub transport : String
  pub fingerprint : String
  pub ipv4_hash : String
  pub ipv6_hash : String
  pub first_seen_at : Time
  pub last_seen_at : Time
  pub seen_count : ℤ

pub record RotationHistory : Type 0 where
  pub schema_version : ℤ
  pub entries : List RotationHistoryEntry

pub record RotationNovelty : Type 0 where
  pub transport : String
  pub distinctness : String
  pub fingerprint : String
  pub history_entries : ℕ
  pub seen_count : ℤ
  pub exact_reuse : Bool
  pub new_fingerprint : Bool
  pub new_ipv4 : Bool
  pub new_ipv6 : Bool
  pub qualifies : Bool

unfoldable pub normalize_entry : RotationHistoryEntry → RotationHistoryEntry
normalize_entry e = record e {
  transport = tidy e.transport;
  seen_count = if is_positive e.seen_count then e.seen_count else pos 1;
}

unfoldable pub normalize : RotationHistory → RotationHistory
normalize h = record {
  schema_version = if is_zero h.schema_version then pos 1 else h.schema_version;
  entries = map normalize_entry h.entries;
}

pub data FingerprintError : Type 0 where
  no_masque_state unsupported_transport no_addresses : FingerprintError

pub data Built : Type 0 where
  built : RotationFingerprint → Built
  failed : FingerprintError → Built

abbrev pub wireguard_addresses : AccountState → Option WireGuardState → String × String
wireguard_addresses acc none = (acc.warp_ipv4, acc.warp_ipv6)
wireguard_addresses acc (some w) = (w.ipv4, w.ipv6)

-- The addresses assigned for a transport, in the form in which they are hashed.
unfoldable pub build_with : (String → String) → String → String → String → Built
build_with hash transport ipv4 ipv6 =
    if ipv4 == "" && ipv6 == ""
    then failed no_addresses
    else built (record {
      transport = transport;
      fingerprint =
          hash ("transport|" ++ (transport ++ ("|ipv4|" ++ (ipv4 ++ ("|ipv6|" ++ ipv6)))));
      ipv4_hash = if ipv4 == "" then "" else hash ("ipv4|" ++ (transport ++ ("|" ++ ipv4)));
      ipv6_hash = if ipv6 == "" then "" else hash ("ipv6|" ++ (transport ++ ("|" ++ ipv6)));
    })

abbrev pub build_masque : (String → String) → String → Option MasqueState → Built
build_masque hash transport none = failed no_masque_state
build_masque hash transport (some m) = build_with hash transport (tidy m.ipv4) (tidy m.ipv6)

unfoldable pub build_rotation_fingerprint : (String → String) → AccountState → String → Built
build_rotation_fingerprint hash given name =
    let acc = Account.normalize given in
    let transport = tidy name in
    let pair = wireguard_addresses acc acc.wireguard in
    if transport == transport_wireguard
    then build_with hash transport (tidy pair.0) (tidy pair.1)
    else if transport == transport_masque
    then build_masque hash transport acc.masque
    else failed unsupported_transport

unfoldable pub normalize_rotation_distinctness : String → String
normalize_rotation_distinctness v = if tidy v == "" then "either" else tidy v

-- `maxInt(count, 1)`.
abbrev pub at_least_one : ℤ → ℕ
at_least_one c = if is_positive c then pos_part c else 1

pub record Tally : Type 0 where
  pub seen_count : ℕ
  pub seen_ipv4 : Bool
  pub seen_ipv6 : Bool

abbrev pub no_tally : Tally
no_tally = record { seen_count = 0; seen_ipv4 = false; seen_ipv6 = false }

-- One round of the loop over the entries.
unfoldable pub tally_entry : RotationFingerprint → RotationHistoryEntry → Tally → Tally
tally_entry fp e t =
    if e.transport == fp.transport
    then record {
      seen_count =
          if not (fp.fingerprint == "") && e.fingerprint == fp.fingerprint
          then (t.seen_count + at_least_one e.seen_count) % 2 ^ 64
          else t.seen_count;
      seen_ipv4 =
          if not (fp.ipv4_hash == "") && e.ipv4_hash == fp.ipv4_hash then true else t.seen_ipv4;
      seen_ipv6 =
          if not (fp.ipv6_hash == "") && e.ipv6_hash == fp.ipv6_hash then true else t.seen_ipv6;
    }
    else t

unfoldable pub tally : RotationFingerprint → List RotationHistoryEntry → Tally → Tally
tally fp [] t = t
tally fp (e ∷ rest) t = tally fp rest (tally_entry fp e t)

unfoldable pub qualify : String → Bool → Bool → Bool → Bool
qualify distinctness new_fingerprint new_ipv4 new_ipv6 =
    if distinctness == "ipv4"
    then new_ipv4
    else if distinctness == "ipv6"
    then new_ipv6
    else if distinctness == "both"
    then new_ipv4 && new_ipv6
    else new_ipv4 || new_ipv6 || new_fingerprint

unfoldable pub evaluate_rotation_novelty :
    RotationHistory → RotationFingerprint → String → RotationNovelty
evaluate_rotation_novelty given fp name =
    let history = normalize given in
    let distinctness = normalize_rotation_distinctness name in
    let t = tally fp history.entries no_tally in
    let seen = to_int t.seen_count in
    let new_ipv4 = not (fp.ipv4_hash == "") && not t.seen_ipv4 in
    let new_ipv6 = not (fp.ipv6_hash == "") && not t.seen_ipv6 in
    record {
      transport = fp.transport;
      distinctness = distinctness;
      fingerprint = fp.fingerprint;
      history_entries = length history.entries;
      seen_count = seen;
      exact_reuse = is_positive seen;
      new_fingerprint = is_zero seen;
      new_ipv4 = new_ipv4;
      new_ipv6 = new_ipv6;
      qualifies = qualify distinctness (is_zero seen) new_ipv4 new_ipv6;
    }

abbrev pub same_key : RotationFingerprint → RotationHistoryEntry → Bool
same_key fp e = e.transport == fp.transport && e.fingerprint == fp.fingerprint

-- An entry that is seen once more.
unfoldable pub touch : Time → RotationHistoryEntry → RotationHistoryEntry
touch observed_at e = record e {
  first_seen_at = if nat_eq e.first_seen_at 0 then observed_at else e.first_seen_at;
  last_seen_at = observed_at;
  seen_count = to_int ((at_least_one e.seen_count + 1) % 2 ^ 64);
}

-- The loop that updates the first entry of the fingerprint, `none` when it finds none.
unfoldable pub touch_first :
    RotationFingerprint → Time → List RotationHistoryEntry → Option (List RotationHistoryEntry)
touch_first fp observed_at [] = none
touch_first fp observed_at (e ∷ rest) =
    let later = touch_first fp observed_at rest in
    if same_key fp e then some (touch observed_at e ∷ rest) else Opt.map (λ es. e ∷ es) later

unfoldable pub new_entry : RotationFingerprint → Time → RotationHistoryEntry
new_entry fp observed_at = record {
  transport = fp.transport;
  fingerprint = fp.fingerprint;
  ipv4_hash = fp.ipv4_hash;
  ipv6_hash = fp.ipv6_hash;
  first_seen_at = observed_at;
  last_seen_at = observed_at;
  seen_count = pos 1;
}

unfoldable pub history_limit : ℤ → ℕ
history_limit max_entries =
    if is_positive max_entries then pos_part max_entries else default_rotation_history_size

abbrev pub trim_entries : ℕ → List RotationHistoryEntry → List RotationHistoryEntry
trim_entries n es = if ltb n (length es) then take n es else es

abbrev pub keep_or_add :
    Option (List RotationHistoryEntry) → List RotationHistoryEntry → List RotationHistoryEntry
keep_or_add none added = added
keep_or_add (some es) added = es

-- `now` is the clock, read when no time is given.
unfoldable pub remember_rotation_fingerprint :
    Time → RotationHistory → RotationFingerprint → Time → ℤ → RotationHistory
remember_rotation_fingerprint now given fp observed_at max_entries =
    let h = normalize given in
    let at = if nat_eq observed_at 0 then now else observed_at in
    record h {
      entries =
          keep_or_add (touch_first fp at h.entries)
            (trim_entries (history_limit max_entries) (new_entry fp at ∷ h.entries));
    }
