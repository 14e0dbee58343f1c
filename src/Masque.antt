-- ===== src/Masque.antt =====
-- The first dial of internal/transport/masque/transport.go. Durations are 64-bit counts of
-- nanoseconds that wrap around. What an attempt to dial gives, and whether the wait after it ends
-- before the context does, are arguments.
pub mod Backoff
pub mod Tunnel
pub mod Endpoint
pub mod Connect
pub mod Dial
pub mod Pinned
pub mod Tidy
pub mod Sound
mod DialTests
mod Tests
use cfwarp_cli.Prelude.{
  to_int, to_word, ℕ, zero, suc, ◌+◌, ◌-◌, ◌*◌, ◌%◌, ◌^◌, Bool, true, false, not, List, [], ◌∷◌, ℤ,
  pos, is_positive, is_above, pos_part, if◌then◌else◌,
}

abbrev pub default_reconnect_delay : ℤ
default_reconnect_delay = pos 1000000000

abbrev pub max_startup_backoff : ℤ
max_startup_backoff = pos 5000000000

-- `delay *= 2`.
unfoldable pub double_delay : ℤ → ℤ
double_delay delay = to_int ((2 * to_word delay) % 2 ^ 64)

-- The loop, with the rounds that are left.
unfoldable pub backoff_rounds : ℕ → ℤ → ℤ
backoff_rounds zero delay = if is_above delay 5000000000 then max_startup_backoff else delay
backoff_rounds (suc k) delay =
    let doubled = double_delay delay in
    let rest = backoff_rounds k doubled in
    if is_above doubled 4999999999 then max_startup_backoff else rest

unfoldable pub first_delay : ℤ → ℤ
first_delay reconnect_delay =
    let delay = if is_positive reconnect_delay then reconnect_delay else default_reconnect_delay in
    if is_above delay 1999999999 then delay else pos 2000000000

unfoldable pub startup_backoff : ℤ → ℕ → ℤ
startup_backoff reconnect_delay attempt = backoff_rounds (attempt - 1) (first_delay reconnect_delay)

pub data Dialed {ℓ} (B : Type ℓ) : Type ℓ where
  connected : B → Dialed B
  refused : Dialed B

pub data Outcome {ℓ} (B : Type ℓ) : Type ℓ where
  opened : B → Outcome B
  cancelled : Outcome B
  gave_up : Outcome B

-- The outcome, and the waits before the attempts that were repeated.
pub record Run {ℓ} (B : Type ℓ) : Type ℓ where
  pub outcome : Outcome B
  pub waits : List ℤ

-- After the last attempt, and after one that others may follow.
abbrev pub last_run {ℓ} : {B : Type ℓ} → Dialed B → Run B
last_run (connected b) = record { outcome = opened b; waits = [] }
last_run refused = record { outcome = gave_up; waits = [] }

abbrev pub run_on {ℓ} : {B : Type ℓ} → Dialed B → Bool → ℤ → Run B → Run B
run_on (connected b) in_time backoff rest = record { outcome = opened b; waits = [] }
run_on refused true backoff rest = record { outcome = rest.outcome; waits = backoff ∷ rest.waits }
run_on refused false backoff rest = record { outcome = cancelled; waits = backoff ∷ [] }

module _ {ℓ} {B : Type ℓ} (reconnect_delay : ℤ) (dial : ℕ → Dialed B) (in_time : ℕ → Bool) where
  -- The loop at an attempt, with the number of attempts that may still follow.
  unfoldable pub retry : ℕ → ℕ → Run B
  retry zero attempt = last_run (dial attempt)
  retry (suc k) attempt =
      run_on (dial attempt) (in_time attempt) (startup_backoff reconnect_delay attempt)
        (retry k (attempt + 1))

  unfoldable pub dial_with_retry : ℤ → Run B
  dial_with_retry attempts = retry ((if is_positive attempts then pos_part attempts else 1) - 1) 1
