-- ===== src/Masque/Backoff.antt =====
-- The waits between the attempts of the first dial.
use cfwarp_cli.Prelude.{
  ℕ, zero, suc, ◌+◌, ◌-◌, ◌*◌, ◌^◌, ◌≤◌, ◌<◌, ◌≡◌, Bool, true, false, ℤ, pos, negsuc, is_positive,
  is_above, pos_part, length, All, arith, if◌then◌else◌, if_cases,
}
use cfwarp_cli.Masque.{
  double_delay, backoff_rounds, first_delay, startup_backoff, Dialed, connected, refused, Run,
  last_run, run_on, retry, dial_with_retry,
}

-- From two seconds to five.
abbrev pub IsBackoff : ℤ → Type 0
IsBackoff (pos n) = (2000000000 ≤ n) × (n ≤ 5000000000)
IsBackoff (negsuc n) = ⊥

-- A delay of two seconds or more that can be doubled.
abbrev IsDelay : ℤ → Type 0
IsDelay (pos n) = (2000000000 ≤ n) × (n < 2 ^ 62)
IsDelay (negsuc n) = ⊥

double_delay-pos : (n : ℕ) → n < 2 ^ 62 → double_delay (pos n) ≡ pos (2 * n)
unfolding double_delay
double_delay-pos n h = ground arith

backoff_rounds-IsBackoff : (k : ℕ) (delay : ℤ) → IsDelay delay → IsBackoff (backoff_rounds k delay)
unfolding backoff_rounds
backoff_rounds-IsBackoff zero (pos n) h =
    if_cases IsBackoff (is_above (pos n) 5000000000) (λ e. (omega arith, omega arith))
      (λ e. (h.0, ground (arith, e)))
backoff_rounds-IsBackoff zero (negsuc n) h = elim h [ ]
backoff_rounds-IsBackoff (suc k) (pos n) h = rw (double_delay-pos n h.1) (
    if_cases IsBackoff (is_above (pos (2 * n)) 4999999999) (λ e. (omega arith, omega arith))
      (λ e. backoff_rounds-IsBackoff k (pos (2 * n)) (omega (arith, h.0), ground (arith, e))))
backoff_rounds-IsBackoff (suc k) (negsuc n) h = elim h [ ]

-- A delay that is configured, if it is positive, is less than 2^62 nanoseconds.
abbrev pub IsShort : ℤ → Type 0
IsShort (pos n) = n < 2 ^ 62
IsShort (negsuc n) = Unit

first_delay-IsDelay : (d : ℤ) → IsShort d → IsDelay (first_delay d)
unfolding first_delay
first_delay-IsDelay (negsuc n) h = (omega arith, omega arith)
first_delay-IsDelay (pos n) h =
    if_cases IsDelay (is_above (if is_positive (pos n) then pos n else pos 1000000000) 1999999999)
      (if_cases (λ d. is_above d 1999999999 ≡ true → IsDelay d) (is_positive (pos n))
        (λ p e. (ground (arith, e), h)) (λ p e. ground (arith, e)))
      (λ e. (omega arith, omega arith))

startup_backoff-IsBackoff :
    (d : ℤ) (attempt : ℕ) → IsShort d → IsBackoff (startup_backoff d attempt)
unfolding startup_backoff
startup_backoff-IsBackoff d attempt h =
    backoff_rounds-IsBackoff (attempt - 1) (first_delay d) (first_delay-IsDelay d h)

-- At most `k` waits, each of two to five seconds.
abbrev pub IsPaced {ℓ} : {B : Type ℓ} → ℕ → Run B → Type 0
IsPaced k run = All IsBackoff run.waits × (length run.waits ≤ k)

last_run-IsPaced {ℓ} : {B : Type ℓ} (r : Dialed B) → IsPaced 0 (last_run r)
last_run-IsPaced (connected b) = (tt, omega arith)
last_run-IsPaced refused = (tt, omega arith)

run_on-IsPaced {ℓ} :
    {B : Type ℓ} (k : ℕ) (r : Dialed B) (in_time : Bool) (backoff : ℤ) (rest : Run B)
    → IsBackoff backoff
    → IsPaced k rest
    → IsPaced (suc k) (run_on r in_time backoff rest)
run_on-IsPaced k (connected b) in_time backoff rest w h = (tt, omega arith)
run_on-IsPaced k refused true backoff rest w h = ((w, h.0), omega (arith, h.1))
run_on-IsPaced k refused false backoff rest w h = ((w, tt), omega arith)

module _ {ℓ} {B : Type ℓ} (d : ℤ) (dial : ℕ → Dialed B) (in_time : ℕ → Bool) where
  retry-IsPaced : (k attempt : ℕ) → IsShort d → IsPaced k (retry d dial in_time k attempt)
  unfolding retry
  retry-IsPaced zero attempt short = last_run-IsPaced (dial attempt)
  retry-IsPaced (suc k) attempt short =
      run_on-IsPaced k (dial attempt) (in_time attempt) (startup_backoff d attempt)
        (retry d dial in_time k (attempt + 1)) (startup_backoff-IsBackoff d attempt short)
        (retry-IsPaced k (attempt + 1) short)

  -- Whatever the attempts to dial give, the first dial waits less often than it may try, and each
  -- wait lasts from two to five seconds, as long as the delay that is configured is less than 2^62
  -- nanoseconds.
  pub dial_with_retry-IsPaced :
      (attempts : ℤ)
      → IsShort d
      → IsPaced
          ((if is_positive attempts then pos_part attempts else 1) - 1)
          (dial_with_retry d dial in_time attempts)
  unfolding dial_with_retry
  dial_with_retry-IsPaced attempts short = retry-IsPaced _ 1 short
