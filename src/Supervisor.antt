-- ===== src/Supervisor.antt =====
-- `Stop` and `IsRunning` of internal/supervisor/supervisor.go, for the process of one number. The
-- world is a type `W`; durations are in nanoseconds.
pub mod Gone
mod Tests
use Prim.Native.Nat.{◌+◌}
use cfwarp_cli.Prelude.{
  ℕ, zero, suc, Bool, true, false, ◌&&◌, Option, none, some, ℤ, is_positive, ltb, if◌then◌else◌,
}
use cfwarp_cli.State.Account.{Time}

-- The clock, and the calls on the process: `os.FindProcess`, signal 0, SIGTERM, SIGKILL and `Wait`.
pub record ProcessHost (W : Type 0) : Type 0 where
  pub now : W → Time × W
  pub sleep : ℕ → W → W
  pub finds : W → Bool
  pub answers : W → Bool
  pub terminate : W → Bool × W
  pub kill : W → W
  -- none when the call does not return: the process is a child, and does not exit.
  pub reap : W → Option W

abbrev pub stop_timeout : ℕ
stop_timeout = 5000000000

abbrev pub poll_interval : ℕ
poll_interval = 100000000

pub data Stopped : Type 0 where
  done : Stopped
  invalid_pid : Stopped

-- How a call ends: it returns, it uses up its fuel, or it blocks for ever.
pub data Answer (A : Type 0) : Type 0 where
  returned : A → Answer A
  out_of_fuel blocked : Answer A

abbrev pub Call : Type 0 → Type 0 → Type 0
Call W A = Answer A × W

module _ {W : Type 0} (host : ProcessHost W) where
  unfoldable pub is_running : ℤ → W → Bool
  is_running pid w = is_positive pid && (host.finds w && host.answers w)

  -- After a `Wait` on the world of a poll.
  abbrev pub reaped : ℤ → W → Option W → (W → Call W Bool) → Call W Bool
  reaped pid w none again = (blocked, w)
  reaped pid w (some w') again = if is_running pid w' then again w' else (returned true, w')

  -- The polls up to the deadline: whether the process is gone.
  unfoldable pub poll : ℕ → ℤ → Time → W → Call W Bool
  poll zero pid deadline w = (out_of_fuel, w)
  poll (suc fuel) pid deadline w =
      let (t, w1) = host.now w in
      if ltb t deadline
      then reaped pid w1 (host.reap w1) (λ w2. poll fuel pid deadline (host.sleep poll_interval w2))
      else (returned false, w1)

  -- The polls after the process was killed.
  unfoldable pub final_polls : ℕ → ℤ → W → W
  final_polls zero pid w = w
  final_polls (suc n) pid w =
      let w1 = host.sleep poll_interval w in
      let later = final_polls n pid w1 in if is_running pid w1 then later else w1

  -- After the second `Wait`, on the world of the kill.
  abbrev pub waited : ℤ → W → Option W → Call W Stopped
  waited pid w none = (blocked, w)
  waited pid w (some w') = (returned done, final_polls 30 pid w')

  abbrev pub force : ℤ → W → Call W Stopped
  force pid w = let killed = host.kill w in waited pid killed (host.reap killed)

  abbrev pub after_poll : ℤ → Call W Bool → Call W Stopped
  after_poll pid (out_of_fuel, w) = (out_of_fuel, w)
  after_poll pid (blocked, w) = (blocked, w)
  after_poll pid (returned true, w) = (returned done, w)
  after_poll pid (returned false, w) = force pid w

  -- What follows the SIGTERM, whose deadline is read first: a round for every nanosecond.
  unfoldable pub await : ℤ → W → Call W Stopped
  await pid w =
      let (t, w1) = host.now w in
      after_poll pid (poll (suc (suc stop_timeout)) pid (t + stop_timeout) w1)

  abbrev pub terminated : ℤ → Bool → W → Call W Stopped
  terminated pid false w = (returned done, w)
  terminated pid true w = await pid w

  unfoldable pub stop : ℤ → W → Call W Stopped
  stop pid w =
      if is_positive pid
      then if is_running pid w
        then if host.finds w
          then terminated pid (host.terminate w).0 (host.terminate w).1
          else (returned done, w)
        else (returned done, w)
      else (returned invalid_pid, w)
