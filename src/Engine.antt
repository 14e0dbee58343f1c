-- ===== src/Engine.antt =====
-- internal/dataplane/engine/engine.go: the two forwarders between the network stack and the tunnel,
-- their counters and their reports, as steps that interleave. `P` is a packet, `size` its length.
pub mod Reports
pub mod Packets
mod Tests
use Prim.Native.Nat.{◌+◌, ◌%◌, ◌^◌}
use cfwarp_cli.Prelude.{
  ℕ, ◌≡◌, Bool, true, false, Option, none, some, List, [], ◌∷◌, ◌++◌, length, ltb, ℤ, is_positive,
  pos, if◌then◌else◌,
}
use cfwarp_cli.State.Account.{Time}

-- `MTU` of the engine's buffers.
unfoldable pub buffer_size : ℤ → ℤ
buffer_size mtu = if is_positive mtu then mtu else pos 1500

-- `pathCounters`: 64-bit words, and the time of the last packet.
pub record PathCounters : Type 0 where
  pub packets : ℕ
  pub bytes : ℕ
  pub read_calls : ℕ
  pub read_nanos : ℕ
  pub write_calls : ℕ
  pub write_nanos : ℕ
  pub last_packet : Time

abbrev pub add_word : ℕ → ℕ → ℕ
add_word a b = (a + b) % 2 ^ 64

unfoldable pub observe_read : ℕ → ℕ → Time → PathCounters → PathCounters
observe_read n nanos now c = record c {
  read_calls = add_word c.read_calls 1;
  read_nanos = add_word c.read_nanos nanos;
  packets = add_word c.packets 1;
  bytes = add_word c.bytes n;
  last_packet = now;
}

unfoldable pub observe_write : ℕ → PathCounters → PathCounters
observe_write nanos c = record c {
  write_calls = add_word c.write_calls 1;
  write_nanos = add_word c.write_nanos nanos;
}

-- Where a forwarder stands in its loop: before the look at the context, in the read, in the write of
-- a packet, or returned, after the context was done or with an error and the packet it held.
pub data Position (P : Type 0) : Type 0 where
  ready : Position P
  reading : Position P
  writing : P → Position P
  finished : Position P
  failed : Option P → Position P

-- A forwarder, and the packets that it has read and written, the last one first.
pub record Forwarder (P : Type 0) : Type 0 where
  pub position : Position P
  pub counters : PathCounters
  pub taken : List P
  pub given : List P

pub data Report : Type 0 where
  read_failed : Report
  write_failed : Report

-- One step of `forwardStackToTunnel`, or of `forwardTunnelToStack`, and what it reports.
pub data Forward {P : Type 0} (size : P → ℕ) (cancelled : Bool) (s : Forwarder P)
    : Forwarder P → Option Report → Type 0 where
  leaves :
      s.position ≡ ready
      → cancelled ≡ true
      → Forward size cancelled s (record s { position = finished }) none
  begins :
      s.position ≡ ready
      → cancelled ≡ false
      → Forward size cancelled s (record s { position = reading }) none
  reads :
      (p : P) (nanos : ℕ) (now : Time)
      → s.position ≡ reading
      → Forward size cancelled s
          (record s {
            position = writing p;
            counters = observe_read (size p) nanos now s.counters;
            taken = p ∷ s.taken;
          })
          none
  read_fails :
      s.position ≡ reading
      → Forward size cancelled s (record s { position = failed none }) (some read_failed)
  writes :
      (p : P) (nanos : ℕ)
      → s.position ≡ writing p
      → Forward size cancelled s
          (record s {
            position = ready;
            counters = observe_write nanos s.counters;
            given = p ∷ s.given;
          })
          none
  write_fails :
      (p : P)
      → s.position ≡ writing p
      → Forward size cancelled s (record s { position = failed (some p) }) (some write_failed)

-- The engine: `reports` is what `errCh` holds, with room for two, and `received` counts what was
-- taken from it.
pub record Engine (P : Type 0) : Type 0 where
  pub stack_to_tunnel : Forwarder P
  pub tunnel_to_stack : Forwarder P
  pub cancelled : Bool
  pub reports : List Report
  pub received : ℕ

unfoldable pub report_error : {P : Type 0} → Option Report → Engine P → Engine P
report_error none e = e
report_error (some r) e =
    if ltb (length e.reports) 2 then record e { reports = e.reports ++ r ∷ [] } else e

-- What `Close` returns for the errors of the stack and of the tunnel; the first call cancels.
pub data CloseError : Type 0 where
  already_closed : CloseError
  close_failed : ℕ → CloseError

abbrev pub kept_error : Option CloseError → Option CloseError
kept_error none = none
kept_error (some already_closed) = none
kept_error (some (close_failed n)) = some (close_failed n)

unfoldable pub close_error : Option CloseError → Option CloseError → Option CloseError
close_error stack tunnel = first_error (kept_error stack) (kept_error tunnel)
  where
    first_error : Option CloseError → Option CloseError → Option CloseError
    first_error none other = other
    first_error (some e) other = some e

pub data Step {P : Type 0} (size : P → ℕ) (e : Engine P) : Engine P → Type 0 where
  stack_moves :
      (s : Forwarder P) (r : Option Report)
      → Forward size e.cancelled e.stack_to_tunnel s r
      → Step size e (report_error r (record e { stack_to_tunnel = s }))
  tunnel_moves :
      (s : Forwarder P) (r : Option Report)
      → Forward size e.cancelled e.tunnel_to_stack s r
      → Step size e (report_error r (record e { tunnel_to_stack = s }))
  is_received :
      (r : Report) (rest : List Report)
      → e.reports ≡ r ∷ rest
      → Step size e (record e { reports = rest; received = e.received + 1 })
  closes : Step size e (record e { cancelled = true })

abbrev pub no_counters : PathCounters
no_counters = record {
  packets = 0;
  bytes = 0;
  read_calls = 0;
  read_nanos = 0;
  write_calls = 0;
  write_nanos = 0;
  last_packet = 0;
}

abbrev pub started : {P : Type 0} → Forwarder P
started = record { position = ready; counters = no_counters; taken = []; given = [] }

-- `New` and `Start`.
abbrev pub new_engine : {P : Type 0} → Engine P
new_engine = record {
  stack_to_tunnel = started;
  tunnel_to_stack = started;
  cancelled = false;
  reports = [];
  received = 0;
}

-- The engines that come about.
pub data Reach {P : Type 0} (size : P → ℕ) : Engine P → Type 0 where
  at_start : Reach size new_engine
  after : (e e' : Engine P) → Reach size e → Step size e e' → Reach size e'
