-- ===== src/Engine/Packets.antt =====
-- What the forwarders have carried.
use cfwarp_cli.Prelude.{
  ℕ, suc, ◌+◌, ◌%◌, ◌^◌, ◌≡◌, refl, ap, ◌∙◌, Bool, Option, none, some, List, [], ◌∷◌, ◌++◌, length,
  arith, if_elim, ltb,
}
use cfwarp_cli.Engine.{
  Position, ready, reading, writing, finished, failed, Forwarder, observe_read, observe_write,
  Report, Forward, leaves, begins, reads, read_fails, writes, write_fails, Engine, report_error,
  Step, stack_moves, tunnel_moves, is_received, closes, Reach, at_start, after,
}

-- The packet that was read and is not written: the one in the write, or lost by a failed write.
abbrev pub held : {P : Type 0} → Position P → List P
held ready = []
held reading = []
held (writing p) = p ∷ []
held finished = []
held (failed none) = []
held (failed (some p)) = p ∷ []

-- Packets leave in the order in which they came, and the counters count them.
pub record Carries {P : Type 0} (s : Forwarder P) : Type 0 where
  pub in_order : s.taken ≡ held s.position ++ s.given
  pub packets_read : s.counters.packets ≡ length s.taken % 2 ^ 64
  pub packets_written : s.counters.write_calls ≡ length s.given % 2 ^ 64

word_suc : (c n : ℕ) → c ≡ n % 2 ^ 64 → (c + 1) % 2 ^ 64 ≡ suc n % 2 ^ 64
word_suc c n e = omega (arith, e)

module _ {P : Type 0} (size : P → ℕ) where
  Forward-Carries :
      (c : Bool) (s t : Forwarder P) (r : Option Report)
      → Carries s
      → Forward size c s t r
      → Carries t
  unfolding observe_read observe_write
  Forward-Carries c s t r h (leaves e _) = record {
    in_order = h.in_order ∙ ap (λ x. held x ++ s.given) e;
    packets_read = h.packets_read;
    packets_written = h.packets_written;
  }
  Forward-Carries c s t r h (begins e _) = record {
    in_order = h.in_order ∙ ap (λ x. held x ++ s.given) e;
    packets_read = h.packets_read;
    packets_written = h.packets_written;
  }
  Forward-Carries c s t r h (reads p nanos now e) = record {
    in_order = ap (λ l. p ∷ l) (h.in_order ∙ ap (λ x. held x ++ s.given) e);
    packets_read = word_suc s.counters.packets (length s.taken) h.packets_read;
    packets_written = h.packets_written;
  }
  Forward-Carries c s t r h (read_fails e) = record {
    in_order = h.in_order ∙ ap (λ x. held x ++ s.given) e;
    packets_read = h.packets_read;
    packets_written = h.packets_written;
  }
  Forward-Carries c s t r h (writes p nanos e) = record {
    in_order = h.in_order ∙ ap (λ x. held x ++ s.given) e;
    packets_read = h.packets_read;
    packets_written = word_suc s.counters.write_calls (length s.given) h.packets_written;
  }
  Forward-Carries c s t r h (write_fails p e) = record {
    in_order = h.in_order ∙ ap (λ x. held x ++ s.given) e;
    packets_read = h.packets_read;
    packets_written = h.packets_written;
  }

  report_error-Carries :
      (r : Option Report) (e : Engine P)
      → Carries e.stack_to_tunnel × Carries e.tunnel_to_stack
      → Carries (report_error r e).stack_to_tunnel × Carries (report_error r e).tunnel_to_stack
  unfolding report_error
  report_error-Carries none e h = h
  report_error-Carries (some r) e h =
      if_elim (λ (x : Engine P). Carries x.stack_to_tunnel × Carries x.tunnel_to_stack)
        (ltb (length e.reports) 2) h h

  Step-Carries :
      (e e' : Engine P)
      → Carries e.stack_to_tunnel × Carries e.tunnel_to_stack
      → Step size e e'
      → Carries e'.stack_to_tunnel × Carries e'.tunnel_to_stack
  Step-Carries e e' h (stack_moves s r f) =
      report_error-Carries r (record e { stack_to_tunnel = s })
        (Forward-Carries e.cancelled e.stack_to_tunnel s r h.0 f, h.1)
  Step-Carries e e' h (tunnel_moves s r f) =
      report_error-Carries r (record e { tunnel_to_stack = s })
        (h.0, Forward-Carries e.cancelled e.tunnel_to_stack s r h.1 f)
  Step-Carries e e' h (is_received r rest q) = h
  Step-Carries e e' h closes = h

  -- In every engine that comes about, each forwarder has written the packets that it read, in their
  -- order, but for the one that it holds or lost by a failed write, and its counters are the numbers
  -- of packets read and written, modulo 2^64.
  pub Reach-Carries :
      (e : Engine P) → Reach size e → Carries e.stack_to_tunnel × Carries e.tunnel_to_stack
  Reach-Carries _ at_start = (
    record { in_order = refl; packets_read = refl; packets_written = refl },
    record { in_order = refl; packets_read = refl; packets_written = refl },
  )
  Reach-Carries _ (after e e' r s) = Step-Carries e e' (Reach-Carries e r) s
