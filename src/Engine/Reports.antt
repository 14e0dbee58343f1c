-- ===== src/Engine/Reports.antt =====
-- No report of a forwarder is lost, and a cancelled engine comes to rest.
use cfwarp_cli.Prelude.{
  ℕ, suc, ◌+◌, ◌<◌, ◌≤◌, ◌≡◌, refl, ap, Bool, true, Option, none, some, List, [], ◌∷◌, ◌++◌, length,
  arith,
}
use cfwarp_cli.Engine.{
  Position, ready, reading, writing, finished, failed, Forwarder, Report, Forward, leaves, begins,
  reads, read_fails, writes, write_fails, Engine, report_error, Step, stack_moves, tunnel_moves,
  is_received, closes, Reach, at_start, after,
}

abbrev pub failures : {P : Type 0} → Position P → ℕ
failures (failed p) = 1
failures ready = 0
failures reading = 0
failures (writing p) = 0
failures finished = 0

abbrev pub count : Option Report → ℕ
count none = 0
count (some r) = 1

length_snoc : (rs : List Report) (r : Report) → length (rs ++ r ∷ []) ≡ suc (length rs)
length_snoc [] r = refl
length_snoc (x ∷ rs) r = ap suc (length_snoc rs r)

module _ {P : Type 0} (size : P → ℕ) where
  -- A step reports an error exactly if the forwarder fails in it.
  Forward-failures :
      (c : Bool) (s t : Forwarder P) (r : Option Report)
      → Forward size c s t r
      → (failures s.position ≡ 0) × (failures t.position ≡ count r)
  Forward-failures c s t r (leaves e _) = ground (arith, e)
  Forward-failures c s t r (begins e _) = ground (arith, e)
  Forward-failures c s t r (reads p nanos now e) = ground (arith, e)
  Forward-failures c s t r (read_fails e) = ground (arith, e)
  Forward-failures c s t r (writes p nanos e) = ground (arith, e)
  Forward-failures c s t r (write_fails p e) = ground (arith, e)

  abbrev pub Accounted : Engine P → Type 0
  Accounted e =
      e.received + length e.reports
      ≡ failures e.stack_to_tunnel.position + failures e.tunnel_to_stack.position

  failures_small : (p : Position P) → failures p < 2
  failures_small p = ground arith

  -- A report for which there is room is counted, and moves no forwarder.
  report_error-count :
      (r : Option Report) (e : Engine P)
      → e.received + length e.reports + count r ≤ 2
      → ((report_error r e).received + length (report_error r e).reports
          ≡ e.received + length e.reports + count r)
        × ((report_error r e).stack_to_tunnel ≡ e.stack_to_tunnel)
        × ((report_error r e).tunnel_to_stack ≡ e.tunnel_to_stack)
  unfolding report_error
  report_error-count none e h = (omega arith, refl, refl)
  report_error-count (some r) e h = ground (arith, length_snoc e.reports r, h)

  Step-Accounted : (e e' : Engine P) → Accounted e → Step size e e' → Accounted e'
  unfolding report_error
  Step-Accounted e e' h (stack_moves s r f) =
      let counted = Forward-failures e.cancelled e.stack_to_tunnel s r f in
      let room : e.received + length e.reports + count r ≤ 2 = omega (
        arith,
        h,
        counted.0,
        counted.1,
        failures_small s.position,
        failures_small e.tunnel_to_stack.position,
      ) in
      let reported = report_error-count r (record e { stack_to_tunnel = s }) room in
      omega (
        arith,
        h,
        counted.0,
        counted.1,
        reported.0,
        ap (λ x. failures x.position) reported.1,
        ap (λ x. failures x.position) reported.2,
      )
  Step-Accounted e e' h (tunnel_moves s r f) =
      let counted = Forward-failures e.cancelled e.tunnel_to_stack s r f in
      let room : e.received + length e.reports + count r ≤ 2 = omega (
        arith,
        h,
        counted.0,
        counted.1,
        failures_small s.position,
        failures_small e.stack_to_tunnel.position,
      ) in
      let reported = report_error-count r (record e { tunnel_to_stack = s }) room in
      omega (
        arith,
        h,
        counted.0,
        counted.1,
        reported.0,
        ap (λ x. failures x.position) reported.1,
        ap (λ x. failures x.position) reported.2,
      )
  Step-Accounted e e' h (is_received r rest q) = ground (arith, h, q)
  Step-Accounted e e' h closes = h

  -- In every engine that comes about, the reports that were received and those that wait in the
  -- channel are as many as the forwarders that failed: the channel's room of two is enough.
  pub Reach-Accounted : (e : Engine P) → Reach size e → Accounted e
  Reach-Accounted _ at_start = refl
  Reach-Accounted _ (after e e' r s) = Step-Accounted e e' (Reach-Accounted e r) s

  -- The steps that a forwarder takes at most once the engine is cancelled.
  abbrev pub steps_left : Position P → ℕ
  steps_left ready = 1
  steps_left reading = 3
  steps_left (writing p) = 2
  steps_left finished = 0
  steps_left (failed p) = 0

  -- Once the engine is cancelled, every step of a forwarder brings it nearer to its return: it takes
  -- three steps at most.
  pub Forward-steps_left :
      (s t : Forwarder P) (r : Option Report)
      → Forward size true s t r
      → steps_left t.position < steps_left s.position
  Forward-steps_left s t r (leaves e _) = ground (arith, e)
  Forward-steps_left s t r (begins e c) = ground (arith, e, c)
  Forward-steps_left s t r (reads p nanos now e) = ground (arith, e)
  Forward-steps_left s t r (read_fails e) = ground (arith, e)
  Forward-steps_left s t r (writes p nanos e) = ground (arith, e)
  Forward-steps_left s t r (write_fails p e) = ground (arith, e)
