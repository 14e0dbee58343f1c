-- ===== src/Engine/Tests.antt =====
-- An engine whose stack forwarder reads a packet, cannot write it and reports that.
use cfwarp_cli.Prelude.{ℕ, ◌<◌, refl, [], ◌∷◌, some, none}
use cfwarp_cli.Engine.{
  Engine, new_engine, Reach, at_start, after, stack_moves, begins, reads, write_fails, reading,
  writing, failed, Forwarder, observe_read, no_counters, write_failed, report_error, started,
}
use cfwarp_cli.Engine.Reports.{Accounted, Reach-Accounted, steps_left, Forward-steps_left}
use cfwarp_cli.Engine.Packets.{Carries, Reach-Carries}

abbrev size : ℕ → ℕ
size p = p

abbrev forwarder_1 : Forwarder ℕ
forwarder_1 = record started { position = reading }

abbrev forwarder_2 : Forwarder ℕ
forwarder_2 = record forwarder_1 {
  position = writing 40;
  counters = observe_read (size 40) 5 9 no_counters;
  taken = 40 ∷ [];
}

abbrev forwarder_3 : Forwarder ℕ
forwarder_3 = record forwarder_2 { position = failed (some 40) }

abbrev engine_1 : Engine ℕ
engine_1 = report_error none (record new_engine { stack_to_tunnel = forwarder_1 })

abbrev engine_2 : Engine ℕ
engine_2 = report_error none (record engine_1 { stack_to_tunnel = forwarder_2 })

abbrev engine_3 : Engine ℕ
engine_3 = report_error (some write_failed) (record engine_2 { stack_to_tunnel = forwarder_3 })

reached : Reach size engine_3
unfolding report_error
reached =
    after engine_2 engine_3
      (after engine_1 engine_2
        (after new_engine engine_1 at_start (stack_moves forwarder_1 none (begins refl refl)))
        (stack_moves forwarder_2 none (reads 40 5 9 refl)))
      (stack_moves forwarder_3 (some write_failed) (write_fails 40 refl))

Reach-Accounted_example : Accounted size engine_3
Reach-Accounted_example = Reach-Accounted size engine_3 reached

Reach-Carries_example : Carries engine_3.stack_to_tunnel × Carries engine_3.tunnel_to_stack
Reach-Carries_example = Reach-Carries size engine_3 reached

Forward-steps_left_example :
    steps_left size forwarder_3.position < steps_left size forwarder_2.position
Forward-steps_left_example =
    Forward-steps_left size forwarder_2 forwarder_3 (some write_failed) (write_fails 40 refl)
