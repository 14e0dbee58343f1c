-- ===== src/State/Runtime/Laws.antt =====
-- `Normalize` of the runtime state, and states that are stored and read back.
use cfwarp_cli.Prelude.{
  ◌≡◌, ◌≢◌, not, ◌||◌, refl, ap, false, ◌==◌, eq_iff, String, arith, is_zero, is_positive, to_lower,
  to_lower_idem, if_elim, if◌then◌else◌,
}
use cfwarp_cli.State.Settings.Normal.Selection.{to_lower-infer, fill_family, fill_transport}
use cfwarp_cli.State.Runtime.{
  RuntimeState, lower_runtime, settle_phase, fill_runtime, initial_phase, normalize, marshal,
  unmarshal,
}

fill_runtime_lem :
    (r : RuntimeState)
    → fill_runtime r ≡ record r {
      runtime_family = fill_family r.backend r.runtime_family;
      transport = fill_transport r.backend r.transport;
    }
unfolding fill_runtime fill_family fill_transport
fill_runtime_lem r = ground arith

initial_phase-lowered : (r : RuntimeState) → to_lower (initial_phase r) ≡ initial_phase r
unfolding initial_phase to_lower
initial_phase-lowered r =
    if_elim (λ p. to_lower p ≡ p) (is_positive r.pid) refl
      (if_elim (λ p. to_lower p ≡ p)
        (not (r.last_error == "") || not (r.last_transport_error == "")) {x = "stopped"}
        {y = "idle"} refl refl)

initial_phase-ne-nil : (r : RuntimeState) → initial_phase r ≢ ""
unfolding initial_phase
initial_phase-ne-nil r e =
    ground (arith, eq_iff "connected" "", eq_iff "stopped" "", eq_iff "idle" "")

to_lower-fill_family :
    (b f : String) → to_lower f ≡ f → to_lower (fill_family b f) ≡ fill_family b f
unfolding fill_family
to_lower-fill_family b f h = if_elim (λ p. to_lower p ≡ p) (f == "") (to_lower-infer b).0 h

to_lower-fill_transport :
    (b f : String) → to_lower f ≡ f → to_lower (fill_transport b f) ≡ fill_transport b f
unfolding fill_transport
to_lower-fill_transport b f h = if_elim (λ p. to_lower p ≡ p) (f == "") (to_lower-infer b).1 h

fill_family_idem : (b f : String) → fill_family b (fill_family b f) ≡ fill_family b f
unfolding fill_family
fill_family_idem b f = ground (arith, eq_iff f "")

fill_transport_idem : (b f : String) → fill_transport b (fill_transport b f) ≡ fill_transport b f
unfolding fill_transport
fill_transport_idem b f = ground (arith, eq_iff f "")

-- What `Normalize` leaves.
record IsNormal (r : RuntimeState) : Type 0 where
  versioned : is_zero r.schema_version ≡ false
  lowered :
      (to_lower r.backend ≡ r.backend)
      × (to_lower r.runtime_family ≡ r.runtime_family)
      × (to_lower r.transport ≡ r.transport)
      × (to_lower r.mode ≡ r.mode)
      × (to_lower r.phase ≡ r.phase)
  family_filled : fill_family r.backend r.runtime_family ≡ r.runtime_family
  transport_filled : fill_transport r.backend r.transport ≡ r.transport
  mode_given : r.mode ≢ ""
  phase_given : r.phase ≢ ""

normalize_fixed : (r : RuntimeState) → IsNormal r → normalize r ≡ r
unfolding normalize settle_phase lower_runtime
normalize_fixed r h = rw fill_runtime_lem (
    ground (
      arith,
      h.versioned,
      h.lowered,
      h.family_filled,
      h.transport_filled,
      h.mode_given,
      h.phase_given,
      eq_iff r.mode "",
      eq_iff r.phase "",
    ))

normalize_lem :
    (r : RuntimeState)
    → let l = lower_runtime r in
      normalize r
      ≡ settle_phase (record l {
        runtime_family = fill_family l.backend l.runtime_family;
        transport = fill_transport l.backend l.transport;
      })
unfolding normalize
normalize_lem r = ap settle_phase (fill_runtime_lem (lower_runtime r))

settled_mode :
    (m : String)
    → to_lower m ≡ m
    → to_lower (if m == "" then "socks5" else m) ≡ (if m == "" then "socks5" else m)
unfolding to_lower
settled_mode m h = if_elim (λ x. to_lower x ≡ x) (m == "") refl h

given_or : (m d : String) → d ≢ "" → (if m == "" then d else m) ≢ ""
given_or m d h e = ground (arith, h, e, eq_iff m "")

normalize-IsNormal : (r : RuntimeState) → IsNormal (normalize r)
unfolding settle_phase lower_runtime
normalize-IsNormal r = rw normalize_lem (record {
  versioned = ground arith;
  lowered = (
    to_lower_idem r.backend,
    to_lower-fill_family (to_lower r.backend) (to_lower r.runtime_family)
        (to_lower_idem r.runtime_family),
    to_lower-fill_transport (to_lower r.backend) (to_lower r.transport) (to_lower_idem r.transport),
    settled_mode (to_lower r.mode) (to_lower_idem r.mode),
    if_elim (λ x. to_lower x ≡ x) (to_lower r.phase == "") (initial_phase-lowered _)
        (to_lower_idem r.phase),
  );
  family_filled = fill_family_idem (to_lower r.backend) (to_lower r.runtime_family);
  transport_filled = fill_transport_idem (to_lower r.backend) (to_lower r.transport);
  mode_given = given_or (to_lower r.mode) "socks5" (λ e. ground (arith, eq_iff "socks5" "", e));
  phase_given = given_or (to_lower r.phase) _ (initial_phase-ne-nil _);
})

-- A runtime state that is written to its file is read back as `Normalize` leaves it.
pub unmarshal-marshal_runtime : (r : RuntimeState) → unmarshal (marshal r) ≡ normalize r
unfolding unmarshal marshal
unmarshal-marshal_runtime r = normalize_fixed (normalize r) (normalize-IsNormal r)

pub normalize_idem : (r : RuntimeState) → normalize (normalize r) ≡ normalize r
normalize_idem r = normalize_fixed (normalize r) (normalize-IsNormal r)

-- What `Normalize` leaves as it is.
pub normalize-kept : (r : RuntimeState) → (normalize r).service_socket_path ≡ r.service_socket_path
unfolding settle_phase lower_runtime
normalize-kept r = rw normalize_lem refl

module _ (r : RuntimeState) where
  pub normalize-diagnostics : (normalize r).diagnostics ≡ r.diagnostics
  unfolding settle_phase lower_runtime
  normalize-diagnostics = rw normalize_lem refl

  pub normalize-last_transport_error : (normalize r).last_transport_error ≡ r.last_transport_error
  unfolding settle_phase lower_runtime
  normalize-last_transport_error = rw normalize_lem refl

  pub normalize-selected :
      ((normalize r).selected_address_fam ≡ r.selected_address_fam)
      × ((normalize r).selected_endpoint ≡ r.selected_endpoint)
  unfolding settle_phase lower_runtime
  normalize-selected = rw normalize_lem (refl, refl)

  -- A phase in lower case stays.
  pub normalize-phase : to_lower r.phase ≡ r.phase → r.phase ≢ "" → (normalize r).phase ≡ r.phase
  unfolding settle_phase lower_runtime
  normalize-phase h given = rw normalize_lem (ground (arith, h, given, eq_iff r.phase ""))
