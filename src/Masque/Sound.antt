-- ===== src/Masque/Sound.antt =====
-- An open tunnel does not panic, keeps its channels within their room and loses no session.
use mathlib.Core.Path.{subst}
use Prim.Native.String.{len}
use cfwarp_cli.Prelude.{
  ℕ, suc, ◌≤◌, ◌≡◌, refl, sym, ap, ◌∙◌, Bool, true, false, String, some, List, [], ◌∷◌, ◌++◌,
  length, ltb, nat_eq, arith, if_elim, if_cases, if◌then◌else◌, ◌⊎◌, inl, inr,
}
use cfwarp_cli.State.Account.{Time}
use cfwarp_cli.Masque.{Outcome, opened, cancelled, gave_up}
use cfwarp_cli.Masque.Tunnel.{
  Event, Tunnel, Done, returned, panicked, ◌>>=◌, Read, read_bytes, read_error, Written, written,
  write_error, Dialing, emit, emit_all, close_session, set_bundle, connect_again, reconnect,
  record_read, record_write, read_again, read_session, read_from, read_packet, keep_answer,
  write_again, write_session, write_packet, close, closed,
}

-- A call that returns, with what holds of its result.
abbrev pub Returning : {A : Type 0} → (A → Type 0) → Done A → Type 0
Returning P (returned a) = P a
Returning P panicked = ⊥

bind-Returning :
    {A C : Type 0} (P : A → Type 0) (Q : C → Type 0) (x : Done A) (f : A → Done C)
    → Returning P x
    → ((a : A) → P a → Returning Q (f a))
    → Returning Q (x >>= f)
bind-Returning P Q (returned a) f p h = h a p
bind-Returning P Q panicked f p h = absurd p

map-Returning :
    {A : Type 0} (P Q : A → Type 0) (x : Done A)
    → Returning P x
    → ((a : A) → P a → Q a)
    → Returning Q x
map-Returning P Q (returned a) p h = h a p
map-Returning P Q panicked p h = p

length_snoc : {A : Type 0} (xs : List A) (x : A) → length (xs ++ x ∷ []) ≡ suc (length xs)
length_snoc [] x = refl
length_snoc (y ∷ xs) x = ap suc (length_snoc xs x)

module _ {B : Type 0} where
  -- The sessions that were dialed: the current one and the ones that were closed.
  abbrev pub sessions : Tunnel B → List B
  sessions t = close_session t.bundle t.closed_sessions

  -- An open tunnel with a session, the channels within their room.
  pub record IsSound (t : Tunnel B) : Type 0 where
    pub session : B
    pub current : t.bundle ≡ some session
    pub is_open : t.events_closed ≡ false
    pub events_fit : length t.events ≤ 16
    pub pending_fit : length t.pending_reads ≤ 8

  -- The tunnel is open and no session is lost.
  abbrev pub Keeping : Tunnel B → Tunnel B → Type 0
  Keeping t t' = IsSound t' × (sessions t' ≡ sessions t)

  -- The sessions that a dial gives.
  abbrev pub dialed : Outcome B → List B
  dialed (opened b) = b ∷ []
  dialed cancelled = []
  dialed gave_up = []

  longer :
      (t u : Tunnel B) (x : Done (Tunnel B))
      → sessions u ≡ sessions t
      → Returning (Keeping u) x
      → Returning (Keeping t) x
  longer t u (returned v) e k = (k.0, k.1 ∙ e)
  longer t u panicked e k = k

  added-Keeping :
      (ev : Event) (t : Tunnel B)
      → IsSound t
      → Keeping t
          (if ltb (length t.events) 16 then record t { events = t.events ++ ev ∷ [] } else t)
  added-Keeping ev t h =
      if_cases (Keeping t) (ltb (length t.events) 16)
        (λ room. (
          record {
            session = h.session;
            current = h.current;
            is_open = h.is_open;
            events_fit = ground (arith, length_snoc t.events ev, room);
            pending_fit = h.pending_fit;
          },
          refl,
        ))
        (λ full. (h, refl))

  emit-Keeping : (ev : Event) (t : Tunnel B) → IsSound t → Returning (Keeping t) (emit ev t)
  unfolding emit
  emit-Keeping ev t h =
      subst
        (λ b. Returning (Keeping t) (
          if b
          then panicked
          else returned
              (if ltb (length t.events) 16 then record t { events = t.events ++ ev ∷ [] } else t)))
        (sym h.is_open) (added-Keeping ev t h)

  emit_all-Keeping :
      (told : List Event) (t : Tunnel B) → IsSound t → Returning (Keeping t) (emit_all told t)
  unfolding emit_all
  emit_all-Keeping [] t h = (h, refl)
  emit_all-Keeping (ev ∷ rest) t h =
      bind-Returning (Keeping t) (Keeping t) (emit ev t) (emit_all rest) (emit-Keeping ev t h)
        (next (λ u k. emit_all-Keeping rest u k))
    where
      next :
          ((u : Tunnel B) → IsSound u → Returning (Keeping u) (emit_all rest u))
          → (u : Tunnel B) → Keeping t u
          → Returning (Keeping t) (emit_all rest u)
      next ih u k = longer t u (emit_all rest u) k.1 (ih u k.0)

  connected_IsSound : (b : B) (t : Tunnel B) → IsSound t → IsSound (set_bundle b t)
  unfolding set_bundle
  connected_IsSound b t h = record {
    session = b;
    current = refl;
    is_open = h.is_open;
    events_fit = h.events_fit;
    pending_fit = h.pending_fit;
  }

  connect_again-Growing :
      (now : Time) (outcome : Outcome B) (t : Tunnel B)
      → IsSound t
      → Returning
          (λ r. IsSound r.1 × (sessions r.1 ≡ dialed outcome ++ sessions t))
          (connect_again now outcome t)
  unfolding set_bundle
  connect_again-Growing now (opened b) t h =
      let ev : Event = record {
        at = now;
        level = "info";
        type = "reconnected";
        message = "MASQUE tunnel re-established";
      } in
      bind-Returning (Keeping (set_bundle b t)) (λ r. IsSound r.1 × (sessions r.1 ≡ b ∷ sessions t))
        (emit ev (set_bundle b t)) (λ t'. returned (true, t'))
        (emit-Keeping ev (set_bundle b t) (connected_IsSound b t h)) (λ u k. k)
  connect_again-Growing now cancelled t h = (h, refl)
  connect_again-Growing now gave_up t h = (h, refl)

  reconnect-Growing :
      (now : Time) (cause : String) (dialing : Dialing B) (t : Tunnel B)
      → IsSound t
      → Returning
          (λ r. IsSound r.1 × (sessions r.1 ≡ dialed dialing.outcome ++ sessions t))
          (reconnect now cause dialing t)
  unfolding reconnect
  reconnect-Growing now cause dialing t h =
      let ev : Event = record { at = now; level = "warn"; type = "reconnect"; message = cause } in
      let R = λ (r : Bool × Tunnel B).
        IsSound r.1 × (sessions r.1 ≡ dialed dialing.outcome ++ sessions t) in
      bind-Returning (Keeping t) R (emit ev t >>= emit_all dialing.told)
        (connect_again now dialing.outcome)
        (bind-Returning (Keeping t) (Keeping t) (emit ev t) (emit_all dialing.told)
          (emit-Keeping ev t h)
          (λ u k. longer t u (emit_all dialing.told u) k.1 (emit_all-Keeping dialing.told u k.0)))
        (λ u k.
          map-Returning (λ r. IsSound r.1 × (sessions r.1 ≡ dialed dialing.outcome ++ sessions u)) R
            (connect_again now dialing.outcome u) (connect_again-Growing now dialing.outcome u k.0)
            (λ r g. (g.0, g.1 ∙ ap (λ l. dialed dialing.outcome ++ l) k.1)))

  -- The tunnel is open, and its sessions are those it had, or one more that was dialed.
  abbrev pub Growing : {A : Type 0} → Dialing B → Tunnel B → A × Tunnel B → Type 0
  Growing dialing t r =
      IsSound r.1
      × ((sessions r.1 ≡ sessions t) ⊎ (sessions r.1 ≡ dialed dialing.outcome ++ sessions t))

  recorded_IsSound : (n : ℕ) (now : Time) (t : Tunnel B) → IsSound t → IsSound (record_read n now t)
  unfolding record_read
  recorded_IsSound n now t h = record {
    session = h.session;
    current = h.current;
    is_open = h.is_open;
    events_fit = h.events_fit;
    pending_fit = h.pending_fit;
  }

  read_again-Growing :
      (now : Time) (second : Read) (dialing : Dialing B) (t : Tunnel B) (r : Bool × Tunnel B)
      → IsSound r.1 × (sessions r.1 ≡ dialed dialing.outcome ++ sessions t)
      → Returning (Growing dialing t) (read_again now second r)
  unfolding record_read
  read_again-Growing now second dialing t (false, u) h = (h.0, inr h.1)
  read_again-Growing now (read_bytes n) dialing t (true, u) h =
      (recorded_IsSound n now u h.0, inr h.1)
  read_again-Growing now (read_error cause) dialing t (true, u) h = (h.0, inr h.1)

  read_session-Growing :
      (now : Time) (first : Read) (dialing : Dialing B) (second : Read) (b : B) (t : Tunnel B)
      → IsSound t
      → Returning (Growing dialing t) (read_session now first dialing second (some b) t)
  unfolding record_read
  read_session-Growing now (read_bytes n) dialing second b t h =
      (recorded_IsSound n now t h, inl refl)
  read_session-Growing now (read_error cause) dialing second b t h =
      bind-Returning (λ r. IsSound r.1 × (sessions r.1 ≡ dialed dialing.outcome ++ sessions t))
        (Growing dialing t) (reconnect now cause dialing t) (read_again now second)
        (reconnect-Growing now cause dialing t h) (read_again-Growing now second dialing t)

  shorter_IsSound :
      (p : String) (rest : List String) (t : Tunnel B)
      → t.pending_reads ≡ p ∷ rest
      → IsSound t
      → IsSound (record t { pending_reads = rest })
  shorter_IsSound p rest t e h = record {
    session = h.session;
    current = h.current;
    is_open = h.is_open;
    events_fit = h.events_fit;
    pending_fit = ground (arith, h.pending_fit, ap length e);
  }

  -- Reading from an open tunnel does not panic: it gives a packet or an error, the tunnel stays open
  -- with a session and its channels within their room, and its current and closed sessions are those
  -- it had, or these after the one that a dial gave.
  pub read_packet-IsSound :
      (size : ℕ) (now : Time) (first : Read) (dialing : Dialing B) (second : Read) (t : Tunnel B)
      → IsSound t
      → Returning (Growing dialing t) (read_packet size now first dialing second t)
  unfolding read_packet record_read
  read_packet-IsSound size now first dialing second t h = go t.pending_reads refl
    where
      go :
          (l : List String)
          → t.pending_reads ≡ l
          → Returning (Growing dialing t) (read_from size now first dialing second l t)
      go [] e =
          subst (λ b. Returning (Growing dialing t) (read_session now first dialing second b t))
            (sym h.current) (read_session-Growing now first dialing second h.session t h)
      go (p ∷ rest) e = (
        recorded_IsSound _ now (record t { pending_reads = rest }) (shorter_IsSound p rest t e h),
        inl refl,
      )

  kept_IsSound : (icmp : String) (t : Tunnel B) → IsSound t → IsSound (keep_answer icmp t)
  unfolding keep_answer
  kept_IsSound icmp t h = if_elim IsSound (nat_eq (len icmp) 0) h (
      if_cases IsSound (ltb (length t.pending_reads) 8)
        (λ room. record {
          session = h.session;
          current = h.current;
          is_open = h.is_open;
          events_fit = h.events_fit;
          pending_fit = ground (arith, length_snoc t.pending_reads icmp, room);
        })
        (λ full. h))

  kept_sessions : (icmp : String) (t : Tunnel B) → sessions (keep_answer icmp t) ≡ sessions t
  unfolding keep_answer
  kept_sessions icmp t =
      if_elim (λ (x : Tunnel B). sessions x ≡ sessions t) (nat_eq (len icmp) 0) refl
        (if_elim (λ (x : Tunnel B). sessions x ≡ sessions t) (ltb (length t.pending_reads) 8) refl
          refl)

  wrote_IsSound :
      (pkt : String) (now : Time) (icmp : String) (t : Tunnel B)
      → IsSound t
      → IsSound (record_write (len pkt) now (keep_answer icmp t))
  unfolding record_write
  wrote_IsSound pkt now icmp t h =
      let k = kept_IsSound icmp t h in
      record {
        session = k.session;
        current = k.current;
        is_open = k.is_open;
        events_fit = k.events_fit;
        pending_fit = k.pending_fit;
      }

  wrote-sessions :
      (pkt : String) (now : Time) (icmp : String) (t : Tunnel B)
      → sessions (record_write (len pkt) now (keep_answer icmp t)) ≡ sessions t
  unfolding record_write
  wrote-sessions pkt now icmp t = kept_sessions icmp t

  write_again-Growing :
      (pkt : String) (now : Time) (second : Written) (dialing : Dialing B) (t : Tunnel B)
      (r : Bool × Tunnel B)
      → IsSound r.1 × (sessions r.1 ≡ dialed dialing.outcome ++ sessions t)
      → Returning (Growing dialing t) (write_again pkt now second r)
  write_again-Growing pkt now second dialing t (false, u) h = (h.0, inr h.1)
  write_again-Growing pkt now (written icmp) dialing t (true, u) h =
      (wrote_IsSound pkt now icmp u h.0, inr (wrote-sessions pkt now icmp u ∙ h.1))
  write_again-Growing pkt now (write_error cause) dialing t (true, u) h = (h.0, inr h.1)

  write_session-Growing :
      (pkt : String) (now : Time) (first : Written) (dialing : Dialing B) (second : Written) (b : B)
      (t : Tunnel B)
      → IsSound t
      → Returning (Growing dialing t) (write_session pkt now first dialing second (some b) t)
  write_session-Growing pkt now (written icmp) dialing second b t h =
      (wrote_IsSound pkt now icmp t h, inl (wrote-sessions pkt now icmp t))
  write_session-Growing pkt now (write_error cause) dialing second b t h =
      bind-Returning (λ r. IsSound r.1 × (sessions r.1 ≡ dialed dialing.outcome ++ sessions t))
        (Growing dialing t) (reconnect now cause dialing t) (write_again pkt now second)
        (reconnect-Growing now cause dialing t h) (write_again-Growing pkt now second dialing t)

  -- Writing to an open tunnel does not panic: it reports an error or not, the tunnel stays open with a
  -- session and its channels within their room, and its current and closed sessions are those it had,
  -- or these after the one that a dial gave.
  pub write_packet-IsSound :
      (pkt : String) (now : Time) (first : Written) (dialing : Dialing B) (second : Written)
      (t : Tunnel B)
      → IsSound t
      → Returning (Growing dialing t) (write_packet pkt now first dialing second t)
  unfolding write_packet
  write_packet-IsSound pkt now first dialing second t h =
      subst (λ b. Returning (Growing dialing t) (write_session pkt now first dialing second b t))
        (sym h.current) (write_session-Growing pkt now first dialing second h.session t h)

  -- Closing an open tunnel returns, with every session closed; after it a reconnect, as a read or a
  -- write that is under way makes it when its session is gone, panics, and so do a write and another
  -- close.
  pub close-panics :
      (now : Time) (cause pkt : String) (first : Written) (dialing : Dialing B) (second : Written)
      (t : Tunnel B)
      → t.events_closed ≡ false
      → Returning
          (λ u.
            (u.closed_sessions ≡ sessions t)
            × (reconnect now cause dialing u ≡ panicked)
            × (write_packet pkt now first dialing second u ≡ panicked)
            × (close u ≡ panicked))
          (close t)
  unfolding close reconnect emit write_packet
  close-panics now cause pkt first dialing second t e =
      subst
        (λ b.
          Returning
            (λ u.
              (u.closed_sessions ≡ sessions t)
              × (reconnect now cause dialing u ≡ panicked)
              × (write_packet pkt now first dialing second u ≡ panicked)
              × (close u ≡ panicked))
            (if b then panicked else returned (closed t)))
        (sym e) (refl, refl, refl, refl)
