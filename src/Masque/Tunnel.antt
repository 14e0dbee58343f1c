-- ===== src/Masque/Tunnel.antt =====
-- internal/transport/masque/transport.go: the tunnel after its first dial. What the session answers
-- and what a dial gives are arguments; a packet is a string of bytes. A send on a closed channel, the
-- close of one and the use of a missing session are panics.
use Prim.Native.Nat.{◌+◌, ◌%◌, ◌^◌, min}
use Prim.Native.String.{len}
use cfwarp_cli.Prelude.{
  ℕ, Bool, true, false, String, ◌==◌, Option, none, some, List, [], ◌∷◌, ◌++◌, length, ltb, nat_eq,
  ℤ, pos, is_zero, if◌then◌else◌,
}
use cfwarp_cli.State.Account.{Time}
use cfwarp_cli.State.Runtime.{TransportStatsSnapshot}
use cfwarp_cli.Masque.{Outcome, opened, cancelled, gave_up, default_reconnect_delay}

-- `transport.MasqueConfig` of internal/transport/transport.go; durations in nanoseconds.
pub record MasqueConfig : Type 0 where
  pub private_key_der_base64 : String
  pub endpoint_pub_key_pem : String
  pub endpoint_v4 : String
  pub endpoint_v6 : String
  pub connect_uri : String
  pub sni : String
  pub connect_port : ℤ
  pub use_ipv6 : Bool
  pub initial_packet_size : ℕ
  pub keep_alive_period : ℤ
  pub reconnect_delay : ℤ

unfoldable pub with_defaults : MasqueConfig → MasqueConfig
with_defaults c = record c {
  sni = if c.sni == "" then "consumer-masque.cloudflareclient.com" else c.sni;
  connect_uri = if c.connect_uri == "" then "https://cloudflareaccess.com" else c.connect_uri;
  connect_port = if is_zero c.connect_port then pos 443 else c.connect_port;
  initial_packet_size = if nat_eq c.initial_packet_size 0 then 1242 else c.initial_packet_size;
  keep_alive_period = if is_zero c.keep_alive_period then pos 30000000000 else c.keep_alive_period;
  reconnect_delay =
      if is_zero c.reconnect_delay then default_reconnect_delay else c.reconnect_delay;
}

-- `transport.Event`.
pub record Event : Type 0 where
  pub at : Time
  pub level : String
  pub type : String
  pub message : String

-- The tunnel, its channels with what they hold. `closed_sessions` are the sessions on which `Close`
-- was called.
pub record Tunnel (B : Type 0) : Type 0 where
  pub bundle : Option B
  pub closed_sessions : List B
  pub stats : TransportStatsSnapshot
  pub events : List Event
  pub events_closed : Bool
  pub pending_reads : List String

pub data Done (A : Type 0) : Type 0 where
  returned : A → Done A
  panicked : Done A

infixl 5 ◌>>=◌
abbrev pub ◌>>=◌ : {A B : Type 0} → Done A → (A → Done B) → Done B
◌>>=◌ (returned a) f = f a
◌>>=◌ panicked f = panicked

-- The session's answers, and what a dial gives with the events that it tells.
pub data Read : Type 0 where
  read_bytes : ℕ → Read
  read_error : String → Read

pub data Written : Type 0 where
  written : String → Written
  write_error : String → Written

pub record Dialing (B : Type 0) : Type 0 where
  pub outcome : Outcome B
  pub told : List Event

abbrev pub drop_first : List Event → List Event
drop_first [] = []
drop_first (ev ∷ rest) = rest

module _ {B : Type 0} where
  unfoldable pub emit : Event → Tunnel B → Done (Tunnel B)
  emit ev t =
      if t.events_closed
      then panicked
      else returned
          (if ltb (length t.events) 16 then record t { events = t.events ++ ev ∷ [] } else t)

  unfoldable pub emit_all : List Event → Tunnel B → Done (Tunnel B)
  emit_all [] t = returned t
  emit_all (ev ∷ rest) t = emit ev t >>= emit_all rest

  abbrev pub close_session : Option B → List B → List B
  close_session none closed = closed
  close_session (some b) closed = b ∷ closed

  unfoldable pub set_bundle : B → Tunnel B → Tunnel B
  set_bundle b t = record t {
    bundle = some b;
    closed_sessions = close_session t.bundle t.closed_sessions;
  }

  -- Whether the tunnel is connected again.
  abbrev pub connect_again : Time → Outcome B → Tunnel B → Done (Bool × Tunnel B)
  connect_again now (opened b) t =
      emit
        (record {
          at = now;
          level = "info";
          type = "reconnected";
          message = "MASQUE tunnel re-established";
        })
        (set_bundle b t)
      >>= λ t'. returned (true, t')
  connect_again now cancelled t = returned (false, t)
  connect_again now gave_up t = returned (false, t)

  unfoldable pub reconnect : Time → String → Dialing B → Tunnel B → Done (Bool × Tunnel B)
  reconnect now cause dialing t =
      emit (record { at = now; level = "warn"; type = "reconnect"; message = cause }) t
      >>= emit_all dialing.told
      >>= connect_again now dialing.outcome

  unfoldable pub record_read : ℕ → Time → Tunnel B → Tunnel B
  record_read n now t = record t {
    stats = record t.stats {
      packets_read = (t.stats.packets_read + 1) % 2 ^ 64;
      bytes_read = (t.stats.bytes_read + n) % 2 ^ 64;
      last_activity_at = now;
    };
  }

  unfoldable pub record_write : ℕ → Time → Tunnel B → Tunnel B
  record_write n now t = record t {
    stats = record t.stats {
      packets_written = (t.stats.packets_written + 1) % 2 ^ 64;
      bytes_written = (t.stats.bytes_written + n) % 2 ^ 64;
      last_activity_at = now;
    };
  }

  -- The length of the packet that was read, or none for an error.
  abbrev pub read_again : Time → Read → Bool × Tunnel B → Done (Option ℕ × Tunnel B)
  read_again now second (false, t) = returned (none, t)
  read_again now (read_bytes n) (true, t) = returned (some n, record_read n now t)
  read_again now (read_error cause) (true, t) = returned (none, t)

  abbrev pub read_session :
      Time → Read → Dialing B → Read → Option B → Tunnel B → Done (Option ℕ × Tunnel B)
  read_session now first dialing second none t = panicked
  read_session now (read_bytes n) dialing second (some b) t = returned (some n, record_read n now t)
  read_session now (read_error cause) dialing second (some b) t =
      reconnect now cause dialing t >>= read_again now second

  abbrev pub read_from :
      ℕ → Time → Read → Dialing B → Read → List String → Tunnel B → Done (Option ℕ × Tunnel B)
  read_from size now first dialing second (p ∷ rest) t =
      let n = min size (len p) in
      returned (some n, record_read n now (record t { pending_reads = rest }))
  read_from size now first dialing second [] t = read_session now first dialing second t.bundle t

  -- `ReadPacket` into a buffer of a size.
  unfoldable pub read_packet :
      ℕ → Time → Read → Dialing B → Read → Tunnel B → Done (Option ℕ × Tunnel B)
  read_packet size now first dialing second t =
      read_from size now first dialing second t.pending_reads t

  -- The packet that answers a write, kept if there is room for it.
  unfoldable pub keep_answer : String → Tunnel B → Tunnel B
  keep_answer icmp t =
      if nat_eq (len icmp) 0
      then t
      else if ltb (length t.pending_reads) 8
      then record t { pending_reads = t.pending_reads ++ icmp ∷ [] }
      else t

  abbrev pub wrote : String → Time → String → Tunnel B → Done (Bool × Tunnel B)
  wrote pkt now icmp t = returned (true, record_write (len pkt) now (keep_answer icmp t))

  abbrev pub write_again : String → Time → Written → Bool × Tunnel B → Done (Bool × Tunnel B)
  write_again pkt now second (false, t) = returned (false, t)
  write_again pkt now (written icmp) (true, t) = wrote pkt now icmp t
  write_again pkt now (write_error cause) (true, t) = returned (false, t)

  abbrev pub write_session :
      String → Time → Written → Dialing B → Written → Option B → Tunnel B → Done (Bool × Tunnel B)
  write_session pkt now first dialing second none t = panicked
  write_session pkt now (written icmp) dialing second (some b) t = wrote pkt now icmp t
  write_session pkt now (write_error cause) dialing second (some b) t =
      reconnect now cause dialing t >>= write_again pkt now second

  -- `WritePacket`, and whether it reports no error.
  unfoldable pub write_packet :
      String → Time → Written → Dialing B → Written → Tunnel B → Done (Bool × Tunnel B)
  write_packet pkt now first dialing second t =
      write_session pkt now first dialing second t.bundle t

  abbrev pub closed : Tunnel B → Tunnel B
  closed t = record t {
    bundle = none;
    closed_sessions = close_session t.bundle t.closed_sessions;
    events = drop_first t.events;
    events_closed = true;
  }

  unfoldable pub close : Tunnel B → Done (Tunnel B)
  close t = if t.events_closed then panicked else returned (closed t)

abbrev pub no_stats : TransportStatsSnapshot
no_stats = record {
  packets_read = 0;
  packets_written = 0;
  bytes_read = 0;
  bytes_written = 0;
  last_activity_at = 0;
}

-- The tunnel of `Start`, once its dial has given a session.
unfoldable pub start : {B : Type 0} → Time → B → List Event → Done (Tunnel B)
start now b told =
    emit_all told (record {
      bundle = none;
      closed_sessions = [];
      stats = no_stats;
      events = [];
      events_closed = false;
      pending_reads = [];
    })
    >>= λ t.
        emit
          (record {
            at = now;
            level = "info";
            type = "connected";
            message = "MASQUE tunnel established";
          })
          (record t { bundle = some b })
