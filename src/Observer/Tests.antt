-- ===== src/Observer/Tests.antt =====
-- A retransmission, a crash and an overloaded processor: tests of the observers, and the theorems at
-- work.
use tapio.Observer.Occurrence.{with_data, with_error}
use tapio.Prelude.Decimal.{to_string_i32}
use tapio.Observer.Occurrence.{with_data, with_error}
use tapio.Observer.Events.{src_ip_str, dst_ip_str}
use tapio.Prelude.{
  ℕ, String, List, [], ◌∷◌, Option, none, some, ◌≡◌, refl, arith, zero, suc, and_then,
}
use tapio.Prelude.Int.{pos}
use tapio.Prelude.Utf8.{from_utf8}
use tapio.Prelude.Ipv6.{ipv6_to_string}
use tapio.Prelude.Decimal.{to_string}
use tapio.Agent.Config.{PmcThresholds}
use tapio.Observer.Occurrence.{Occurrence, OccurrenceError}
use tapio.Observer.Events.{NetworkEvent, StorageEvent, ContainerEvent, PmcEvent}
use tapio.Observer.Anomaly.{FloatText}
use tapio.Observer.Network
use tapio.Observer.Storage
use tapio.Observer.Container
use tapio.Observer.NodePmc
use tapio.Observer.Decode.{decode_network}
use tapio.Observer.Drain.{Counters, drain_tick, ticks, max_drain_per_tick}
use tapio.Observer.Drained.{Handled, drain_tick-Handled, ticks-Handled, take, drop}
use tapio.Prelude.{length}

abbrev plain_text : FloatText ℕ
plain_text = record { fixed_1 = to_string; fixed_2 = to_string; shortest = to_string }

abbrev zero_bytes : ℕ → List ℕ
zero_bytes zero = []
zero_bytes (suc n) = 0 ∷ zero_bytes n

abbrev retransmitted : NetworkEvent
retransmitted = record {
  config_generation = 17;
  pid = 42;
  src_ip = 0x0100007f;
  dst_ip = 0x0200007f;
  src_ipv6 = zero_bytes 16;
  dst_ipv6 = zero_bytes 16;
  src_port = 12345;
  dst_port = 80;
  family = 2;
  protocol = 6;
  event_type = 2;
  old_state = 0;
  new_state = 0;
  rtt_baseline_ms = 0;
  rtt_current_ms = 0;
  total_retrans = 5;
  snd_cwnd = 10;
  comm = b'n' ∷ b'g' ∷ b'i' ∷ b'n' ∷ b'x' ∷ zero_bytes 11;
}

abbrev slow_read : StorageEvent
slow_read = record {
  config_generation = 17;
  timestamp_ns = 1000;
  latency_ns = 90_000_000;
  cgroup_id = 9;
  sector = 2048;
  dev_major = 8;
  dev_minor = 0;
  bytes = 4096;
  pid = 42;
  error_code = pos 0;
  opcode = 0;
  severity = 1;
  comm = zero_bytes 16;
}

abbrev killed : ContainerEvent
killed = record {
  config_generation = 17;
  memory_limit = 0;
  memory_usage = 536870912;
  timestamp_ns = 2000;
  cgroup_id = 9;
  event_type = 1;
  pid = 42;
  tid = 42;
  exit_code = pos 0;
  signal = pos 9;
}

abbrev stalled : PmcEvent
stalled = record {
  config_generation = 17;
  cpu = 3;
  cycles = 100;
  instructions = 50;
  stall_cycles = 100;
  timestamp = 3000;
}

abbrev thresholds : PmcThresholds ℕ
thresholds = record { stall_pct_warning = 20; stall_pct_critical = 40; ipc_degradation = 1 }

message_of : Option Occurrence → Option String
message_of o =
    and_then o (λ occ. and_then (Occurrence.error occ) (λ e. some (OccurrenceError.message e)))

retransmit_message :
    message_of (Network.observe "01" 0 retransmitted)
    ≡ some "TCP retransmit 127.0.0.1:12345 → 127.0.0.2:80 (total=5, cwnd=10)"
unfolding message_of Network.observe with_data with_error src_ip_str to_string dst_ip_str
retransmit_message = refl

killed_message :
    message_of (Container.observe (λ group pid. none) "01" killed 0)
    ≡ some "Abnormal exit pid=42 (code=0, signal=9)"
unfolding message_of Container.observe with_data with_error to_string to_string_i32
killed_message = refl

loopback :
    ipv6_to_string (0 ∷ 0 ∷ 0 ∷ 0 ∷ 0 ∷ 0 ∷ 0 ∷ 0 ∷ 0 ∷ 0 ∷ 0 ∷ 0 ∷ 0 ∷ 0 ∷ 0 ∷ 1 ∷ []) ≡ "::1"
unfolding ipv6_to_string
loopback = refl

documentation :
    ipv6_to_string (0x20 ∷ 1 ∷ 0x0d ∷ 0xb8 ∷ 0 ∷ 0 ∷ 0 ∷ 0 ∷ 0 ∷ 1 ∷ 0 ∷ 0 ∷ 0 ∷ 0 ∷ 0 ∷ 1 ∷ [])
    ≡ "2001:db8::1:0:0:1"
unfolding ipv6_to_string
documentation = refl

euro : from_utf8 (0xe2 ∷ 0x82 ∷ 0xac ∷ []) ≡ some "€"
unfolding from_utf8
euro = refl

overlong : from_utf8 (0xc0 ∷ 0x80 ∷ []) ≡ none
unfolding from_utf8
overlong = refl

abbrev fresh : Counters
fresh = record {
  malformed_count = 0;
  event_count = 0;
  anomaly_count = 0;
  warnings = 0;
  drain_cap_total = 0;
  sent = [];
}

-- A record of a whole event, and one that is cut short.
abbrev records : List (List ℕ)
records = zero_bytes 84 ∷ zero_bytes 20 ∷ zero_bytes 90 ∷ []

abbrev observe_network : ℕ → List ℕ → Option Occurrence
observe_network n data_ = Network.observe (to_string n) n (decode_network data_)

drain_tick-Handled_example :
    let out = drain_tick 84 observe_network records fresh in
    Handled 84 observe_network (take max_drain_per_tick records) fresh out.0
    × (out.1 ≡ length (take max_drain_per_tick records))
    × (out.2 ≡ drop max_drain_per_tick records)
drain_tick-Handled_example = drain_tick-Handled 84 observe_network records fresh

ticks-Handled_example :
    let out = ticks 84 observe_network 1 records fresh in
    Handled 84 observe_network records fresh out.0 × (out.1 ≡ [])
ticks-Handled_example = ticks-Handled 84 observe_network 1 records fresh (omega arith)
