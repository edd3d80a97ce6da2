-- ===== src/Observer/Network.antt =====
-- `classify` and `build_occurrence` of tapio-agent/src/observer/network.rs.
use tapio.Prelude.{
  ℕ, String, List, [], ◌∷◌, Option, none, some, ◌==◌, ◌&&◌, if◌then◌else◌, and_then,
}
use tapio.Prelude.Decimal.{to_string}
use tapio.Wire.Types.{Value, str, object, Fields, end}
use tapio.Observer.Occurrence.{Severity, Outcome, Occurrence, new, with_error, with_data}
use tapio.Observer.Events.{
  NetworkEvent, comm_str, is_ipv6, src_ip_str, dst_ip_str, net_event_state_change,
  net_event_rst_received, net_event_retransmit, net_event_rtt_spike, tcp_syn_sent, tcp_close,
}
use tapio.Observer.Anomaly.{
  network_connection_refused, network_connection_timeout, network_retransmit_spike,
  network_rtt_degradation, insert, entries, num, text,
}

pub record ClassifiedAnomaly : Type 0 where
  pub event_type : String
  pub severity : Severity
  pub outcome : Outcome
  pub error_code : String
  pub error_message : String
  pub ebpf_event_type : ℕ

unfoldable pub tcp_state_name : ℕ → String
tcp_state_name state =
    if state == 1
    then "ESTABLISHED"
    else if state == 2
    then "SYN_SENT"
    else if state == 3
    then "SYN_RECV"
    else if state == 4
    then "FIN_WAIT1"
    else if state == 5
    then "FIN_WAIT2"
    else if state == 6
    then "TIME_WAIT"
    else if state == 7
    then "CLOSE"
    else if state == 8
    then "CLOSE_WAIT"
    else if state == 9
    then "LAST_ACK"
    else if state == 10
    then "LISTEN"
    else "UNKNOWN"

-- `{src_ip}:{src_port} → {dst_ip}:{dst_port}`.
abbrev flow : NetworkEvent → String
flow event = text (
    src_ip_str event
    ∷ ":"
    ∷ to_string event.src_port
    ∷ " → "
    ∷ dst_ip_str event
    ∷ ":"
    ∷ to_string event.dst_port
    ∷ [])

unfoldable pub refused : NetworkEvent → ClassifiedAnomaly
refused event = record {
  event_type = network_connection_refused;
  severity = Severity.warning;
  outcome = Outcome.failure;
  error_code = "RST_RECEIVED";
  error_message = text ("TCP RST " ∷ flow event ∷ []);
  ebpf_event_type = event.event_type;
}

unfoldable pub retransmit : NetworkEvent → ClassifiedAnomaly
retransmit event = record {
  event_type = network_retransmit_spike;
  severity = Severity.warning;
  outcome = Outcome.failure;
  error_code = "RETRANSMIT";
  error_message = text (
      "TCP retransmit "
      ∷ flow event
      ∷ " (total="
      ∷ to_string event.total_retrans
      ∷ ", cwnd="
      ∷ to_string event.snd_cwnd
      ∷ ")"
      ∷ []);
  ebpf_event_type = event.event_type;
}

unfoldable pub rtt_spike : NetworkEvent → ClassifiedAnomaly
rtt_spike event = record {
  event_type = network_rtt_degradation;
  severity = Severity.warning;
  outcome = Outcome.in_progress;
  error_code = "RTT_SPIKE";
  error_message = text (
      "RTT spike "
      ∷ flow event
      ∷ " (baseline="
      ∷ to_string event.rtt_baseline_ms
      ∷ "ms, current="
      ∷ to_string event.rtt_current_ms
      ∷ "ms)"
      ∷ []);
  ebpf_event_type = event.event_type;
}

unfoldable pub syn_timeout : NetworkEvent → ClassifiedAnomaly
syn_timeout event = record {
  event_type = network_connection_timeout;
  severity = Severity.error;
  outcome = Outcome.failure;
  error_code = "SYN_TIMEOUT";
  error_message = text (
      "Connection timeout to "
      ∷ dst_ip_str event
      ∷ ":"
      ∷ to_string event.dst_port
      ∷ " (SYN_SENT→CLOSE)"
      ∷ []);
  ebpf_event_type = event.event_type;
}

unfoldable pub classify : NetworkEvent → Option ClassifiedAnomaly
unfolding refused retransmit rtt_spike syn_timeout
classify event =
    if event.event_type == net_event_rst_received
    then some (refused event)
    else if event.event_type == net_event_retransmit
    then some (retransmit event)
    else if event.event_type == net_event_rtt_spike
    then some (rtt_spike event)
    else if event.event_type == net_event_state_change
    then (if event.old_state == tcp_syn_sent && event.new_state == tcp_close
        then some (syn_timeout event)
        else none)
    else none

-- The fields of every event.
unfoldable pub common_facts : NetworkEvent → Fields
unfolding entries insert
common_facts event =
    entries
      (("pid", num event.pid)
        ∷ ("config_generation", num event.config_generation)
        ∷ ("comm", str (comm_str event.comm))
        ∷ ("src_ip", str (src_ip_str event))
        ∷ ("dst_ip", str (dst_ip_str event))
        ∷ ("src_port", num event.src_port)
        ∷ ("dst_port", num event.dst_port)
        ∷ ("family", str (if is_ipv6 event then "ipv6" else "ipv4"))
        ∷ ("protocol", str "tcp")
        ∷ [])
      end

-- The fields of an event's type.
unfoldable pub type_facts : NetworkEvent → ℕ → List (String × Value)
unfolding tcp_state_name
type_facts event ebpf_event_type =
    if ebpf_event_type == net_event_state_change
    then ("old_state", str (tcp_state_name event.old_state))
      ∷ ("new_state", str (tcp_state_name event.new_state))
      ∷ []
    else if ebpf_event_type == net_event_rst_received
    then []
    else if ebpf_event_type == net_event_retransmit
    then ("total_retrans", num event.total_retrans) ∷ ("snd_cwnd", num event.snd_cwnd) ∷ []
    else if ebpf_event_type == net_event_rtt_spike
    then ("baseline_ms", num event.rtt_baseline_ms) ∷ ("current_ms", num event.rtt_current_ms) ∷ []
    else []

-- With a fresh identifier and the nanoseconds of the clock.
unfoldable pub build_occurrence : String → ℕ → NetworkEvent → ClassifiedAnomaly → Occurrence
unfolding common_facts type_facts entries insert
build_occurrence id nanos event anomaly =
    with_data
      (with_error (new id nanos anomaly.event_type anomaly.severity anomaly.outcome)
        anomaly.error_code anomaly.error_message)
      (object (entries (type_facts event anomaly.ebpf_event_type) (common_facts event)))

-- What `run` makes of an event: the occurrence that it sends, if there is an anomaly.
unfoldable pub observe : String → ℕ → NetworkEvent → Option Occurrence
unfolding classify build_occurrence
observe id nanos event =
    and_then (classify event) (λ anomaly. some (build_occurrence id nanos event anomaly))
