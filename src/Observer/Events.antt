-- ===== src/Observer/Events.antt =====
-- The raw events of tapio-common/src/ebpf.rs. A byte array is a list of bytes, a signed field is a ℤ.
use Prim.Native.String.{◌++◌}
use tapio.Prelude.{
  ℕ, String, Bool, List, [], ◌∷◌, ◌==◌, ◌/◌, ◌%◌, ◌^◌, not, if◌then◌else◌, unwrap_or,
}
use tapio.Prelude.Int.{ℤ, is_zero}
use tapio.Prelude.Decimal.{to_string}
use tapio.Prelude.Utf8.{from_utf8}
use tapio.Prelude.Ipv6.{ipv6_to_string}
use tapio.Profile.Floats.{FloatOps}

abbrev pub af_inet6 : ℕ
af_inet6 = 10

abbrev pub net_event_state_change : ℕ
net_event_state_change = 0

abbrev pub net_event_rst_received : ℕ
net_event_rst_received = 1

abbrev pub net_event_retransmit : ℕ
net_event_retransmit = 2

abbrev pub net_event_rtt_spike : ℕ
net_event_rtt_spike = 3

abbrev pub container_event_oom : ℕ
container_event_oom = 0

abbrev pub container_event_exit : ℕ
container_event_exit = 1

abbrev pub tcp_syn_sent : ℕ
tcp_syn_sent = 2

abbrev pub tcp_close : ℕ
tcp_close = 7

abbrev pub op_read : ℕ
op_read = 0

abbrev pub op_write : ℕ
op_write = 1

abbrev pub storage_severity_critical : ℕ
storage_severity_critical = 2

pub record NetworkEvent : Type 0 where
  pub config_generation : ℕ
  pub pid : ℕ
  pub src_ip : ℕ
  pub dst_ip : ℕ
  pub src_ipv6 : List ℕ
  pub dst_ipv6 : List ℕ
  pub src_port : ℕ
  pub dst_port : ℕ
  pub family : ℕ
  pub protocol : ℕ
  pub event_type : ℕ
  pub old_state : ℕ
  pub new_state : ℕ
  pub rtt_baseline_ms : ℕ
  pub rtt_current_ms : ℕ
  pub total_retrans : ℕ
  pub snd_cwnd : ℕ
  pub comm : List ℕ

pub record ContainerEvent : Type 0 where
  pub config_generation : ℕ
  pub memory_limit : ℕ
  pub memory_usage : ℕ
  pub timestamp_ns : ℕ
  pub cgroup_id : ℕ
  pub event_type : ℕ
  pub pid : ℕ
  pub tid : ℕ
  pub exit_code : ℤ
  pub signal : ℤ

pub record StorageEvent : Type 0 where
  pub config_generation : ℕ
  pub timestamp_ns : ℕ
  pub latency_ns : ℕ
  pub cgroup_id : ℕ
  pub sector : ℕ
  pub dev_major : ℕ
  pub dev_minor : ℕ
  pub bytes : ℕ
  pub pid : ℕ
  pub error_code : ℤ
  pub opcode : ℕ
  pub severity : ℕ
  pub comm : List ℕ

pub record PmcEvent : Type 0 where
  pub config_generation : ℕ
  pub cpu : ℕ
  pub cycles : ℕ
  pub instructions : ℕ
  pub stall_cycles : ℕ
  pub timestamp : ℕ

-- The bytes before the first zero, or all of them.
unfoldable pub before_nul : List ℕ → List ℕ
before_nul [] = []
before_nul (b ∷ bytes) = let rest = before_nul bytes in if b == 0 then [] else b ∷ rest

-- `comm_str` of both events that have a command.
unfoldable pub comm_str : List ℕ → String
unfolding before_nul
comm_str comm = unwrap_or (from_utf8 (before_nul comm)) "<invalid>"

unfoldable pub is_ipv6 : NetworkEvent → Bool
is_ipv6 event = event.family == af_inet6

-- `src_ipv4_str` and `dst_ipv4_str`.
unfoldable pub ipv4_str : ℕ → String
ipv4_str ip =
    to_string (ip % 256)
    ++ ("."
        ++ (to_string (ip / 2 ^ 8 % 256)
            ++ ("." ++ (to_string (ip / 2 ^ 16 % 256) ++ ("." ++ to_string (ip / 2 ^ 24 % 256))))))

unfoldable pub src_ip_str : NetworkEvent → String
unfolding is_ipv6 ipv4_str
src_ip_str event = if is_ipv6 event then ipv6_to_string event.src_ipv6 else ipv4_str event.src_ip

unfoldable pub dst_ip_str : NetworkEvent → String
unfolding is_ipv6 ipv4_str
dst_ip_str event = if is_ipv6 event then ipv6_to_string event.dst_ipv6 else ipv4_str event.dst_ip

unfoldable pub has_error : StorageEvent → Bool
has_error event = not (is_zero event.error_code)

module _ {F : Type 0} (f : FloatOps F) where
  unfoldable pub latency_ms : StorageEvent → F
  latency_ms event = f.div (f.of_ℕ event.latency_ns) (f.of_ℕ 1_000_000)

  unfoldable pub ipc : PmcEvent → F
  ipc event =
      if event.cycles == 0
      then f.of_ℕ 0
      else f.div (f.of_ℕ event.instructions) (f.of_ℕ event.cycles)

  unfoldable pub stall_pct : PmcEvent → F
  stall_pct event =
      if event.cycles == 0
      then f.of_ℕ 0
      else f.mul (f.div (f.of_ℕ event.stall_cycles) (f.of_ℕ event.cycles)) (f.of_ℕ 100)
