-- ===== src/Observer/Decode.antt =====
-- `read_unaligned` of a raw event: the fields at the offsets of the layouts in tapio-common/src/ebpf.rs,
-- on a little-endian machine.
use tapio.Prelude.{ℕ, zero, suc, ◌+◌, ◌*◌, ◌-◌, ◌^◌, List, [], ◌∷◌, ltb, if◌then◌else◌}
use tapio.Prelude.Int.{ℤ, pos, negsuc}
use tapio.Observer.Events.{NetworkEvent, ContainerEvent, StorageEvent, PmcEvent}

-- So many bytes from an offset on.
unfoldable pub field : ℕ → ℕ → List ℕ → List ℕ
field zero zero bytes = []
field zero (suc width) [] = []
field zero (suc width) (b ∷ bytes) = b ∷ field zero width bytes
field (suc offset) width [] = []
field (suc offset) width (b ∷ bytes) = field offset width bytes

-- A word, its least byte first.
unfoldable pub word : List ℕ → ℕ
word [] = 0
word (b ∷ bytes) = b + 256 * word bytes

-- An `i32` in two's complement.
unfoldable pub signed : ℕ → ℤ
signed n = if ltb n (2 ^ 31) then pos n else negsuc (2 ^ 32 - n - 1)

unfoldable pub decode_network : List ℕ → NetworkEvent
unfolding field word
decode_network data_ = record {
  config_generation = word (field 0 4 data_);
  pid = word (field 4 4 data_);
  src_ip = word (field 8 4 data_);
  dst_ip = word (field 12 4 data_);
  src_ipv6 = field 16 16 data_;
  dst_ipv6 = field 32 16 data_;
  src_port = word (field 48 2 data_);
  dst_port = word (field 50 2 data_);
  family = word (field 52 2 data_);
  protocol = word (field 54 1 data_);
  event_type = word (field 55 1 data_);
  old_state = word (field 56 2 data_);
  new_state = word (field 58 2 data_);
  rtt_baseline_ms = word (field 60 2 data_);
  rtt_current_ms = word (field 62 2 data_);
  total_retrans = word (field 64 2 data_);
  snd_cwnd = word (field 66 2 data_);
  comm = field 68 16 data_;
}

unfoldable pub decode_container : List ℕ → ContainerEvent
unfolding field word signed
decode_container data_ = record {
  config_generation = word (field 0 4 data_);
  memory_limit = word (field 4 8 data_);
  memory_usage = word (field 12 8 data_);
  timestamp_ns = word (field 20 8 data_);
  cgroup_id = word (field 28 8 data_);
  event_type = word (field 36 4 data_);
  pid = word (field 40 4 data_);
  tid = word (field 44 4 data_);
  exit_code = signed (word (field 48 4 data_));
  signal = signed (word (field 52 4 data_));
}

unfoldable pub decode_storage : List ℕ → StorageEvent
unfolding field word signed
decode_storage data_ = record {
  config_generation = word (field 0 4 data_);
  timestamp_ns = word (field 8 8 data_);
  latency_ns = word (field 16 8 data_);
  cgroup_id = word (field 24 8 data_);
  sector = word (field 32 8 data_);
  dev_major = word (field 40 4 data_);
  dev_minor = word (field 44 4 data_);
  bytes = word (field 48 4 data_);
  pid = word (field 52 4 data_);
  error_code = signed (word (field 56 4 data_));
  opcode = word (field 60 1 data_);
  severity = word (field 61 1 data_);
  comm = field 62 16 data_;
}

unfoldable pub decode_pmc : List ℕ → PmcEvent
unfolding field word
decode_pmc data_ = record {
  config_generation = word (field 0 4 data_);
  cpu = word (field 4 4 data_);
  cycles = word (field 8 8 data_);
  instructions = word (field 16 8 data_);
  stall_cycles = word (field 24 8 data_);
  timestamp = word (field 32 8 data_);
}
