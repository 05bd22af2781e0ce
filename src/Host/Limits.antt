-- ===== src/Host/Limits.antt =====
-- `limits_for`, `clamp_settings` and `pool_probe_allowed` of services/aimili-egress/capacity.py. The
-- load is in hundredths, as the kernel reports it. Where Python's difference is negative, the maximum
-- that is taken next makes the result the same as with a difference that stops at 0.
use aimili_gateway.Prelude.{
  ℕ, ◌+◌, ◌-◌, ◌*◌, ◌/◌, min, max, Bool, ◌&&◌, Option, none, some, leb, ltb, if◌then◌else◌,
}

pub record HostFacts : Type 0 where
  pub memory_total_bytes : ℕ
  pub memory_available_bytes : ℕ
  pub cpu_count : ℕ
  pub load1 : ℕ

-- The limits of the class `CapacityLimits`; its other fields are those of the facts and the time.
pub record CapacityLimits : Type 0 where
  pub regular_exit_slots_max : ℕ
  pub target_valid_nodes_max : ℕ
  pub emergency_valid_nodes_max : ℕ

-- A MiB in bytes.
abbrev pub mib : ℕ
mib = 1048576

unfoldable pub memory_slot_limit : HostFacts → ℕ
memory_slot_limit f = max 1 (min 16 ((f.memory_total_bytes / mib - 256) / 64))

unfoldable pub emergency_host_cap : HostFacts → ℕ
emergency_host_cap f = min 512 (200 + (f.memory_total_bytes / mib - 512) / 512 * 64)

unfoldable pub is_overloaded : HostFacts → Bool
is_overloaded f = ltb (f.cpu_count * 175) f.load1

-- `regular_max` as it is first computed.
unfoldable pub regular_by_host : HostFacts → ℕ → ℕ
unfolding memory_slot_limit
regular_by_host f current =
    let cpu_limit = max 1 (min 16 (f.cpu_count * 4)) in
    let expansion_limit = current + (f.memory_available_bytes / mib - 256) / 64 in
    max current (max 1 (min 16 (min (memory_slot_limit f) (min cpu_limit expansion_limit))))

-- `regular_max` under the limit on processes, if there is one.
unfoldable pub regular_by_processes : ℕ → ℕ → Option ℕ → ℕ
regular_by_processes current regular none = regular
regular_by_processes current regular (some limit) =
    max current (max 1 (min regular ((limit - 3) / 2)))

unfoldable pub regular_max : HostFacts → ℕ → Option ℕ → ℕ
unfolding is_overloaded regular_by_host regular_by_processes
regular_max f current process_limit =
    if is_overloaded f
    then max current 1
    else regular_by_processes current (regular_by_host f current) process_limit

unfoldable pub emergency_max : HostFacts → ℕ
unfolding emergency_host_cap
emergency_max f =
    max 16 (min (emergency_host_cap f) ((f.memory_available_bytes - 80 * mib) / (128 * 1024)))

unfoldable pub limits_for : HostFacts → ℕ → Option ℕ → CapacityLimits
unfolding regular_max emergency_max
limits_for f current process_limit = record {
  regular_exit_slots_max = regular_max f current process_limit;
  target_valid_nodes_max = emergency_max f;
  emergency_valid_nodes_max = emergency_max f;
}

-- Target and emergency threshold.
unfoldable pub clamp_settings : ℕ → ℕ → CapacityLimits → ℕ × ℕ
clamp_settings target emergency l =
    let t = max 16 (min l.target_valid_nodes_max target) in
    (t, max t (min l.emergency_valid_nodes_max emergency))

unfoldable pub pool_probe_allowed : HostFacts → Bool
unfolding is_overloaded
pool_probe_allowed f = leb (96 * mib) f.memory_available_bytes && leb f.load1 (f.cpu_count * 175)
