-- ===== src/Host/Examples.antt =====
-- Limits of services/aimili-egress/capacity.py for a host of 1 GiB.
use aimili_gateway.Prelude.{◌*◌, ◌≤◌, ◌≡◌, max, some, arith}
use aimili_gateway.Host.Limits.{
  HostFacts, mib, limits_for, clamp_settings, regular_by_host, is_overloaded, memory_slot_limit,
  regular_by_processes,
}
use aimili_gateway.Host.Growth.{HasRoom, limits_for-bounds, limits_for-room, clamp_settings-bounds}

abbrev host : HostFacts
host = record {
  memory_total_bytes = 1024 * mib;
  memory_available_bytes = 700 * mib;
  cpu_count = 2;
  load1 = 50;
}

limits_for-bounds_example :
    let l = limits_for host 2 (some 20) in
    (max 2 1 ≤ l.regular_exit_slots_max)
    × (l.regular_exit_slots_max ≤ max 2 16)
    × (l.target_valid_nodes_max ≡ l.emergency_valid_nodes_max)
    × (16 ≤ l.emergency_valid_nodes_max)
    × (l.emergency_valid_nodes_max ≤ 512)
limits_for-bounds_example = limits_for-bounds host 2 (some 20)

limits_for-room_example : HasRoom host 2 (some 20) 8
unfolding limits_for regular_by_host is_overloaded memory_slot_limit regular_by_processes
limits_for-room_example = limits_for-room host 2 (some 20) (omega arith)

clamp_settings-bounds_example :
    let l = limits_for host 2 (some 20) in
    let (t, e) = clamp_settings 1000 10 l in
    (16 ≤ t) × (t ≤ e) × (e ≤ l.emergency_valid_nodes_max) × (clamp_settings t e l ≡ (t, e))
clamp_settings-bounds_example = clamp_settings-bounds host 2 (some 20) 1000 10
