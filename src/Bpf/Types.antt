-- ===== src/Bpf/Types.antt =====
-- The types of pkg/bpf/loader.go: where a program attaches, and what userspace writes into the
-- maps.
use natra.Base.{ℕ, ◌+◌, ◌*◌, Text, codes}

-- `Direction`, as the pod sees it.
pub data Direction : Type 0 where
  ingress egress : Direction

-- `Hook`
pub data Hook : Type 0 where
  tcx clsact : Hook

-- `Side`
pub data Side : Type 0 where
  host_side pod_side : Side

-- The three `String` methods.
unfoldable pub hook_text : Hook → Text
hook_text tcx = codes "tcx"
hook_text clsact = codes "clsact"

unfoldable pub side_text : Side → Text
side_text host_side = codes "hostside"
side_text pod_side = codes "podside"

unfoldable pub direction_text : Direction → Text
direction_text ingress = codes "ingress"
direction_text egress = codes "egress"

-- `uint32(dir)`, the key of a direction's map slot.
abbrev pub direction_key : Direction → ℕ
direction_key ingress = 0
direction_key egress = 1

-- `Config`: the uint64 fields of a direction's slot in the config map.
pub record BpfConfig : Type 0 where
  pub rate_bps : ℕ
  pub burst_bytes : ℕ
  pub hh_threshold : ℕ
  pub edt_pacing : ℕ

-- `TokenBucket`, without the lock and the padding that userspace never reads.
pub record TokenBucket : Type 0 where
  pub tokens : ℕ
  pub last_update_ns : ℕ
  pub next_release_ns : ℕ

-- The stat slots of a direction.
pub data Stat : Type 0 where
  passed throttled hh_hits ecn_marked edt_delayed dropped : Stat

abbrev pub stat_slot : Stat → ℕ
stat_slot passed = 0
stat_slot throttled = 1
stat_slot hh_hits = 2
stat_slot ecn_marked = 3
stat_slot edt_delayed = 4
stat_slot dropped = 5

abbrev pub stat_per_dir : ℕ
stat_per_dir = 6

unfoldable pub stat_key : Direction → Stat → ℕ
stat_key dir slot = direction_key dir * stat_per_dir + stat_slot slot

-- `AttachOptions`
pub record AttachOptions : Type 0 where
  pub direction : Direction
  pub side : Side
  pub hook : Hook
  pub if_index : ℕ
  pub pin_path : Text

-- The hook direction that `Attach` takes: a packet into the pod leaves the host-side veth.
unfoldable pub hook_direction : Side → Direction → Direction
hook_direction pod_side dir = dir
hook_direction host_side ingress = egress
hook_direction host_side egress = ingress
