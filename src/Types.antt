-- ===== src/Types.antt =====
-- base/types.h, base/constants.h, base/io_desc.h and base/server_stats.h: the identifiers, the
-- constants and the records that the components exchange. Weights are of an abstract type `W`,
-- since they are doubles.
use sandook.Base.{ℕ, ◌%◌, ◌^◌, ◌/◌, Bool, if◌then◌else◌, ◌==◌}

abbrev pub ServerId : Type 0
ServerId = ℕ

abbrev pub VolumeId : Type 0
VolumeId = ℕ

-- Block addresses within a volume or a server are 64-bit words.
abbrev pub BlockAddr : Type 0
BlockAddr = ℕ

abbrev pub k_invalid_server_id : ServerId
k_invalid_server_id = 0

abbrev pub k_num_max_servers : ℕ
k_num_max_servers = 20

abbrev pub k_num_max_volumes : ℕ
k_num_max_volumes = 16

abbrev pub k_num_replicas : ℕ
k_num_replicas = 2

abbrev pub k_allocation_batch : ℕ
k_allocation_batch = 2048

abbrev pub k_discard_batch : ℕ
k_discard_batch = 2048

-- 1 << kSectorShift, the bytes in a sector.
abbrev pub k_device_alignment : ℕ
k_device_alignment = 4096

abbrev pub k_mode_switch_interval_us : ℕ
k_mode_switch_interval_us = 300000

abbrev pub k_disk_server_mode_switch_grace_period_us : ℕ
k_disk_server_mode_switch_grace_period_us = 1000

abbrev pub k_congestion_control_window_us : ℕ
k_congestion_control_window_us = 50000

abbrev pub u32_mod : ℕ
u32_mod = 2 ^ 32

abbrev pub u64_mod : ℕ
u64_mod = 2 ^ 64

pub record ServerBlockInfo : Type 0 where
  pub server_id : ServerId
  pub block_addr : BlockAddr

-- A block with its dirty bit.
pub record ServerReplicaBlockInfo : Type 0 where
  pub info : ServerBlockInfo
  pub dirty : Bool

-- The array of `kNumReplicas` entries.
pub record ServerReplicaBlockInfoList : Type 0 where
  pub front : ServerReplicaBlockInfo
  pub back : ServerReplicaBlockInfo

-- A `std::array` of `kNumMaxServers` entries, by server. Its `at` throws out of range.
abbrev pub ServerArray : Type 0 → Type 0
ServerArray A = ServerId → A

module _ {A : Type 0} where
  -- The entry of a key after a write.
  abbrev pub put : (ℕ → A) → ℕ → A → ℕ → A
  put a k v j = if k == j then v else a j

pub data ServerMode : Type 0 where
  mix read write : ServerMode

pub data CongestionState : Type 0 where
  invalid uncongested congested congested_unstable congested_stable : CongestionState

-- `other` is a number that no enumerator has.
pub data OpType : Type 0 where
  read write flush discard write_same write_zeroes allocate : OpType
  other : ℕ → OpType

pub op_of_code : ℕ → OpType
op_of_code c =
    if c == 0
    then OpType.read
    else if c == 1
    then OpType.write
    else if c == 2
    then OpType.flush
    else if c == 3
    then OpType.discard
    else if c == 4
    then OpType.write_same
    else if c == 5
    then OpType.write_zeroes
    else if c == 6
    then OpType.allocate
    else OpType.other c

-- The two callback fields are addresses that the modelled code only passes on.
pub record IoDesc : Type 0 where
  pub op_flags : ℕ
  pub num_sectors : ℕ
  pub start_sector : ℕ
  pub addr : ℕ
  pub callback_args : ℕ
  pub callback : ℕ

-- `op_flags & kOpMask` keeps the low eight bits.
unfoldable pub get_op : IoDesc → OpType
unfolding op_of_code
get_op iod = op_of_code (iod.op_flags % 256)

unfoldable pub get_flags : IoDesc → ℕ
get_flags iod = iod.op_flags / 256

pub record ServerStats (W : Type 0) : Type 0 where
  pub server_id : ServerId
  pub mode : ServerMode
  pub committed_mode : ServerMode
  pub read_mops : W
  pub write_mops : W
  pub read_weight : W
  pub write_weight : W
  pub inflight_reads : ℕ
  pub inflight_writes : ℕ
  pub completed_reads : ℕ
  pub pure_reads : ℕ
  pub impure_reads : ℕ
  pub completed_writes : ℕ
  pub rejected_reads : ℕ
  pub rejected_writes : ℕ
  pub median_read_latency : ℕ
  pub median_write_latency : ℕ
  pub signal_read_latency : ℕ
  pub signal_write_latency : ℕ
  pub is_rejecting_requests : Bool
  pub congestion_state : CongestionState
