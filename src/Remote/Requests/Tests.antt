-- ===== src/Remote/Requests/Tests.antt =====
-- A virtual disk over three servers, the first of which does not answer.
use sandook.Base.{
  none, ℕ, ◌+◌, ◌*◌, ◌%◌, ◌≡◌, refl, ◌≤◌, inl, Bool, true, if◌then◌else◌, ◌==◌, List, [], ◌∷◌,
  Option, some, length, arith,
}
use sandook.Status.{Status, ok, err, Error}
use sandook.Types.{
  ServerId, ServerReplicaBlockInfo, ServerReplicaBlockInfoList, IoDesc, get_op, k_device_alignment,
  u32_mod,
}
use sandook.Selection.{ServerSet, contains}
use sandook.DiskServer.{StorageOpMsg, StorageOpReplyMsg, StorageOpReplyCode}
use sandook.Remote.Disk.{Services, VirtualDisk, get_blocks}
use sandook.Remote.ReadOp.Replicas.{Rests, Asks}
use sandook.Remote.ReadOp.Success.{Served}
use sandook.Remote.Requests.{process_request}
use sandook.Remote.Requests.Writes.{Wrote, process_request-write_read}

-- The scheduler takes the first server of a set for a read, and the second and third server for writes.
-- Server 1 answers with nothing, as one whose device fails. The state of the services counts the calls.
abbrev services : Services ℕ
services = record {
  select_read_server = λ w ids iod. (first ids, w);
  select_write_replicas = λ w iod. (ok (record { front = 2; back = 3 }), w);
  signal_congested = λ w id. w;
  get_block = λ w id. (ok (record { server_id = id; block_addr = 40 + w }), w + 1);
  call = λ w id msg. (answer id msg, w + 1);
}
  where
    first : ServerSet → Status ServerId
    first [] = err Error.enoent
    first (x ∷ xs) = ok x

    answer : ServerId → StorageOpMsg → Option StorageOpReplyMsg
    answer id msg =
        if id == 1
        then none
        else some (record {
          iod = msg.iod;
          req_id = msg.req_id;
          code = StorageOpReplyCode.success;
          res = 4096;
          reply_payload_size = 4096;
        })

abbrev rest : VirtualDisk services 0 → VirtualDisk services 0
rest d = d

abbrev replica : ServerId → ServerReplicaBlockInfo
replica id = record { info = record { server_id = id; block_addr = 7 }; dirty = true }

abbrev replicas : ServerReplicaBlockInfoList
replicas = record { front = replica 1; back = replica 2 }

abbrev disk : VirtualDisk services 0
disk = record {
  client = record { sched = 0; copies = [] };
  servers = 1 ∷ 2 ∷ 3 ∷ [];
  blk_res = record { nsectors = 8; blk_map = λ _. replicas; discard_list = [] };
  num_read_rejections = 0;
  num_read_retries = 0;
  num_write_rejections = 0;
  num_write_retries = 0;
  num_reads_submitted = 0;
  num_writes_submitted = 0;
  sent = [];
}

abbrev request : ℕ → IoDesc
request op = record {
  op_flags = op;
  num_sectors = 1;
  start_sector = 5;
  addr = 0;
  callback_args = 0;
  callback = 0;
}

abbrev orders : ℕ → List Bool
orders n = []

abbrev rests : Rests services 0 rest
rests d = (refl, refl, refl)

abbrev Reads : Type 0
Reads =
    (n : ℕ) × (d' : VirtualDisk services 0) × (process_request services 0 rest orders 3 disk
        (request 0)
      ≡ some (ok n, d'))
    × Served services 0 rest rests replicas (request 0) 2 n d'
    × (length d'.sent ≤ 2 + length disk.sent)

abbrev new_replicas : ServerReplicaBlockInfoList
new_replicas = record {
  front = record { info = record { server_id = 2; block_addr = 40 }; dirty = true };
  back = record { info = record { server_id = 3; block_addr = 41 }; dirty = true };
}

process_request-write_read_example :
    (d' : VirtualDisk services 0) × (process_request services 0 rest orders 1 disk (request 1)
      ≡ some (ok (1 * k_device_alignment % u32_mod), d'))
    × Wrote services 0 rest orders disk (request 1) new_replicas d'
    × ((res : Status ℕ) (d'' : VirtualDisk services 0)
        → process_request services 0 rest orders 3 d' (request 0) ≡ some (res, d'')
        → Asks services 0 new_replicas (request 0) d' d'')
unfolding get_op get_blocks contains
process_request-write_read_example =
    process_request-write_read services 0 rest orders rests 0 3 disk (request 1) (request 0)
      new_replicas refl refl refl (omega arith) refl (λ e. omega (arith, e))
      (λ w. (_, refl, refl, inl refl)) (λ w. (_, refl, refl, inl refl)) refl refl
