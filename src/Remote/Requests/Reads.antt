-- ===== src/Remote/Requests/Reads.antt =====
-- What a read request does: the results that it gives, and where it looks for them.
use sandook.Base.{ℕ, zero, suc, Bool, ◌≡◌, refl, sym, ◌∙◌, List, some}
use sandook.Status.{Status, ok}
use sandook.Types.{ServerId, ServerReplicaBlockInfoList, IoDesc, OpType, get_op}
use sandook.Resolver.{resolve_block}
use sandook.Remote.Disk.{Services, VirtualDisk}
use sandook.Remote.ReadOp.{process_read_op, server_ids}
use sandook.Remote.ReadOp.Replicas.{Rests, Asks, read_loop-Asks}
use sandook.Remote.Requests.{read_blocks, process_op, process_request}

module _ {W : Type 0} (s : Services W) (affinity : ServerId)
    (sleep : VirtualDisk s affinity → VirtualDisk s affinity) (order : ℕ → List Bool) where
  abbrev Disk : Type 0
  Disk = VirtualDisk s affinity

  process_request-read_op :
      (n : ℕ) (d : Disk) (blks : ServerReplicaBlockInfoList) (iod : IoDesc)
      → get_op iod ≡ OpType.read
      → resolve_block d.blk_res iod.start_sector ≡ ok blks
      → process_request s affinity sleep order (suc n) d iod
        ≡ process_read_op s affinity sleep (process_request s affinity sleep order n) n blks iod d
  unfolding process_request process_op read_blocks
  process_request-read_op n d blks iod op res = rw op (rw res refl)

  -- However the servers answer, whichever servers the scheduler selects and however often the read starts
  -- anew, a read that ends has only sent requests for the blocks that its sector is mapped to, each
  -- to the server that holds it, and has left the mapping and the connections as they were. This needs that the
  -- connections, the mapping and the record of the messages stay while the read sleeps.
  pub process_request-Asks :
      (rests : Rests s affinity sleep) (n : ℕ) (d d' : Disk) (blks : ServerReplicaBlockInfoList)
      (iod : IoDesc) (res : Status ℕ)
      → get_op iod ≡ OpType.read
      → resolve_block d.blk_res iod.start_sector ≡ ok blks
      → process_request s affinity sleep order n d iod ≡ some (res, d')
      → Asks s affinity blks iod d d'
  unfolding process_request process_read_op
  process_request-Asks rests zero d d' blks iod res op r h = cc
  process_request-Asks rests (suc n) d d' blks iod res op r h =
      read_loop-Asks s affinity blks iod sleep rests d.blk_res
        (process_request s affinity sleep order n)
        (λ e e' res' q h'. process_request-Asks rests n e e' blks iod res' op (rw q r) h') n
        (server_ids blks) d d' res refl (sym (process_request-read_op n d blks iod op r) ∙ h)
