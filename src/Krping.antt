-- ===== src/Krping.antt =====
-- bak/krping.h: the earlier prototype's states and its control block.

pub mod Cm
pub mod Setup
pub mod Ping
pub mod Client
pub mod Doit
pub mod Keeps
pub mod Sleeps
pub mod Binding
pub mod Rounds
pub mod Queues
pub mod Buffers
pub mod Released
pub mod Runs
pub mod Commands
pub mod Proc
pub mod Endless
pub mod Answered
pub mod Pings
pub mod Fate
pub mod Flush
pub mod Opened
pub mod Cq
use rpc_kern.Base.{ℕ, ◌+◌, Bool, ℤ, List, ◌==◌, leb}
use rpc_kern.Kernel.{CmEvent, Sge}
use rpc_kern.Rdma.{Sockaddr}

pub data TestState : Type 0 where
  idle connect_request addr_resolved route_resolved connected rdma_read_adv rdma_read_complete
        rdma_write_adv rdma_write_complete error :
      TestState

-- The enum's values, by which the code compares states.
abbrev pub state_value : TestState → ℕ
state_value idle = 1
state_value connect_request = 2
state_value addr_resolved = 3
state_value route_resolved = 4
state_value connected = 5
state_value rdma_read_adv = 6
state_value rdma_read_complete = 7
state_value rdma_write_adv = 8
state_value rdma_write_complete = 9
state_value error = 10

-- `a >= b`, `a == b`
abbrev pub at_least : TestState → TestState → Bool
at_least a b = leb (state_value b) (state_value a)

abbrev pub is_state : TestState → TestState → Bool
is_state a b = state_value a == state_value b

-- A buffer that a peer is told of.
pub record KrpingRdmaInfo : Type 0 where
  pub buf : ℕ
  pub rkey : ℕ
  pub size : ℕ

pub record KrpingStats : Type 0 where
  pub send_bytes : ℕ
  pub send_msgs : ℕ
  pub recv_bytes : ℕ
  pub recv_msgs : ℕ
  pub write_bytes : ℕ
  pub write_msgs : ℕ
  pub read_bytes : ℕ
  pub read_msgs : ℕ

pub data KrWcStatus : Type 0 where
  success flush_err failure : KrWcStatus

pub data KrWcOpcode : Type 0 where
  send rdma_write rdma_read recv unknown : KrWcOpcode

-- A completion; `info` is what the adapter has put into the receive buffer.
pub record KrWc : Type 0 where
  pub status : KrWcStatus
  pub opcode : KrWcOpcode
  pub byte_len : ℕ
  pub info : KrpingRdmaInfo

-- What can happen while the task sleeps: an event of the connection manager, a run of the completion
-- handler with what it polls and the code that ends its loop, and a signal.
pub data Occurrence : Type 0 where
  cm_event : CmEvent → Occurrence
  completed : List KrWc → ℤ → Occurrence
  signal : Occurrence

-- `self` is the block's own address and `sem` counts the wake-ups of its wait queue. `start_text`
-- is what the memory at `start_buf` holds. Two fields are not in the code: `to_come` is what will
-- happen while the task sleeps, and `advertised` what the peer has been sent, oldest first. A DMA
-- address of a coherent buffer is the buffer's own, `recv_sgl` and `send_sgl` stand for the work
-- requests that point to them, and `rkey` is the one in the region. Left out are the fields that no
-- code stores to but kzalloc (`page_list`, `rdma_sq_wr`, `rdma_sgl`, `read_inv`, `poll`,
-- `local_dma_lkey`, `ip6_ndev_name`, the two callbacks), and `addr_str`, which no code reads.
pub record KrpingCb : Type 0 where
  pub self : ℕ
  pub server : ℤ
  pub cq : ℕ
  pub pd : ℕ
  pub qp : ℕ
  pub dma_mr : ℕ
  pub page_list_len : ℕ
  pub reg_mr : ℕ
  pub rkey : ℕ
  pub server_invalidate : Bool
  pub key : ℕ
  pub recv_sgl : Sge
  pub recv_buf : KrpingRdmaInfo
  pub recv_dma_addr : ℕ
  pub recv_mapping : ℕ
  pub send_sgl : Sge
  pub send_buf : KrpingRdmaInfo
  pub send_dma_addr : ℕ
  pub send_mapping : ℕ
  pub rdma_buf : ℕ
  pub rdma_mr : ℕ
  pub remote_rkey : ℕ
  pub remote_addr : ℕ
  pub remote_len : ℕ
  pub start_buf : ℕ
  pub start_text : List ℕ
  pub start_mr : ℕ
  pub state : TestState
  pub sem : ℕ
  pub stats : KrpingStats
  pub port : ℕ
  pub addr : List ℕ
  pub addr_type : ℕ
  pub verbose : ℕ
  pub count : ℕ
  pub size : ℕ
  pub txdepth : ℕ
  pub frtest : Bool
  pub tos : ℕ
  pub cm_id : ℕ
  pub child_cm_id : ℕ
  pub to_come : List Occurrence
  pub advertised : List KrpingRdmaInfo

-- wake_up_interruptible(&cb->sem)
abbrev pub wake_up_krping : KrpingCb → KrpingCb
wake_up_krping cb = record cb { sem = cb.sem + 1 }

-- What the prototype calls besides the calls of the channel: each answer as a function of how many
-- calls were made before. `rkey_of` is the key that ib_update_fast_reg_key leaves in a region,
-- `mem_mgt_extensions` whether the device's capabilities have that flag, and `ping_text` the start
-- of a ping's text.
pub record KrpingVerbs : Type 0 where
  pub coherent_ok : ℕ → Bool
  pub alloc_mr : ℕ → ℤ
  pub map_mr_sg : ℕ → ℤ
  pub rkey_of : (rkey key : ℕ) → ℕ
  pub mem_mgt_extensions : Bool
  pub ping_text : ℕ → List ℕ
  pub htons : ℕ → ℕ
  pub ntohl : ℕ → ℕ
  pub ntohll : ℕ → ℕ
  pub htonl : ℕ → ℕ
  pub htonll : ℕ → ℕ
