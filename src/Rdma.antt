-- ===== src/Rdma.antt =====
-- rdma.h: the states of a channel, the context of a message buffer and the control block.
pub mod Cm
pub mod Send
pub mod Receive
pub mod Cq
pub mod Setup
pub mod Channel
use rpc_kern.Base.{ℕ, ◌+◌, Bool, List, ◌==◌, leb, ltb}
use rpc_kern.Message.{RdmaMsg}
use rpc_kern.Kernel.{Sge}

pub data RdmaChState : Type 0 where
  idle connect_request addr_resolved route_resolved connected working disconnected error :
      RdmaChState

-- The enum's values, by which the code compares states.
abbrev pub value : RdmaChState → ℕ
value idle = 1
value connect_request = 2
value addr_resolved = 3
value route_resolved = 4
value connected = 5
value working = 6
value disconnected = 7
value error = 8

-- `a >= b`, `a == b`
abbrev pub at_least : RdmaChState → RdmaChState → Bool
at_least a b = leb (value b) (value a)

abbrev pub is_state : RdmaChState → RdmaChState → Bool
is_state a b = value a == value b

pub record RecvWr : Type 0 where
  pub wr_id : ℕ
  pub sg_list : Sge
  pub num_sge : ℕ

pub data Opcode : Type 0 where
  none_set wr_send : Opcode

pub record SendWr : Type 0 where
  pub wr_id : ℕ
  pub sg_list : Sge
  pub num_sge : ℕ
  pub opcode : Opcode
  pub signaled : Bool

-- A message buffer's context. `recv_msg` and `send_msg` are what the memory at `recv_buf` and
-- `send_buf` holds; the `mr` fields hold DMA addresses. The rdma_* and remote_* fields, which no
-- code uses, are left out.
pub record MsgbufCtx : Type 0 where
  pub id : ℕ
  pub rq_wr : RecvWr
  pub recv_buf : ℕ
  pub recv_msg : RdmaMsg
  pub recv_mr : ℕ
  pub recv_mapping : ℕ
  pub sq_wr : SendWr
  pub send_buf : ℕ
  pub send_msg : RdmaMsg
  pub send_mr : ℕ
  pub send_mapping : ℕ
  pub seqn : ℕ

pub record Sockaddr : Type 0 where
  pub family : ℕ
  pub addr : List ℕ
  pub port : ℕ

-- `self` is the block's own address. `sem` counts the wake-ups of the block's wait queue. A callback
-- is the address of its function. `channel`, `cm_channel`, `ssource` and `validate` are never used.
pub record RdmaChCb : Type 0 where
  pub self : ℕ
  pub server : Bool
  pub cq : ℕ
  pub pd : ℕ
  pub qp : ℕ
  pub msgbuf_cnt : ℕ
  pub msgbuf_size : ℕ
  pub msgheader_size : ℕ
  pub msgdata_size : ℕ
  pub buf_ctxs_addr : ℕ
  pub buf_ctxs : List MsgbufCtx
  pub rpc_msg_handler_cb : ℕ
  pub user_msg_handler_cb : ℕ
  pub state : RdmaChState
  pub sem : ℕ
  pub sin : Sockaddr
  pub port : ℕ
  pub size : ℕ
  pub cm_id : ℕ
  pub child_cm_id : ℕ

-- wake_up_interruptible(&cb->sem)
abbrev pub wake_up_cb : RdmaChCb → RdmaChCb
wake_up_cb cb = record cb { sem = cb.sem + 1 }
