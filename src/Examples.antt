-- ===== src/Examples.antt =====
-- Concrete kernels, channels and worlds, on which the theorems are applied.
pub mod Ids
pub mod Channel
pub mod Queue
pub mod Messages
pub mod Requests
pub mod Opened
pub mod Loop
pub mod Sessions
pub mod Orders
pub mod Krping
use rpc_kern.Base.{
  ℕ, ◌+◌, ◌≤◌, ◌≡◌, refl, arith, Bool, true, false, Option, none, some, List, [], ◌∷◌, ◌==◌,
  if◌then◌else◌, ℤ, pos, negsuc,
}
use rpc_kern.Message.{RdmaMsg}
use rpc_kern.Message.Endian.{swap64}
use rpc_kern.Kernel
use rpc_kern.Kernel.{Kind, World, Verbs, Sent, Wakeup}
use rpc_kern.Kernel.Succeed.{AllSucceed}
use rpc_kern.Rdma.{RdmaChState, MsgbufCtx, RdmaChCb, idle, connected, wr_send}
use rpc_kern.Rdma.Setup.{zero_msg}

-- Every call succeeds.
abbrev pub willing : Verbs
willing = record {
  kzalloc_ok = λ t. true;
  alloc_pd = λ t. pos 0;
  create_cq = λ t. pos 0;
  req_notify_cq = λ t. pos 0;
  create_qp = λ t. pos 0;
  dma_map_ok = λ t. true;
  post_recv = λ t. pos 0;
  post_send = λ t. pos 0;
  create_id = λ t. pos 0;
  resolve_addr = λ t. pos 0;
  resolve_route = λ t. pos 0;
  connect = λ t. pos 0;
  accept = λ t. pos 0;
  local_dma_lkey = λ pd. pd + 100;
}

pub willing-AllSucceed : AllSucceed willing
willing-AllSucceed = record {
  kzalloc_ok = λ t. refl;
  alloc_pd = λ t. refl;
  create_cq = λ t. refl;
  req_notify_cq = λ t. refl;
  create_qp = λ t. refl;
  dma_map_ok = λ t. refl;
  post_recv = λ t. refl;
  create_id = λ t. refl;
  resolve_addr = λ t. refl;
  resolve_route = λ t. refl;
  connect = λ t. refl;
}

-- A kernel in which nothing is alive, and in which the given events are to come.
abbrev pub empty_world : List Wakeup → World
empty_world script = record {
  next = 1;
  clock = 0;
  live = λ a. none;
  posted = [];
  sent = [];
  bitmaps = λ a. none;
  woken = [];
  script = script;
}

-- The objects of a channel at 1 to 7: the rpc_ch_info, two buffers, the queue pair, the id, the
-- domain and the completion queue.
abbrev pub objects : ℕ → Option Kind
objects a =
    if a == 1
    then some Kernel.memory
    else if a == 2
    then some Kernel.memory
    else if a == 3
    then some Kernel.memory
    else if a == 4
    then some Kernel.qp
    else if a == 5
    then some Kernel.cm_id
    else if a == 6
    then some Kernel.pd
    else if a == 7
    then some Kernel.cq
    else none

abbrev pub taken_first : List ℕ
taken_first = 1 ∷ 0 ∷ 1 ∷ 0 ∷ []

abbrev pub open_world : World
open_world = record (empty_world []) {
  next = 8;
  live = objects;
  bitmaps = λ a. if a == 1 then some taken_first else none;
}

pub open_world_unused : (a : ℕ) → 8 ≤ a → objects a ≡ none
open_world_unused a h = ground arith

-- A received message that names the channel at 1 and the wait queue at 77.
abbrev pub response : RdmaMsg
response = record {
  seq_num = swap64 2;
  rpc_ch_addr = swap64 1;
  sem_addr = swap64 77;
  bytes = 5 ∷ 6 ∷ 7 ∷ 8 ∷ [];
}

abbrev pub ctx0 : MsgbufCtx
ctx0 = record {
  id = 0;
  rq_wr = record {
    wr_id = 0;
    sg_list = record { addr = 20; length = 28; lkey = 106 };
    num_sge = 1;
  };
  recv_buf = 2;
  recv_msg = response;
  recv_mr = 20;
  recv_mapping = 20;
  sq_wr = record {
    wr_id = 0;
    sg_list = record { addr = 21; length = 28; lkey = 106 };
    num_sge = 1;
    opcode = wr_send;
    signaled = true;
  };
  send_buf = 3;
  send_msg = zero_msg 28;
  send_mr = 21;
  send_mapping = 21;
  seqn = 1;
}

-- A channel with two contexts that share the two buffers.
abbrev pub open_cb : RdmaChCb
open_cb = record {
  self = 50;
  server = false;
  cq = 7;
  pd = 6;
  qp = 4;
  msgbuf_cnt = 2;
  msgbuf_size = 28;
  msgheader_size = 24;
  msgdata_size = 4;
  buf_ctxs_addr = 51;
  buf_ctxs = ctx0 ∷ record ctx0 { id = 1 } ∷ [];
  rpc_msg_handler_cb = 60;
  user_msg_handler_cb = 61;
  state = connected;
  sem = 0;
  sin = record { family = 2; addr = 10 ∷ 0 ∷ 0 ∷ 1 ∷ []; port = 0 };
  port = 8270;
  size = 28;
  cm_id = 5;
  child_cm_id = 0;
}

-- The channel before it is bound.
abbrev pub idle_cb : RdmaChCb
idle_cb = record open_cb { cq = 0; pd = 0; qp = 0; state = idle }
