-- ===== src/Rdma/Channel.antt =====
-- rdma.c: the life of a client's channel, from init_rdma_ch to destroy_rdma_client.
pub mod Failure
pub mod Undone
pub mod Life
pub mod Ready
pub mod Running
pub mod Start
use rpc_kern.Base.{
  ℕ, ◌+◌, Bool, true, false, not, Option, none, some, List, [], ◌∷◌, ◌++◌, ℤ, pos, negsuc, is_zero,
  take, ◌==◌, if◌then◌else◌,
}
use rpc_kern.Message.{RdmaMsg, ByteOrder, msgheader_size, msgbuf_size}
use rpc_kern.Kernel
use rpc_kern.Kernel.{
  World, Verbs, Run, ok, fault, M, pure, and_then, ◌>>=◌, ◌>>◌, null, alive, destroy, kzalloc,
  kfree, make, made, failed, post_recv, Sge,
}
use rpc_kern.Rdma.{RdmaChState, idle, MsgbufCtx, RdmaChCb, Sockaddr, RecvWr, SendWr, none_set}
use rpc_kern.Rdma.Cm.{bind_client, connect_client, af_inet}
use rpc_kern.Rdma.Setup.{setup_qp, setup_buffers, kfree_buffers, kfree_qp, kfree_cb, zero_msg}

-- struct rdma_ch_attr; the callbacks are addresses of functions.
pub record RdmaChAttr : Type 0 where
  pub port : ℕ
  pub server : Bool
  pub ip_addr : List ℕ
  pub msgbuf_cnt : ℕ
  pub msgdata_size : ℕ
  pub rpc_msg_handler_cb : ℕ
  pub user_msg_handler_cb : ℕ

-- A receive is posted for each context in turn, up to the first failure.
unfoldable pub post_recvs : Verbs → ℕ → List MsgbufCtx → M ℤ
post_recvs v qp [] = pure (pos 0)
post_recvs v qp (mb ∷ mbs) = do
  alive Kernel.qp qp
  ret ← post_recv v mb.rq_wr.wr_id
  if not (is_zero ret) then pure ret else post_recvs v qp mbs

-- The labels of run_client: `err3` and `err2` free the buffers, and fall into `err1`.
abbrev pub run_err1 : RdmaChCb → ℤ → M (RdmaChCb × ℤ)
run_err1 cb ret = kfree_qp cb >> pure (cb, ret)

abbrev pub run_err2 : RdmaChCb → ℤ → M (RdmaChCb × ℤ)
run_err2 cb ret = kfree_buffers cb >> run_err1 cb ret

-- After the buffers have been set up.
unfoldable pub post_and_connect : Verbs → RdmaChCb → M (RdmaChCb × ℤ)
post_and_connect v cb = do
  ret ← post_recvs v cb.qp cb.buf_ctxs
  if not (is_zero ret) then run_err2 cb ret else do
    (cb, ret) ← connect_client v cb
    if not (is_zero ret) then run_err2 cb ret else pure (cb, pos 0)

unfoldable pub run_client : Verbs → RdmaChCb → M (RdmaChCb × ℤ)
run_client v cb = do
  (cb, ret) ← bind_client v cb
  if not (is_zero ret) then pure (cb, ret) else do
    (cb, ret) ← setup_qp v cb cb.cm_id
    if not (is_zero ret) then pure (cb, ret) else do
      (cb, ret) ← setup_buffers v cb
      if not (is_zero ret) then run_err1 cb ret else post_and_connect v cb

-- `addr` points to the address's four bytes.
unfoldable pub fill_sockaddr : List ℕ → ℕ → Sockaddr
fill_sockaddr addr port = record { family = af_inet; addr = take 4 addr; port = port }

abbrev pub no_sge : Sge
no_sge = record { addr = 0; length = 0; lkey = 0 }

-- A zeroed context, with its id and its first number.
abbrev pub new_ctx : ℕ → MsgbufCtx
new_ctx i = record {
  id = i;
  rq_wr = record { wr_id = 0; sg_list = no_sge; num_sge = 0 };
  recv_buf = 0;
  recv_msg = zero_msg 0;
  recv_mr = 0;
  recv_mapping = 0;
  sq_wr = record { wr_id = 0; sg_list = no_sge; num_sge = 0; opcode = none_set; signaled = false };
  send_buf = 0;
  send_msg = zero_msg 0;
  send_mr = 0;
  send_mapping = 0;
  seqn = 1;
}

-- `left` contexts, from index `i` on.
unfoldable pub new_ctxs : ℕ → ℕ → List MsgbufCtx
new_ctxs ℕ.zero i = []
new_ctxs (ℕ.suc left) i = new_ctx i ∷ new_ctxs left (i + 1)

-- The block before it has an id.
unfoldable pub new_cb : ByteOrder → RdmaChAttr → (self buf_ctxs_addr : ℕ) → RdmaChCb
unfolding new_ctxs fill_sockaddr
new_cb order attr self buf_ctxs_addr = record {
  self = self;
  server = attr.server;
  cq = 0;
  pd = 0;
  qp = 0;
  msgbuf_cnt = attr.msgbuf_cnt;
  msgbuf_size = msgbuf_size attr.msgdata_size;
  msgheader_size = msgheader_size;
  msgdata_size = attr.msgdata_size;
  buf_ctxs_addr = buf_ctxs_addr;
  buf_ctxs = new_ctxs attr.msgbuf_cnt 0;
  rpc_msg_handler_cb = attr.rpc_msg_handler_cb;
  user_msg_handler_cb = attr.user_msg_handler_cb;
  state = idle;
  sem = 0;
  sin =
      if attr.server
      then record { family = af_inet; addr = []; port = 0 }
      else fill_sockaddr attr.ip_addr attr.port;
  port = order.htons attr.port;
  size = msgbuf_size attr.msgdata_size;
  cm_id = 0;
  child_cm_id = 0;
}

-- The labels of init_rdma_ch, each of which falls into the next; all end in `NULL`.
abbrev pub out4 : RdmaChCb → M (Option RdmaChCb)
out4 cb = kfree cb.self >> pure none

abbrev pub out2 : RdmaChCb → M (Option RdmaChCb)
out2 cb = kfree cb.buf_ctxs_addr >> out4 cb

abbrev pub out1 : RdmaChCb → M (Option RdmaChCb)
out1 cb = destroy Kernel.cm_id cb.cm_id >> out2 cb

-- After both allocations. The result of run_client is dropped.
unfoldable pub start_ch : Verbs → RdmaChCb → M (Option RdmaChCb)
start_ch v cb = do
  id ← make v.create_id Kernel.cm_id
  elim id [
    | failed code ↦ out2 cb
    | made p ↦
        if cb.server
        then out1 (record cb { cm_id = p })
        else do (cb, dropped) ← run_client v (record cb { cm_id = p }); pure (some cb)
  ]

-- `none` for `NULL`.
unfoldable pub init_rdma_ch : ByteOrder → Verbs → RdmaChAttr → M (Option RdmaChCb)
init_rdma_ch order v attr = do
  self ← kzalloc v
  if self == null then pure none else do
    buf_ctxs_addr ← kzalloc v
    let cb = new_cb order attr self buf_ctxs_addr
    if buf_ctxs_addr == null then out4 cb else start_ch v cb

unfoldable pub destroy_rdma_client : RdmaChCb → M (Unit {0})
destroy_rdma_client cb = do
  alive Kernel.memory cb.self
  if cb.server then pure tt else do
    alive Kernel.cm_id cb.cm_id
    kfree_buffers cb
    kfree_qp cb
    destroy Kernel.cm_id cb.cm_id
    kfree cb.buf_ctxs_addr
    kfree cb.self
