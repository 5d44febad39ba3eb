-- ===== src/Rdma/Setup.antt =====
-- rdma.c: what a channel allocates and registers before it connects, and how that is released.
pub mod Layout
pub mod Buffers
pub mod Release
pub mod Queue
pub mod Unmapped
use rpc_kern.Base.{
  ℕ, ◌+◌, ◌-◌, Bool, true, false, not, Option, none, some, List, [], ◌∷◌, ℤ, pos, negsuc, is_zero,
  replicate, ◌==◌, if◌then◌else◌,
}
use rpc_kern.Message.{RdmaMsg, msgheader_size}
use rpc_kern.Kernel
use rpc_kern.Kernel.{
  World, Verbs, Run, ok, fault, M, pure, and_then, ◌>>=◌, ◌>>◌, null, alive, destroy, kzalloc,
  kfree, call, make, made, failed, dma_map_single,
}
use rpc_kern.Rdma.{RdmaChState, MsgbufCtx, RdmaChCb, wr_send}

-- The file's own `static int errno`, which nothing ever assigns.
abbrev pub errno : ℤ
errno = pos 0

-- An error pointer; like `NULL` it is the address of nothing.
abbrev pub err_ptr : ℕ
err_ptr = 0

-- The queue pair is made on the connection's id; a failed call leaves `qp` as it was.
-- Its capabilities are left out.
unfoldable pub create_qp : Verbs → RdmaChCb → M (RdmaChCb × ℤ)
create_qp v cb = do
  alive Kernel.cm_id (if cb.server then cb.child_cm_id else cb.cm_id)
  qp ← make v.create_qp Kernel.qp
  elim qp [ made p ↦ pure (record cb { qp = p }, pos 0) | failed code ↦ pure (cb, code) ]

-- The labels of setup_qp: `err3` falls into `err2`.
abbrev pub qp_err2 : RdmaChCb → ℤ → M (RdmaChCb × ℤ)
qp_err2 cb ret = destroy Kernel.pd cb.pd >> pure (cb, ret)

abbrev pub qp_err3 : RdmaChCb → ℤ → M (RdmaChCb × ℤ)
qp_err3 cb ret = destroy Kernel.cq cb.cq >> qp_err2 cb ret

-- After the completion queue has been made.
unfoldable pub arm_cq : Verbs → RdmaChCb → M (RdmaChCb × ℤ)
arm_cq v cb = do
  ret ← call v.req_notify_cq
  if not (is_zero ret) then qp_err3 cb errno else do
    (cb, ret) ← create_qp v cb
    if not (is_zero ret) then qp_err3 cb ret else pure (cb, pos 0)

unfoldable pub setup_qp : Verbs → RdmaChCb → ℕ → M (RdmaChCb × ℤ)
setup_qp v cb cm_id = do
  alive Kernel.cm_id cm_id
  pd ← make v.alloc_pd Kernel.pd
  elim pd [
    | failed code ↦ pure (record cb { pd = err_ptr }, code)
    | made p ↦ do
      cq ← make v.create_cq Kernel.cq
      elim cq [
        | failed code ↦ qp_err2 (record cb { pd = p; cq = err_ptr }) code
        | made q ↦ arm_cq v (record cb { pd = p; cq = q })
      ]
  ]

-- One round of the loop of setup_wr, for the context with index `i`.
unfoldable pub set_wr : Verbs → RdmaChCb → ℕ → MsgbufCtx → MsgbufCtx
set_wr v cb i mb = record mb {
  rq_wr = record {
    wr_id = i;
    sg_list = record { addr = mb.recv_mr; length = cb.msgbuf_size; lkey = v.local_dma_lkey cb.pd };
    num_sge = 1;
  };
  sq_wr = record {
    wr_id = i;
    sg_list = record { addr = mb.send_mr; length = cb.msgbuf_size; lkey = v.local_dma_lkey cb.pd };
    num_sge = 1;
    opcode = wr_send;
    signaled = true;
  };
}

-- The loops over the contexts run through `buf_ctxs`, which has `msgbuf_cnt` entries.
unfoldable pub set_wrs : Verbs → RdmaChCb → ℕ → List MsgbufCtx → List MsgbufCtx
unfolding set_wr
set_wrs v cb i [] = []
set_wrs v cb i (mb ∷ mbs) = set_wr v cb i mb ∷ set_wrs v cb (i + 1) mbs

-- The domain is read in every round of the loop, if there is one.
unfoldable pub read_pd : ℕ → List MsgbufCtx → M (Unit {0})
read_pd pd [] = pure tt
read_pd pd (mb ∷ mbs) = alive Kernel.pd pd

unfoldable pub setup_wr : Verbs → RdmaChCb → M RdmaChCb
unfolding read_pd
setup_wr v cb = do
  read_pd cb.pd cb.buf_ctxs
  pure (record cb { buf_ctxs = set_wrs v cb 0 cb.buf_ctxs })

-- A zeroed buffer of the given size, read as a message.
abbrev pub zero_msg : ℕ → RdmaMsg
zero_msg size = record {
  seq_num = 0;
  rpc_ch_addr = 0;
  sem_addr = 0;
  bytes = replicate (size - msgheader_size) 0;
}

-- No failed allocation is noticed.
unfoldable pub alloc_bufs : Verbs → ℕ → List MsgbufCtx → M (List MsgbufCtx)
alloc_bufs v size [] = pure []
alloc_bufs v size (mb ∷ mbs) = do
  recv_buf ← kzalloc v
  send_buf ← kzalloc v
  rest ← alloc_bufs v size mbs
  pure (
      record mb {
        recv_buf = recv_buf;
        recv_msg = zero_msg size;
        send_buf = send_buf;
        send_msg = zero_msg size;
      }
      ∷ rest)

unfoldable pub alloc_msg_buffers : Verbs → RdmaChCb → M (RdmaChCb × ℤ)
alloc_msg_buffers v cb = do
  mbs ← alloc_bufs v cb.msgbuf_size cb.buf_ctxs
  pure (record cb { buf_ctxs = mbs }, pos 0)

-- The loop that maps the buffers, up to the first failure: the contexts after it, and whether it
-- ran through.
unfoldable pub map_bufs : Verbs → ℕ → List MsgbufCtx → M (List MsgbufCtx × Bool)
map_bufs v pd [] = pure ([], true)
map_bufs v pd (mb ∷ mbs) = do
  alive Kernel.pd pd
  recv_mr ← dma_map_single v
  let mb = record mb { recv_mr = recv_mr; recv_mapping = recv_mr }
  if recv_mr == 0 then pure (mb ∷ mbs, false) else do
    send_mr ← dma_map_single v
    let mb = record mb { send_mr = send_mr; send_mapping = send_mr }
    if send_mr == 0
        then pure (mb ∷ mbs, false)
        else do (rest, done) ← map_bufs v pd mbs; pure (mb ∷ rest, done)

-- The label `err1`: ib_dereg_mr is called on what is a DMA address.
unfoldable pub dereg_mrs : List MsgbufCtx → M (Unit {0})
dereg_mrs [] = pure tt
dereg_mrs (mb ∷ mbs) = do
  if mb.recv_mr == 0 then pure tt else destroy Kernel.mr mb.recv_mr
  if mb.send_mr == 0 then pure tt else destroy Kernel.mr mb.send_mr
  dereg_mrs mbs

-- The label `err2`. The pointers keep their values.
unfoldable pub free_bufs : List MsgbufCtx → M (Unit {0})
free_bufs [] = pure tt
free_bufs (mb ∷ mbs) = do kfree mb.recv_buf; kfree mb.send_buf; free_bufs mbs

unfoldable pub setup_buffers : Verbs → RdmaChCb → M (RdmaChCb × ℤ)
setup_buffers v cb = do
  (cb, ret) ← alloc_msg_buffers v cb
  if not (is_zero ret) then (do free_bufs cb.buf_ctxs; pure (cb, ret)) else do
    (mbs, done) ← map_bufs v cb.pd cb.buf_ctxs
    let cb = record cb { buf_ctxs = mbs }
    if done
        then (do cb ← setup_wr v cb; pure (cb, pos 0))
        else do dereg_mrs mbs; free_bufs mbs; pure (cb, errno)

unfoldable pub unmap_and_free : ℕ → List MsgbufCtx → M (Unit {0})
unmap_and_free pd [] = pure tt
unmap_and_free pd (mb ∷ mbs) = do
  alive Kernel.pd pd
  destroy Kernel.dma_map mb.recv_mapping
  kfree mb.recv_buf
  destroy Kernel.dma_map mb.send_mapping
  kfree mb.send_buf
  unmap_and_free pd mbs

unfoldable pub kfree_buffers : RdmaChCb → M (Unit {0})
kfree_buffers cb = unmap_and_free cb.pd cb.buf_ctxs

unfoldable pub kfree_qp : RdmaChCb → M (Unit {0})
kfree_qp cb = do destroy Kernel.qp cb.qp; destroy Kernel.cq cb.cq; destroy Kernel.pd cb.pd

unfoldable pub kfree_cb : RdmaChCb → M (Unit {0})
kfree_cb cb = do kfree cb.buf_ctxs_addr; kfree cb.self

-- A copy of the block and of its contexts, which share the buffers; `none` for `NULL`.
unfoldable pub clone_cb : Verbs → RdmaChCb → M (Option RdmaChCb)
clone_cb v listening_cb = do
  self ← kzalloc v
  if self == null then pure none else do
    alive Kernel.cm_id listening_cb.child_cm_id
    buf_ctxs_addr ← kzalloc v
    if buf_ctxs_addr == null
        then (do kfree self; pure none)
        else pure (some (record listening_cb { self = self; buf_ctxs_addr = buf_ctxs_addr }))
