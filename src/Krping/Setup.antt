-- ===== src/Krping/Setup.antt =====
-- bak/krping.c: what the prototype allocates and registers before it connects, and how that is
-- released.
use rpc_kern.Base.{ℕ, ◌+◌, ◌-◌, ◌/◌, not, ℤ, pos, is_zero, ◌==◌, if◌then◌else◌}
use rpc_kern.Kernel
use rpc_kern.Kernel.{
  World, Verbs, Run, ok, fault, M, pure, and_then, ◌>>=◌, ◌>>◌, null, alive, destroy, create, call,
  make, made, failed, dma_map_single, tick,
}
use rpc_kern.Rdma.Receive.{enomem}
use rpc_kern.Rdma.Setup.{err_ptr}
use rpc_kern.Krping.{KrpingCb, KrpingVerbs}
use rpc_kern.Krping.Cq.{info_size}

abbrev pub page_size : ℕ
page_size = 4096

-- ib_dma_alloc_coherent; `NULL` on failure.
unfoldable pub alloc_coherent : KrpingVerbs → M ℕ
alloc_coherent u w = if u.coherent_ok w.clock then create Kernel.coherent w else ok null (tick w)

unfoldable pub krping_setup_wr : Verbs → KrpingCb → M KrpingCb
krping_setup_wr v cb = do
  alive Kernel.pd cb.pd
  pure (record cb {
    recv_sgl = record {
      addr = cb.recv_dma_addr;
      length = info_size;
      lkey = v.local_dma_lkey cb.pd;
    };
    send_sgl = record {
      addr = cb.send_dma_addr;
      length = info_size;
      lkey = v.local_dma_lkey cb.pd;
    };
  })

abbrev pub dereg_if : ℕ → M (Unit {0})
dereg_if mr = if mr == null then pure tt else destroy Kernel.mr mr

abbrev pub free_if : ℕ → M (Unit {0})
free_if buf = if buf == null then pure tt else destroy Kernel.coherent buf

-- The label `bail`: the two mappings stay. Its tests take an error pointer and `NULL` alike.
unfoldable pub bail : KrpingCb → ℤ → M (KrpingCb × ℤ)
bail cb ret = do
  dereg_if cb.reg_mr
  dereg_if cb.rdma_mr
  dereg_if cb.dma_mr
  free_if cb.rdma_buf
  free_if cb.start_buf
  pure (cb, ret)

-- ((size - 1) & PAGE_MASK) + PAGE_SIZE) >> PAGE_SHIFT, for a size of at least 1
abbrev pub pages : ℕ → ℕ
pages size = (size - 1) / page_size + 1

-- After the region has been made.
unfoldable pub alloc_start : Verbs → KrpingVerbs → KrpingCb → M (KrpingCb × ℤ)
unfolding bail
alloc_start v u cb = do
  start_buf ← alloc_coherent u
  let cb = record cb { start_buf = start_buf }
  if start_buf == null then bail cb enomem else do cb ← krping_setup_wr v cb; pure (cb, pos 0)

unfoldable pub alloc_region : Verbs → KrpingVerbs → KrpingCb → M (KrpingCb × ℤ)
unfolding bail
alloc_region v u cb = do
  let cb = record cb { page_list_len = pages cb.size }
  mr ← make u.alloc_mr Kernel.mr
  elim mr [
    | failed code ↦ bail (record cb { reg_mr = err_ptr }) code
    | made p ↦ alloc_start v u (record cb { reg_mr = p })
  ]

-- A failed mapping is not noticed.
unfoldable pub krping_setup_buffers : Verbs → KrpingVerbs → KrpingCb → M (KrpingCb × ℤ)
unfolding bail
krping_setup_buffers v u cb = do
  alive Kernel.pd cb.pd
  recv_mr ← dma_map_single v
  send_mr ← dma_map_single v
  rdma_buf ← alloc_coherent u
  let cb = record cb {
    recv_dma_addr = recv_mr;
    recv_mapping = recv_mr;
    send_dma_addr = send_mr;
    send_mapping = send_mr;
    rdma_buf = rdma_buf;
  }
  if rdma_buf == null then bail cb enomem else alloc_region v u cb

unfoldable pub krping_free_buffers : KrpingCb → M (Unit {0})
krping_free_buffers cb = do
  dereg_if cb.dma_mr
  dereg_if cb.rdma_mr
  dereg_if cb.start_mr
  dereg_if cb.reg_mr
  alive Kernel.pd cb.pd
  destroy Kernel.dma_map cb.recv_mapping
  destroy Kernel.dma_map cb.send_mapping
  destroy Kernel.coherent cb.rdma_buf
  free_if cb.start_buf

unfoldable pub krping_create_qp : Verbs → KrpingCb → M (KrpingCb × ℤ)
krping_create_qp v cb = do
  alive Kernel.cm_id (if is_zero cb.server then cb.cm_id else cb.child_cm_id)
  qp ← make v.create_qp Kernel.qp
  elim qp [ made p ↦ pure (record cb { qp = p }, pos 0) | failed code ↦ pure (cb, code) ]

unfoldable pub krping_free_qp : KrpingCb → M (Unit {0})
krping_free_qp cb = do destroy Kernel.qp cb.qp; destroy Kernel.cq cb.cq; destroy Kernel.pd cb.pd

-- The labels of krping_setup_qp: `err2` falls into `err1`.
abbrev pub krping_err1 : KrpingCb → ℤ → M (KrpingCb × ℤ)
krping_err1 cb ret = destroy Kernel.pd cb.pd >> pure (cb, ret)

abbrev pub krping_err2 : KrpingCb → ℤ → M (KrpingCb × ℤ)
krping_err2 cb ret = destroy Kernel.cq cb.cq >> krping_err1 cb ret

-- After the completion queue has been made.
unfoldable pub krping_arm_cq : Verbs → KrpingCb → M (KrpingCb × ℤ)
unfolding krping_create_qp
krping_arm_cq v cb = do
  ret ← call v.req_notify_cq
  if not (is_zero ret) then krping_err2 cb ret else do
    (cb, ret) ← krping_create_qp v cb
    if not (is_zero ret) then krping_err2 cb ret else pure (cb, pos 0)

unfoldable pub krping_setup_qp : Verbs → KrpingCb → ℕ → M (KrpingCb × ℤ)
unfolding krping_arm_cq
krping_setup_qp v cb cm_id = do
  alive Kernel.cm_id cm_id
  pd ← make v.alloc_pd Kernel.pd
  elim pd [
    | failed code ↦ pure (record cb { pd = err_ptr }, code)
    | made p ↦ do
      cq ← make v.create_cq Kernel.cq
      elim cq [
        | failed code ↦ krping_err1 (record cb { pd = p; cq = err_ptr }) code
        | made q ↦ krping_arm_cq v (record cb { pd = p; cq = q })
      ]
  ]
