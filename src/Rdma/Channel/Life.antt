-- ===== src/Rdma/Channel/Life.antt =====
-- A client's channel from init_rdma_ch to destroy_rdma_client, in a kernel where every call succeeds.
use rpc_kern.Base.{
  ℕ, zero, suc, ◌+◌, ◌*◌, ◌<◌, ◌≤◌, ◌≡◌, refl, ◌∙◌, sym, ap, false, none, some, List, [], ◌∷◌, ◌++◌,
  append_assoc, append-nil, ◌==◌, if◌then◌else◌, arith, pos, length, ==_false,
}
use rpc_kern.Kernel
use rpc_kern.Kernel.{
  Kind, World, Wakeup, event, CmEvent, Run, Verbs, M, ok, and_then, pure, alive, destroy, make, put,
  tick, kzalloc, kfree, post_recv,
}
use rpc_kern.Kernel.Owned.{alive-ok, destroy-ok, kfree-ok}
use rpc_kern.Kernel.Returns.{Returns, returns, chain, weaken}
use rpc_kern.Kernel.Succeed.{AllSucceed, within}
use rpc_kern.Rdma.{MsgbufCtx, RdmaChCb}
use rpc_kern.Rdma.Setup.{kfree_buffers, kfree_qp}
use rpc_kern.Rdma.Setup.Buffers.{HasBufs, Numbered, HasMaps, wr_ids, Sized}
use rpc_kern.Rdma.Setup.Release.{unmap_and_free-Released}
use rpc_kern.Rdma.Channel.{post_recvs, new_ctxs, destroy_rdma_client}

-- Every receive is posted, in the order of the contexts.
pub post_recvs-posted :
    (v : Verbs) (all : AllSucceed v) (qp : ℕ) (mbs : List MsgbufCtx) (w : World)
    → w.live qp ≡ some Kernel.qp
    → Returns
        (λ ret w'.
          (ret ≡ pos 0)
          × (w'.posted ≡ w.posted ++ wr_ids mbs)
          × (w'.live ≡ w.live)
          × (w'.next ≡ w.next)
          × (w'.script ≡ w.script)
          × (w'.bitmaps ≡ w.bitmaps)
          × (w'.sent ≡ w.sent))
        (post_recvs v qp mbs w)
unfolding post_recvs post_recv
post_recvs-posted v all qp [] w l =
    returns (refl, sym (append-nil w.posted), refl, refl, refl, refl, refl)
post_recvs-posted v all qp (mb ∷ mbs) w l =
    let w1 = record (tick w) { posted = w.posted ++ mb.rq_wr.wr_id ∷ [] } in
    rw (alive-ok _ _ w l, all.post_recv)
      (weaken (post_recvs-posted v all qp mbs w1 l) λ ret w' (r, p, a, n, s, b, t).
        (r, p ∙ append_assoc w.posted (mb.rq_wr.wr_id ∷ []) (wr_ids mbs), a, n, s, b, t))

-- The objects of an open channel: its block and contexts, its id, domain, queue and queue pair, and
-- the buffers and mappings of its message buffers; all that was alive in `w` still is.
pub record Opened (n : ℕ) (w : World) (cb : RdmaChCb) (w' : World) : Type 0 where
  pub server : cb.server ≡ false
  pub self : cb.self ≡ w.next
  pub buf_ctxs_addr : cb.buf_ctxs_addr ≡ w.next + 1
  pub cm_id : cb.cm_id ≡ w.next + 2
  pub pd : cb.pd ≡ w.next + 3
  pub cq : cb.cq ≡ w.next + 4
  pub qp : cb.qp ≡ w.next + 5
  pub count : cb.msgbuf_cnt ≡ n
  pub len : length cb.buf_ctxs ≡ n
  pub bufs : HasBufs (w.next + 6) cb.buf_ctxs
  pub sized : Sized cb.msgdata_size cb.buf_ctxs
  pub numbered : Numbered 0 cb.buf_ctxs
  pub maps : HasMaps (w.next + 6 + 2 * n) cb.buf_ctxs
  pub live :
      (a : ℕ)
      → w'.live a ≡ (
          if within (w.next + 6) (w.next + 6 + 2 * n) a
          then some Kernel.memory
          else if within (w.next + 6 + 2 * n) (w.next + 6 + 4 * n) a
          then some Kernel.dma_map
          else if w.next + 5 == a
          then some Kernel.qp
          else if w.next + 4 == a
          then some Kernel.cq
          else if w.next + 3 == a
          then some Kernel.pd
          else if w.next + 2 == a
          then some Kernel.cm_id
          else if w.next + 1 == a
          then some Kernel.memory
          else if w.next == a
          then some Kernel.memory
          else w.live a)

pub length-new_ctxs : (n i : ℕ) → length (new_ctxs n i) ≡ n
unfolding new_ctxs
length-new_ctxs zero i = refl
length-new_ctxs (suc n) i = ap suc (length-new_ctxs n (i + 1))

-- Destroying an open channel releases all that it holds and nothing else.
pub destroy-Opened :
    (n : ℕ) (w : World) (cb : RdmaChCb) (w' : World)
    → Opened n w cb w'
    → 0 < w.next
    → ((a : ℕ) → w.next ≤ a → w.live a ≡ none)
    → Returns (λ _ w''. (a : ℕ) → w''.live a ≡ w.live a) (destroy_rdma_client cb w')
unfolding destroy_rdma_client kfree_buffers kfree_qp
destroy-Opened n w cb w' o nn unused =
    let self : w'.live cb.self ≡ some Kernel.memory = ground (arith, o.live cb.self) in
    let id : w'.live cb.cm_id ≡ some Kernel.cm_id = ground (arith, o.live cb.cm_id) in
    let dom : w'.live cb.pd ≡ some Kernel.pd = ground (arith, o.live cb.pd) in
    rw (alive-ok _ _ w' self, o.server, alive-ok _ _ w' id)
      (chain
        (unmap_and_free-Released cb.pd cb.buf_ctxs (w.next + 6) (w.next + 6 + 2 * n) w'
          (omega arith) (omega arith) (omega arith) dom o.bufs o.maps
          (λ a i. o.live a ∙ ground arith) (λ a i. o.live a ∙ ground arith))
        λ _ w1 r.
          let w2 = record w1 { live = put w1.live cb.qp none } in
          let w3 = record w1 { live = put w2.live cb.cq none } in
          let w4 = record w1 { live = put w3.live cb.pd none } in
          let w5 = record w1 { live = put w4.live cb.cm_id none } in
          let w6 = record w1 { live = put w5.live cb.buf_ctxs_addr none } in
          let l1 : w1.live cb.qp ≡ some Kernel.qp = r.live cb.qp ∙ ground (arith, o.live cb.qp) in
          let l2 : w2.live cb.cq ≡ some Kernel.cq = ground (arith, r.live cb.cq, o.live cb.cq) in
          let l3 : w3.live cb.pd ≡ some Kernel.pd = ground (arith, r.live cb.pd, o.live cb.pd) in
          let l4 : w4.live cb.cm_id ≡ some Kernel.cm_id =
            ground (arith, r.live cb.cm_id, o.live cb.cm_id) in
          let l5 : w5.live cb.buf_ctxs_addr ≡ some Kernel.memory =
            ground (arith, r.live cb.buf_ctxs_addr, o.live cb.buf_ctxs_addr) in
          let l6 : w6.live cb.self ≡ some Kernel.memory =
            ground (arith, r.live cb.self, o.live cb.self) in
          rw
            (
              destroy-ok _ _ w1 l1,
              destroy-ok _ _ w2 l2,
              destroy-ok _ _ w3 l3,
              destroy-ok _ _ w4 l4,
              kfree-ok _ w5 (==_false _ 0 (omega arith)) l5,
              kfree-ok _ w6 (==_false _ 0 (omega arith)) l6,
            )
            (returns (λ a. ground (arith, r.live a, o.live a, unused a))))
