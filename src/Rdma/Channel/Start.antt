-- ===== src/Rdma/Channel/Start.antt =====
-- init_rdma_ch in a kernel where every call succeeds and the connection comes up.
use rpc_kern.Base.{
  ℕ, ◌+◌, ◌<◌, ◌≤◌, ◌≡◌, refl, ◌∙◌, ap, subst, false, Option, none, some, List, ◌++◌, arith, ℤ,
  length, ==_false, if_false, ◌-◌, ◌*◌, sym,
}
use rpc_kern.Message.{ByteOrder, msgheader_size, msgbuf_size}
use rpc_kern.Kernel
use rpc_kern.Kernel.{
  Kind, World, Wakeup, event, CmEvent, Run, Verbs, M, ok, and_then, pure, alive, put, tick,
}
use rpc_kern.Kernel.Returns.{Returns, returns, chain, weaken}
use rpc_kern.Kernel.Succeed.{AllSucceed, with_new, kzalloc-new, make-new}
use rpc_kern.Rdma.{RdmaChCb, connected, idle}
use rpc_kern.Rdma.Setup.Buffers.{HasBufs, HasMaps, Sized, indices}
use rpc_kern.Rdma.Channel.{
  RdmaChAttr, run_client, new_cb, start_ch, init_rdma_ch, destroy_rdma_client,
}
use rpc_kern.Rdma.Channel.Life.{Opened, destroy-Opened, length-new_ctxs}
use rpc_kern.Rdma.Channel.Running.{comes_up, Running, run_client-Running}

-- The channel that init_rdma_ch returns.
pub record Inited (attr : RdmaChAttr) (rest : List Wakeup) (w : World) (out : Option RdmaChCb)
    (w' : World) : Type 0 where
  pub cb : RdmaChCb
  pub returned : out ≡ some cb
  pub opened : Opened attr.msgbuf_cnt w cb w'
  pub posted : w'.posted ≡ w.posted ++ indices 0 attr.msgbuf_cnt
  pub script : w'.script ≡ rest
  pub data_size : cb.msgdata_size ≡ attr.msgdata_size
  pub bitmaps : w'.bitmaps ≡ w.bitmaps
  pub sent : w'.sent ≡ w.sent
  pub next : w'.next ≡ w.next + 6 + 4 * attr.msgbuf_cnt
  pub state : cb.state ≡ connected
  pub fit : cb.msgbuf_size ≡ cb.msgdata_size + msgheader_size

module _ (order : ByteOrder) (v : Verbs) (all : AllSucceed v) (attr : RdmaChAttr)
    (rest : List Wakeup) (w : World) (client : attr.server ≡ false) (not_null : 0 < w.next)
    (unused : (a : ℕ) → w.next ≤ a → w.live a ≡ none) (script : w.script ≡ comes_up rest) where
  abbrev based : World
  based = with_new Kernel.cm_id (with_new Kernel.memory (with_new Kernel.memory w))

  abbrev based_cb : RdmaChCb
  based_cb = record (new_cb order attr w.next (w.next + 1)) { cm_id = w.next + 1 + 1 }

  client_cb : (new_cb order attr w.next (w.next + 1)).server ≡ false
  unfolding new_cb
  client_cb = client

  state_cb : (new_cb order attr w.next (w.next + 1)).state ≡ idle
  unfolding new_cb
  state_cb = refl

  started :
      start_ch v
        (new_cb order attr w.next (w.next + 1))
        (with_new Kernel.memory (with_new Kernel.memory w))
      ≡ and_then (run_client v based_cb based) (λ out. pure (some out.0))
  unfolding start_ch
  started =
      rw
        (make-new v.create_id Kernel.cm_id (with_new Kernel.memory (with_new Kernel.memory w))
          (all.create_id _))
        (ap (λ (m : M (Option RdmaChCb)). m based)
          (if_false (new_cb order attr w.next (w.next + 1)).server _ _ client_cb))

  data_size :
      (new_cb order attr w.next (w.next + 1)).msgbuf_size - msgheader_size
      ≡ (new_cb order attr w.next (w.next + 1)).msgdata_size
  unfolding new_cb msgbuf_size
  data_size = omega arith

  new_fit :
      (new_cb order attr w.next (w.next + 1)).msgbuf_size
      ≡ (new_cb order attr w.next (w.next + 1)).msgdata_size + msgheader_size
  unfolding new_cb msgbuf_size
  new_fit = refl

  new_length : length (new_cb order attr w.next (w.next + 1)).buf_ctxs ≡ attr.msgbuf_cnt
  unfolding new_cb
  new_length = length-new_ctxs attr.msgbuf_cnt 0

  new_indices :
      indices 0 (length (new_cb order attr w.next (w.next + 1)).buf_ctxs)
      ≡ indices 0 attr.msgbuf_cnt
  unfolding new_cb
  new_indices = ap (indices 0) (length-new_ctxs attr.msgbuf_cnt 0)

  attr_data_size : (new_cb order attr w.next (w.next + 1)).msgdata_size ≡ attr.msgdata_size
  unfolding new_cb
  attr_data_size = refl

  Running-Opened :
      (out : RdmaChCb × ℤ) (w' : World)
      → Running based_cb rest based out w'
      → Opened attr.msgbuf_cnt w out.0 w'
  unfolding new_cb
  Running-Opened out w' r =
      let len : length r.mbs ≡ attr.msgbuf_cnt = r.len ∙ length-new_ctxs attr.msgbuf_cnt 0 in
      record {
        server = ap (λ (c : RdmaChCb). c.server) r.stored ∙ client;
        self = ap (λ (c : RdmaChCb). c.self) r.stored;
        buf_ctxs_addr = ap (λ (c : RdmaChCb). c.buf_ctxs_addr) r.stored;
        cm_id = ap (λ (c : RdmaChCb). c.cm_id) r.stored ∙ omega arith;
        pd = ap (λ (c : RdmaChCb). c.pd) r.stored ∙ omega arith;
        cq = ap (λ (c : RdmaChCb). c.cq) r.stored ∙ omega arith;
        qp = ap (λ (c : RdmaChCb). c.qp) r.stored ∙ omega arith;
        count = ap (λ (c : RdmaChCb). c.msgbuf_cnt) r.stored;
        sized = rw r.stored (subst (λ s. Sized s r.mbs) data_size r.sized);
        len = ap (λ (c : RdmaChCb). length c.buf_ctxs) r.stored ∙ len;
        numbered = rw r.stored r.numbered;
        bufs = rw r.stored (subst (λ b. HasBufs b r.mbs) (omega arith) r.bufs);
        maps = rw r.stored (subst (λ b. HasMaps b r.mbs) (omega (arith, len)) r.maps);
        live = λ a. r.live a ∙ ground (arith, len);
      }

  pub init_rdma_ch-Inited : Returns (Inited attr rest w) (init_rdma_ch order v attr w)
  unfolding init_rdma_ch
  init_rdma_ch-Inited =
      rw
        (
          kzalloc-new v all w,
          ==_false w.next 0 not_null,
          kzalloc-new v all (with_new Kernel.memory w),
          ==_false (w.next + 1) 0 (omega arith),
          started,
        )
        (chain
          (run_client-Running v all based_cb rest based client_cb state_cb (ground arith)
            (λ a h. ground (arith, unused a)) script)
          λ out w1 r. returns (record {
            cb = out.0;
            returned = refl;
            opened = Running-Opened out w1 r;
            posted = r.posted ∙ ap (λ t. w.posted ++ t) (r.ids ∙ new_indices);
            script = r.script';
            bitmaps = r.bitmaps;
            sent = r.sent;
            next = r.next ∙ omega (arith, r.len ∙ new_length);
            state = ap (λ (c : RdmaChCb). c.state) r.stored;
            fit =
                ap (λ (c : RdmaChCb). c.msgbuf_size) r.stored
                ∙ new_fit
                ∙ ap (λ (c : RdmaChCb). c.msgdata_size + msgheader_size) (sym r.stored);
            data_size = ap (λ (c : RdmaChCb). c.msgdata_size) r.stored ∙ attr_data_size;
          }))

  -- Where every call into the kernel succeeds, the connection comes up, and addresses not yet given
  -- out are not alive, init_rdma_ch for a client returns a channel in state CONNECTED with
  -- `msgbuf_cnt` contexts, and has posted one receive for each, with its index, in order; and
  -- destroy_rdma_client on it returns and leaves alive exactly what was alive before.
  pub init_rdma_ch-destroy_rdma_client :
      Returns
        (λ out w1.
          (cb : RdmaChCb) × (out ≡ some cb)
          × (cb.state ≡ connected)
          × (length cb.buf_ctxs ≡ attr.msgbuf_cnt)
          × (w1.posted ≡ w.posted ++ indices 0 attr.msgbuf_cnt)
          × Returns (λ _ w2. (a : ℕ) → w2.live a ≡ w.live a) (destroy_rdma_client cb w1))
        (init_rdma_ch order v attr w)
  init_rdma_ch-destroy_rdma_client = weaken init_rdma_ch-Inited λ out w1 i. (
    i.cb,
    i.returned,
    i.state,
    i.opened.len,
    i.posted,
    destroy-Opened attr.msgbuf_cnt w i.cb w1 i.opened not_null unused,
  )
