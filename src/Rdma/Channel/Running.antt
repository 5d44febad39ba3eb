-- ===== src/Rdma/Channel/Running.antt =====
-- run_client in a kernel where every call succeeds and the connection comes up.
use rpc_kern.Base.{
  ℕ, ◌+◌, ◌*◌, ◌≤◌, ◌≡◌, refl, ◌∙◌, ap, subst, false, Option, none, some, List, ◌∷◌, ◌++◌,
  if◌then◌else◌, arith, ℤ, pos, length, ◌-◌,
}
use rpc_kern.Message.{msgheader_size}
use rpc_kern.Kernel
use rpc_kern.Kernel.{
  Kind, World, Wakeup, event, CmEvent, Run, Verbs, M, ok, and_then, pure, alive, put, tick,
}
use rpc_kern.Kernel.Returns.{Returns, returns, chain, weaken}
use rpc_kern.Kernel.Succeed.{AllSucceed, within, with_new}
use rpc_kern.Rdma.{MsgbufCtx, RdmaChCb, connected, route_resolved, idle}
use rpc_kern.Rdma.Cm.Sleep.{bind_client-resolved, connect_client-established}
use rpc_kern.Rdma.Setup.Queue.{setup_qp-ready}
use rpc_kern.Rdma.Setup.Buffers.{
  HasBufs, Numbered, HasMaps, Sized, wr_ids, indices, setup_buffers-Up,
}
use rpc_kern.Rdma.Channel.{post_and_connect, run_client}
use rpc_kern.Rdma.Channel.Life.{post_recvs-posted}

-- The connection manager resolves the address and the route, and establishes the connection.
abbrev pub comes_up : List Wakeup → List Wakeup
comes_up rest =
    event CmEvent.addr_resolved ∷ event CmEvent.route_resolved ∷ event CmEvent.established ∷ rest

module _ (cb : RdmaChCb) (rest : List Wakeup) (w : World) where
  -- The block and the world after bind_client and setup_qp.
  abbrev bound : World
  bound = record w { clock = w.clock + 1 + 1; script = event CmEvent.established ∷ rest }

  abbrev bound_cb : RdmaChCb
  bound_cb = record cb {
    sin = record cb.sin { port = cb.port };
    state = route_resolved;
    sem = cb.sem + 1;
  }

  abbrev with_qp : World
  with_qp = with_new Kernel.qp (tick (with_new Kernel.cq (with_new Kernel.pd bound)))

  abbrev qp_cb : RdmaChCb
  qp_cb = record bound_cb { pd = w.next; cq = w.next + 1; qp = w.next + 1 + 1 }

  -- The outcome of run_client.
  pub record Running (out : RdmaChCb × ℤ) (w' : World) : Type 0 where
    pub code : out.1 ≡ pos 0
    pub mbs : List MsgbufCtx
    pub stored : out.0 ≡ record qp_cb { buf_ctxs = mbs; state = connected; sem = cb.sem + 1 + 1 }
    pub len : length mbs ≡ length cb.buf_ctxs
    pub numbered : Numbered 0 mbs
    pub bufs : HasBufs (w.next + 3) mbs
    pub ids : wr_ids mbs ≡ indices 0 (length cb.buf_ctxs)
    pub sized : Sized (cb.msgbuf_size - msgheader_size) mbs
    pub maps : HasMaps (w.next + 3 + 2 * length mbs) mbs
    pub live :
        (a : ℕ)
        → w'.live a ≡ (
            if within (w.next + 3) (w.next + 3 + 2 * length mbs) a
            then some Kernel.memory
            else if within (w.next + 3 + 2 * length mbs) (w.next + 3 + 4 * length mbs) a
            then some Kernel.dma_map
            else with_qp.live a)
    pub posted : w'.posted ≡ w.posted ++ wr_ids mbs
    pub script' : w'.script ≡ rest
    pub bitmaps : w'.bitmaps ≡ w.bitmaps
    pub sent : w'.sent ≡ w.sent
    pub next : w'.next ≡ w.next + 3 + 4 * length mbs

module _ (v : Verbs) (all : AllSucceed v) where
  post_and_connect-ok :
      (cb : RdmaChCb) (rest : List Wakeup) (w : World)
      → cb.server ≡ false
      → cb.state ≡ route_resolved
      → w.live cb.qp ≡ some Kernel.qp
      → w.script ≡ event CmEvent.established ∷ rest
      → Returns
          (λ out w'.
            (out ≡ (record cb { state = connected; sem = cb.sem + 1 }, pos 0))
            × (w'.live ≡ w.live)
            × (w'.next ≡ w.next)
            × (w'.posted ≡ w.posted ++ wr_ids cb.buf_ctxs)
            × (w'.script ≡ rest)
            × (w'.bitmaps ≡ w.bitmaps)
            × (w'.sent ≡ w.sent))
          (post_and_connect v cb w)
  unfolding post_and_connect
  post_and_connect-ok cb rest w client state queue script =
      chain (post_recvs-posted v all cb.qp cb.buf_ctxs w queue) λ ret w1 (r, p, l, n, s, b, t).
        rw
          (
            r,
            connect_client-established v cb w1 rest client (rw state) (rw (all.connect w1.clock))
                (s ∙ script),
          )
          (returns (refl, l, n, p, refl, b, t))

  module _ (cb : RdmaChCb) (rest : List Wakeup) (w : World) (client : cb.server ≡ false)
      (state : cb.state ≡ idle) (id : w.live cb.cm_id ≡ some Kernel.cm_id)
      (unused : (a : ℕ) → w.next ≤ a → w.live a ≡ none) (script : w.script ≡ comes_up rest) where
    pub run_client-Running : Returns (Running cb rest w) (run_client v cb w)
    unfolding run_client
    run_client-Running =
        rw
          (
            bind_client-resolved v cb w (event CmEvent.established ∷ rest) (rw state)
                (rw (all.resolve_addr w.clock)) (rw (all.resolve_route (w.clock + 1))) script,
            setup_qp-ready v (bound_cb cb rest w) (bound cb rest w) client id unused all,
          )
          (chain
            (setup_buffers-Up v all (qp_cb cb rest w) (with_qp cb rest w) (omega arith)
              (omega arith) (ground arith))
            λ out w1 up.
              let cb1 = record (qp_cb cb rest w) { buf_ctxs = up.mbs } in
              let queue : w1.live (qp_cb cb rest w).qp ≡ some Kernel.qp =
                up.live (qp_cb cb rest w).qp ∙ ground arith in
              rw (up.code, up.stored)
                (weaken (post_and_connect-ok cb1 rest w1 client refl queue up.rest.script)
                  λ out' w2 (o, l, n, p, s, b, t). record {
                    code = ap (λ (r : RdmaChCb × ℤ). r.1) o;
                    mbs = up.mbs;
                    stored = ap (λ (r : RdmaChCb × ℤ). r.0) o;
                    len = up.len;
                    numbered = up.numbered;
                    bufs = subst (λ b. HasBufs b up.mbs) (omega arith) up.bufs;
                    sized = up.sized;
                    ids = up.ids;
                    maps = subst (λ b. HasMaps b up.mbs) (omega arith) up.maps;
                    live = λ a. ap (λ (f : ℕ → Option Kind). f a) l ∙ up.live a ∙ ground arith;
                    posted = p ∙ ap (λ t. t ++ wr_ids up.mbs) up.rest.posted;
                    script' = s;
                    bitmaps = b ∙ up.rest.bitmaps;
                    sent = t ∙ up.rest.sent;
                    next = n ∙ up.next ∙ omega arith;
                  }))
