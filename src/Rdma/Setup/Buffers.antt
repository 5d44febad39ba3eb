-- ===== src/Rdma/Setup/Buffers.antt =====
-- The buffers of a channel that setup_buffers allocates and maps.
pub use rpc_kern.Rdma.Setup.Layout.{HasBufs, HasMaps, Sized, Numbered, wr_ids, indices}
use rpc_kern.Base.{
  ℕ, suc, ◌+◌, ◌-◌, ◌*◌, ◌<◌, ◌≡◌, refl, ◌∙◌, ap, subst, true, some, List, [], ◌∷◌, if◌then◌else◌,
  arith, ℤ, pos, length, ==_false, length-replicate,
}
use rpc_kern.Message.{msgheader_size}
use rpc_kern.Kernel
use rpc_kern.Kernel.{
  World, Run, Verbs, M, ok, fault, and_then, pure, alive, put, kzalloc, kfree, destroy,
  dma_map_single,
}
use rpc_kern.Kernel.Owned.{alive-ok}
use rpc_kern.Kernel.Returns.{Returns, returns, chain, and_then_assoc}
use rpc_kern.Kernel.Succeed.{
  AllSucceed, within, SameRest, SameRest-trans, with_new, kzalloc-new, dma_map_single-new,
}
use rpc_kern.Rdma.{MsgbufCtx, RdmaChCb}
use rpc_kern.Rdma.Setup.{
  read_pd, alloc_bufs, alloc_msg_buffers, map_bufs, set_wrs, setup_wr, setup_buffers,
}
use rpc_kern.Rdma.Setup.Layout.{
  Grown, Grown-none, Grown-two, set_wrs-keeps, set_wrs-wr_ids, set_wrs-Numbered,
}

module _ (v : Verbs) (all : AllSucceed v) where
  alloc_bufs-Grown :
      (size : ℕ) (mbs : List MsgbufCtx) (w : World)
      → Returns
          (λ mbs' w'.
            HasBufs w.next mbs'
            × Sized (size - msgheader_size) mbs'
            × (length mbs' ≡ length mbs)
            × Grown Kernel.memory (length mbs) w w')
          (alloc_bufs v size mbs w)
  unfolding alloc_bufs
  alloc_bufs-Grown size [] w = returns (tt, tt, refl, Grown-none Kernel.memory w)
  alloc_bufs-Grown size (mb ∷ mbs) w =
      rw (kzalloc-new v all w, kzalloc-new v all (with_new Kernel.memory w))
        (chain (alloc_bufs-Grown size mbs (with_new Kernel.memory (with_new Kernel.memory w)))
          λ mbs' w' (bufs, sized, len, grown).
            let full = length-replicate {0} {A = ℕ} (size - msgheader_size) 0 in
            returns (
              (refl, refl, bufs),
              (full, full, sized),
              ap suc len,
              Grown-two Kernel.memory (length mbs) w w' grown,
            ))

  map_bufs-Grown :
      (pd : ℕ) (mbs : List MsgbufCtx) (p s : ℕ) (w : World)
      → 0 < w.next
      → pd < w.next
      → w.live pd ≡ some Kernel.pd
      → HasBufs p mbs
      → Sized s mbs
      → Returns
          (λ out w'.
            (out.1 ≡ true)
            × HasBufs p out.0
            × Sized s out.0
            × HasMaps w.next out.0
            × (length out.0 ≡ length mbs)
            × Grown Kernel.dma_map (length mbs) w w')
          (map_bufs v pd mbs w)
  unfolding map_bufs
  map_bufs-Grown pd [] p s w nn low dom bufs sized =
      returns (refl, tt, tt, tt, refl, Grown-none Kernel.dma_map w)
  map_bufs-Grown pd (mb ∷ mbs) p s w nn low dom (b0, b1, bufs) (s0, s1, sized) =
      let w1 = with_new Kernel.dma_map w in
      let w2 = with_new Kernel.dma_map w1 in
      rw
        (
          alive-ok _ _ w dom,
          dma_map_single-new v all w,
          ==_false w.next 0 nn,
          dma_map_single-new v all w1,
          ==_false (w.next + 1) 0 (omega arith),
        )
        (chain
          (map_bufs-Grown pd mbs (p + 1 + 1) s w2 (omega arith) (omega arith) (ground arith) bufs
            sized)
          λ out w' (done, bufs', sized', maps, len, grown). returns (
            done,
            (b0, b1, bufs'),
            (s0, s1, sized'),
            (refl, refl, maps),
            ap suc len,
            Grown-two Kernel.dma_map (length mbs) w w' grown,
          ))

pub read_pd-ok :
    (pd : ℕ) (mbs : List MsgbufCtx) (w : World)
    → w.live pd ≡ some Kernel.pd
    → read_pd pd mbs w ≡ ok tt w
unfolding read_pd
read_pd-ok pd [] w dom = refl
read_pd-ok pd (mb ∷ mbs) w dom = alive-ok Kernel.pd pd w dom

-- The contexts and the world after setup_buffers.
pub record Up (p : ℕ) (cb : RdmaChCb) (w : World) (out : RdmaChCb × ℤ) (w' : World) : Type 0 where
  pub code : out.1 ≡ pos 0
  pub mbs : List MsgbufCtx
  pub stored : out.0 ≡ record cb { buf_ctxs = mbs }
  pub len : length mbs ≡ length cb.buf_ctxs
  pub ids : wr_ids mbs ≡ indices 0 (length cb.buf_ctxs)
  pub numbered : Numbered 0 mbs
  pub bufs : HasBufs p mbs
  pub sized : Sized (cb.msgbuf_size - msgheader_size) mbs
  pub maps : HasMaps (p + 2 * length mbs) mbs
  pub next : w'.next ≡ p + 2 * length mbs + 2 * length mbs
  pub live :
      (a : ℕ)
      → w'.live a ≡ (
          if within p (p + 2 * length mbs) a
          then some Kernel.memory
          else if within (p + 2 * length mbs) (p + 2 * length mbs + 2 * length mbs) a
          then some Kernel.dma_map
          else w.live a)
  pub rest : SameRest w w'

Up-intro :
    (v : Verbs) (cb : RdmaChCb) (w w1 w2 : World) (mbs out : List MsgbufCtx)
    → length mbs ≡ length cb.buf_ctxs
    → Grown Kernel.memory (length cb.buf_ctxs) w w1
    → HasBufs w.next out
    → Sized (cb.msgbuf_size - msgheader_size) out
    → HasMaps w1.next out
    → length out ≡ length mbs
    → Grown Kernel.dma_map (length mbs) w1 w2
    → Up w.next cb w
        (record cb { buf_ctxs = set_wrs v (record cb { buf_ctxs = out }) 0 out }, pos 0)
        w2
Up-intro v cb w w1 w2 mbs out len g bufs sized maps len' g' =
    let done = set_wrs v (record cb { buf_ctxs = out }) 0 out in
    let (b, z, m, l) =
      set_wrs-keeps v (record cb { buf_ctxs = out }) 0 w.next w1.next _ out bufs sized maps in
    let here : w1.next ≡ w.next + 2 * length done = omega (arith, g.next) in
    record {
      code = refl;
      mbs = done;
      stored = refl;
      len = l ∙ len' ∙ len;
      ids = set_wrs-wr_ids v (record cb { buf_ctxs = out }) 0 out ∙ ap (indices 0) (len' ∙ len);
      numbered = set_wrs-Numbered v (record cb { buf_ctxs = out }) 0 out;
      bufs = b;
      sized = z;
      maps = subst (λ q. HasMaps q done) here m;
      next = omega (arith, g'.next);
      live = λ a. ground (arith, g'.live a, g.live a, g.next, g'.next);
      rest = SameRest-trans g.rest g'.rest;
    }

-- Where every call succeeds and the protection domain is alive, setup_buffers returns 0 with as
-- many contexts as before; each has its index as the id of its two requests, two new live buffers,
-- whose messages have the data size that goes with the channel's buffer size, and two new live
-- mappings, all at different addresses; nothing else that is alive changes, and no other field of
-- the block does.
pub setup_buffers-Up :
    (v : Verbs) (all : AllSucceed v) (cb : RdmaChCb) (w : World)
    → 0 < w.next
    → cb.pd < w.next
    → w.live cb.pd ≡ some Kernel.pd
    → Returns (Up w.next cb w) (setup_buffers v cb w)
unfolding setup_buffers alloc_msg_buffers setup_wr
setup_buffers-Up v all cb w nn low dom =
    rw (and_then_assoc (alloc_bufs v cb.msgbuf_size cb.buf_ctxs w) _ _) (
      chain (alloc_bufs-Grown v all cb.msgbuf_size cb.buf_ctxs w) λ mbs w1 (bufs, sized, len, g).
        let dom1 : w1.live cb.pd ≡ some Kernel.pd = g.live cb.pd ∙ ground arith in
        chain
          (map_bufs-Grown v all cb.pd mbs w.next (cb.msgbuf_size - msgheader_size) w1
            (omega (arith, g.next)) (omega (arith, g.next)) dom1 bufs sized)
          λ out w2 (done, bufs', sized', maps, len', g').
            let dom2 : w2.live cb.pd ≡ some Kernel.pd = g'.live cb.pd ∙ ground (arith, g.next) in
            rw (done, read_pd-ok cb.pd out.0 w2 dom2)
              (returns (Up-intro v cb w w1 w2 mbs out.0 len g bufs' sized' maps len' g')))
