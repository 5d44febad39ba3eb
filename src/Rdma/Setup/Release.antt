-- ===== src/Rdma/Setup/Release.antt =====
-- What kfree_buffers releases.
use rpc_kern.Base.{
  ℕ, map, ◌+◌, ◌*◌, ◌<◌, ◌≤◌, ◌≡◌, refl, ◌∙◌, true, none, some, List, [], ◌∷◌, if◌then◌else◌, arith,
  length, ==_false,
}
use rpc_kern.Kernel
use rpc_kern.Kernel.{
  World, Run, Verbs, M, ok, fault, and_then, pure, alive, put, kzalloc, kfree, destroy,
  dma_map_single,
}
use rpc_kern.Kernel.Owned.{alive-ok, destroy-ok, kfree-ok}
use rpc_kern.Kernel.Returns.{Returns, returns, weaken}
use rpc_kern.Kernel.Succeed.{within, SameRest}
use rpc_kern.Rdma.{MsgbufCtx}
use rpc_kern.Rdma.Setup.{unmap_and_free}
use rpc_kern.Rdma.Setup.Buffers.{HasBufs, HasMaps}

-- Everything in two ranges of addresses has been released.
pub record Released (p q n : ℕ) (w w' : World) : Type 0 where
  pub next : w'.next ≡ w.next
  pub live :
      (a : ℕ)
      → w'.live a ≡ (
          if within p (p + 2 * n) a
          then none
          else if within q (q + 2 * n) a
          then none
          else w.live a)
  pub rest : SameRest w w'

-- The loop of kfree_buffers on contexts whose buffers and mappings lie in two disjoint ranges and
-- are alive, with a live domain before both, returns, and it releases exactly those two ranges.
pub unmap_and_free-Released :
    (pd : ℕ) (mbs : List MsgbufCtx) (p q : ℕ) (w : World)
    → 0 < p
    → pd < p
    → p + 2 * length mbs ≤ q
    → w.live pd ≡ some Kernel.pd
    → HasBufs p mbs
    → HasMaps q mbs
    → ((a : ℕ) → within p (p + 2 * length mbs) a ≡ true → w.live a ≡ some Kernel.memory)
    → ((a : ℕ) → within q (q + 2 * length mbs) a ≡ true → w.live a ≡ some Kernel.dma_map)
    → Returns (λ _ w'. Released p q (length mbs) w w') (unmap_and_free pd mbs w)
unfolding unmap_and_free
unmap_and_free-Released pd [] p q w nn low apart dom bufs maps mem map = returns (record {
  next = refl;
  live = λ a. ground arith;
  rest = record { posted = refl; sent = refl; bitmaps = refl; woken = refl; script = refl };
})
unmap_and_free-Released pd (mb ∷ mbs) p q w nn low apart dom (b0, b1, bufs) (m0, m1, maps) mem map =
    let w1 = record w { live = put w.live mb.recv_mapping none } in
    let w2 = record w { live = put w1.live mb.recv_buf none } in
    let w3 = record w { live = put w2.live mb.send_mapping none } in
    let w4 = record w { live = put w3.live mb.send_buf none } in
    let l0 : w.live mb.recv_mapping ≡ some Kernel.dma_map = map mb.recv_mapping (ground arith) in
    let l1 : w1.live mb.recv_buf ≡ some Kernel.memory = ground (arith, mem mb.recv_buf) in
    let l2 : w2.live mb.send_mapping ≡ some Kernel.dma_map = ground (arith, map mb.send_mapping) in
    let l3 : w3.live mb.send_buf ≡ some Kernel.memory = ground (arith, mem mb.send_buf) in
    rw
      (
        alive-ok _ _ w dom,
        destroy-ok _ _ w l0,
        kfree-ok _ w1 (==_false _ 0 (omega arith)) l1,
        destroy-ok _ _ w2 l2,
        kfree-ok _ w3 (==_false _ 0 (omega arith)) l3,
      )
      (weaken
        (unmap_and_free-Released pd mbs (p + 1 + 1) (q + 1 + 1) w4 (omega arith) (omega arith)
          (omega arith) (ground arith) bufs maps (λ a i. ground (arith, mem a))
          (λ a i. ground (arith, map a)))
        λ _ w' r. record {
          next = r.next;
          live = λ a. r.live a ∙ ground arith;
          rest = record {
            posted = r.rest.posted;
            sent = r.rest.sent;
            bitmaps = r.rest.bitmaps;
            woken = r.rest.woken;
            script = r.rest.script;
          };
        })
