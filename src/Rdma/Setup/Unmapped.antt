-- ===== src/Rdma/Setup/Unmapped.antt =====
-- setup_buffers where mappings fail.
use rpc_kern.Base.{
  ℕ, zero, suc, ◌+◌, ◌*◌, ◌<◌, ◌≡◌, refl, ◌∙◌, ap, true, false, some, List, [], ◌∷◌, ◌==◌,
  if◌then◌else◌, arith, pos, length, Bool-cases, inl, inr, ==_false,
}
use rpc_kern.Kernel
use rpc_kern.Kernel.{
  World, Run, Verbs, M, ok, fault, and_then, pure, alive, put, tick, dma_map_single,
  dma_mapping_error, create, kzalloc, ◌>>=◌, ◌>>◌,
}
use rpc_kern.Kernel.Owned.{alive-ok}
use rpc_kern.Kernel.Returns.{Returns, returns, chain, and_then_assoc}
use rpc_kern.Kernel.Succeed.{with_new, kzalloc-made}
use rpc_kern.Rdma.{MsgbufCtx, RdmaChCb}
use rpc_kern.Rdma.Setup.{
  setup_wr, set_wr, set_wrs, alloc_bufs, alloc_msg_buffers, map_bufs, setup_buffers,
}
use rpc_kern.Rdma.Setup.Buffers.{read_pd-ok}

-- What the call of ib_dma_map_single at a time returns, if `next` is the next new address, and the
-- next new address after it.
abbrev pub dma_addr : Verbs → (clock next : ℕ) → ℕ
dma_addr v clock next = if v.dma_map_ok clock then next else dma_mapping_error

abbrev pub next_addr : Verbs → (clock next : ℕ) → ℕ
next_addr v clock next = if v.dma_map_ok clock then next + 1 else next

-- The same for two calls for each of `n` buffers, one after the other.
abbrev pub dma_addrs : Verbs → (n clock next : ℕ) → List ℕ
dma_addrs v zero clock next = []
dma_addrs v (suc n) clock next =
    let later = next_addr v clock next in
    dma_addr v clock next
    ∷ dma_addr v (clock + 1) later
    ∷ dma_addrs v n (clock + 1 + 1) (next_addr v (clock + 1) later)

-- The DMA addresses in the contexts, and those that their two requests send from or receive into.
abbrev pub mapped_addrs : List MsgbufCtx → List ℕ
mapped_addrs [] = []
mapped_addrs (mb ∷ mbs) = mb.recv_mr ∷ mb.send_mr ∷ mapped_addrs mbs

abbrev pub request_addrs : List MsgbufCtx → List ℕ
request_addrs [] = []
request_addrs (mb ∷ mbs) = mb.rq_wr.sg_list.addr ∷ mb.sq_wr.sg_list.addr ∷ request_addrs mbs

-- A call of ib_dma_map_single, which the test for 0 takes for a success.
record Mapped (v : Verbs) (pd : ℕ) (w : World) (a : ℕ) (w' : World) : Type 0 where
  pub addr : a ≡ dma_addr v w.clock w.next
  pub not_null : (a == 0) ≡ false
  pub clock : w'.clock ≡ w.clock + 1
  pub next : w'.next ≡ next_addr v w.clock w.next
  pub domain : w'.live pd ≡ some Kernel.pd

dma_map_single-Mapped :
    (v : Verbs) (pd : ℕ) (w : World)
    → 0 < w.next
    → pd < w.next
    → w.live pd ≡ some Kernel.pd
    → Returns (Mapped v pd w) (dma_map_single v w)
unfolding dma_map_single create
dma_map_single-Mapped v pd w nn low dom = elim (Bool-cases (v.dma_map_ok w.clock)) [
  | inl e ↦ rw e (
      returns (record {
        addr = rw e refl;
        not_null = ==_false w.next 0 nn;
        clock = refl;
        next = rw e refl;
        domain = ground arith;
      }))
  | inr e ↦ rw e (
      returns (record {
        addr = rw e refl;
        not_null = refl;
        clock = refl;
        next = rw e refl;
        domain = dom;
      }))
]

map_bufs-goes_on :
    (v : Verbs) (pd : ℕ) (mbs : List MsgbufCtx) (w : World)
    → 0 < w.next
    → pd < w.next
    → w.live pd ≡ some Kernel.pd
    → Returns
        (λ out w'.
          (out.1 ≡ true)
          × (mapped_addrs out.0 ≡ dma_addrs v (length mbs) w.clock w.next)
          × (w'.live pd ≡ some Kernel.pd))
        (map_bufs v pd mbs w)
unfolding map_bufs
map_bufs-goes_on v pd [] w nn low dom = returns (refl, refl, dom)
map_bufs-goes_on v pd (mb ∷ mbs) w nn low dom = rw (alive-ok _ _ w dom) (
    chain (dma_map_single-Mapped v pd w nn low dom) λ a w1 m1. rw m1.not_null (
      chain
        (dma_map_single-Mapped v pd w1 (ground (arith, m1.next)) (ground (arith, m1.next))
          m1.domain)
        λ b w2 m2. rw m2.not_null (
          chain
            (map_bufs-goes_on v pd mbs w2 (ground (arith, m1.next, m2.next))
              (ground (arith, m1.next, m2.next)) m2.domain)
            λ out w' (done, addrs, dom'). returns (
              done,
              rw (addrs, m2.clock, m2.next, m2.addr, m1.addr, m1.clock, m1.next) refl,
              dom',
            ))))

alloc_bufs-keeps :
    (v : Verbs) (ok_at : (t : ℕ) → v.kzalloc_ok t ≡ true) (size : ℕ) (mbs : List MsgbufCtx)
    (w : World)
    → Returns
        (λ mbs' w'.
          (length mbs' ≡ length mbs)
          × (w'.clock ≡ w.clock + 2 * length mbs)
          × (w'.next ≡ w.next + 2 * length mbs)
          × ((a : ℕ) → a < w.next → w'.live a ≡ w.live a))
        (alloc_bufs v size mbs w)
unfolding alloc_bufs
alloc_bufs-keeps v ok_at size [] w = returns (refl, omega arith, omega arith, λ a h. refl)
alloc_bufs-keeps v ok_at size (mb ∷ mbs) w =
    let w1 = with_new Kernel.memory w in
    rw (kzalloc-made v w (ok_at _), kzalloc-made v w1 (ok_at _))
      (chain (alloc_bufs-keeps v ok_at size mbs (with_new Kernel.memory w1))
        λ mbs' w' (len, c, n, l).
          returns
            (ap suc len, omega (arith, c), omega arith, λ a h. l a (omega arith) ∙ ground arith))

request_addrs-set_wrs :
    (v : Verbs) (cb : RdmaChCb) (i : ℕ) (mbs : List MsgbufCtx)
    → request_addrs (set_wrs v cb i mbs) ≡ mapped_addrs mbs
unfolding set_wrs set_wr
request_addrs-set_wrs v cb i [] = refl
request_addrs-set_wrs v cb i (mb ∷ mbs) =
    ap (λ l. mb.recv_mr ∷ mb.send_mr ∷ l) (request_addrs-set_wrs v cb (i + 1) mbs)

-- With a live domain and where every allocation succeeds, whatever ib_dma_map_single answers:
-- setup_buffers returns 0, and the requests of its contexts, a receive and a send for each buffer in
-- turn, point to what those calls have returned, in that order, which is DMA_MAPPING_ERROR for each
-- mapping that has failed.
pub setup_buffers_hides_failure :
    (v : Verbs) (ok_at : (t : ℕ) → v.kzalloc_ok t ≡ true) (cb : RdmaChCb) (w : World)
    → 0 < w.next
    → cb.pd < w.next
    → w.live cb.pd ≡ some Kernel.pd
    → Returns
        (λ out w'.
          (out.1 ≡ pos 0)
          × (request_addrs out.0.buf_ctxs
              ≡ dma_addrs v
                  (length cb.buf_ctxs)
                  (w.clock + 2 * length cb.buf_ctxs)
                  (w.next + 2 * length cb.buf_ctxs)))
        (setup_buffers v cb w)
unfolding setup_buffers alloc_msg_buffers setup_wr
setup_buffers_hides_failure v ok_at cb w nn low dom =
    rw (and_then_assoc (alloc_bufs v cb.msgbuf_size cb.buf_ctxs w) _ _) (
      chain (alloc_bufs-keeps v ok_at cb.msgbuf_size cb.buf_ctxs w) λ mbs w1 (len, c, n, l).
        chain
          (map_bufs-goes_on v cb.pd mbs w1 (omega (arith, n)) (omega (arith, n))
            (l cb.pd low ∙ dom))
          λ out w2 (done, addrs, dom').
            rw (done, read_pd-ok cb.pd out.0 w2 dom')
              (returns (
                refl,
                request_addrs-set_wrs v (record cb { buf_ctxs = out.0 }) 0 out.0
                    ∙ addrs
                    ∙ rw (len, c, n) refl,
              )))
