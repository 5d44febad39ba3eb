-- ===== src/Rdma/Channel/Undone.antt =====
-- What run_client undoes when a receive or the connection is refused.
use rpc_kern.Base.{
  ℕ, zero, suc, ◌+◌, ◌*◌, ◌<◌, ◌≡◌, refl, ◌∙◌, ◌++◌, ◌||◌, Option, ap, ◌⊎◌, inl, inr, true, false,
  none, some, List, [], ◌∷◌, ◌==◌, if◌then◌else◌, arith, ℤ, is_zero, length, Bool-cases,
}
use rpc_kern.Kernel
use rpc_kern.Kernel.{
  World, Run, Verbs, M, ok, fault, and_then, pure, alive, destroy, post_recv, put, tick, call,
}
use rpc_kern.Kernel.Owned.{alive-ok, destroy-ok}
use rpc_kern.Kernel.Returns.{Returns, returns, chain, weaken}
use rpc_kern.Kernel.Succeed.{within}
use rpc_kern.Rdma.{MsgbufCtx, RdmaChCb}
use rpc_kern.Rdma.Cm.{connect_client}
use rpc_kern.Rdma.Setup.{kfree_buffers, kfree_qp}
use rpc_kern.Rdma.Setup.Buffers.{HasBufs, HasMaps}
use rpc_kern.Rdma.Setup.Release.{unmap_and_free-Released}
use rpc_kern.Rdma.Channel.{post_recvs, post_and_connect, run_err2, destroy_rdma_client}
use rpc_kern.Rdma.Channel.Failure.{destroy-faults}

-- The first `n` receives posted from the time `t` on are accepted.
abbrev Accepted : Verbs → (t n : ℕ) → Type 0
Accepted v t n = (k : ℕ) → k < n → is_zero (v.post_recv (t + k)) ≡ true

Accepted-suc :
    (v : Verbs) (t n : ℕ)
    → is_zero (v.post_recv t) ≡ true
    → Accepted v (t + 1) n
    → Accepted v t (suc n)
Accepted-suc v t n first rest zero h = ap (λ s. is_zero (v.post_recv s)) (omega arith) ∙ first
Accepted-suc v t n first rest (suc k) h =
    ap (λ s. is_zero (v.post_recv s)) (omega arith) ∙ rest k (omega arith)

-- Receives are posted, or one of them is refused; nothing that is alive changes.
post_recvs-any :
    (v : Verbs) (qp : ℕ) (mbs : List MsgbufCtx) (w : World)
    → w.live qp ≡ some Kernel.qp
    → Returns
        (λ ret w'.
          (w'.live ≡ w.live)
          × ((is_zero ret ≡ false)
              ⊎ ((w'.clock ≡ w.clock + length mbs) × Accepted v w.clock (length mbs))))
        (post_recvs v qp mbs w)
unfolding post_recvs post_recv
post_recvs-any v qp [] w queue = returns (refl, inr (omega arith, λ k h. elim h [ ]))
post_recvs-any v qp (mb ∷ mbs) w queue = elim (Bool-cases (is_zero (v.post_recv w.clock))) [
  | inr e ↦ rw (alive-ok _ _ w queue, e) (returns (refl, inl e))
  | inl e ↦
      rw (alive-ok _ _ w queue, e)
        (weaken
          (post_recvs-any v qp mbs (record (tick w) { posted = w.posted ++ mb.rq_wr.wr_id ∷ [] })
            queue)
          λ ret w' (l, r). (
            l,
            elim r [
              | inl bad ↦ inl bad
              | inr (c, all) ↦ inr (omega (arith, c), Accepted-suc v w.clock (length mbs) e all)
            ],
          ))
]

-- One of the receives is refused, or the connection after them.
abbrev pub Refused : Verbs → (t n : ℕ) → Type 0
Refused v t n =
    ((k : ℕ) × (k < n) × (is_zero (v.post_recv (t + k)) ≡ false))
    ⊎ (is_zero (v.connect (t + n)) ≡ false)

module _ (v : Verbs) (cb : RdmaChCb) (p n : ℕ) (w : World) (not_null : 0 < p) (low : cb.pd < p)
    (len : length cb.buf_ctxs ≡ n) (bufs : HasBufs p cb.buf_ctxs)
    (maps : HasMaps (p + 2 * n) cb.buf_ctxs) (queues : w.live cb.qp ≡ some Kernel.qp)
    (completions : w.live cb.cq ≡ some Kernel.cq) (domain : w.live cb.pd ≡ some Kernel.pd)
    (memory : (a : ℕ) → within p (p + 2 * n) a ≡ true → w.live a ≡ some Kernel.memory)
    (mapped : (a : ℕ) → within (p + 2 * n) (p + 4 * n) a ≡ true → w.live a ≡ some Kernel.dma_map)
    (client : cb.server ≡ false) (before : cb.self < p)
    (block : w.live cb.self ≡ some Kernel.memory) (id : w.live cb.cm_id ≡ some Kernel.cm_id) where
  abbrev Undone : RdmaChCb × ℤ → World → Type 0
  Undone out w' =
      (is_zero out.1 ≡ false)
      × (out.0 ≡ cb)
      × ((a : ℕ)
          → w'.live a ≡ (
              if within p (p + 4 * n) a || (cb.qp == a) || (cb.cq == a) || (cb.pd == a)
              then none
              else w.live a))
      × (destroy_rdma_client out.0 w' ≡ fault)

  run_err2-Undone :
      (ret : ℤ) (w1 : World)
      → w1.live ≡ w.live
      → is_zero ret ≡ false
      → Returns Undone (run_err2 cb ret w1)
  unfolding kfree_buffers kfree_qp
  run_err2-Undone ret w1 same bad =
      let l : (a : ℕ) → w1.live a ≡ w.live a = λ a. ap (λ (f : ℕ → Option Kernel.Kind). f a) same in
      chain
        (unmap_and_free-Released cb.pd cb.buf_ctxs p (p + 2 * n) w1 not_null low
          (omega (arith, len)) (l cb.pd ∙ domain) bufs maps
          (λ a i. l a ∙ memory a (ground (arith, len)))
          (λ a i. l a ∙ mapped a (ground (arith, len))))
        λ _ w2 r.
          let w3 = record w2 { live = put w2.live cb.qp none } in
          let w4 = record w2 { live = put w3.live cb.cq none } in
          let l2 : w2.live cb.qp ≡ some Kernel.qp =
            r.live cb.qp ∙ ground (arith, l cb.qp, len, memory cb.qp, mapped cb.qp) in
          let l3 : w3.live cb.cq ≡ some Kernel.cq =
            ground (arith, r.live cb.cq, l cb.cq, len, memory cb.cq, mapped cb.cq) in
          let l4 : w4.live cb.pd ≡ some Kernel.pd = ground (arith, r.live cb.pd, l cb.pd, len) in
          rw (destroy-ok _ _ w2 l2, destroy-ok _ _ w3 l3, destroy-ok _ _ w4 l4)
            (returns (
              bad,
              refl,
              λ a. ground (arith, r.live a, l a, len),
              destroy-faults cb (record w2 { live = put w4.live cb.pd none }) client
                  (ground (arith, r.live cb.self, l cb.self, len))
                  (ground
                    (arith, r.live cb.cm_id, l cb.cm_id, len, memory cb.cm_id, mapped cb.cm_id))
                  (ground arith) (ground arith),
            ))

  -- After the receives have all been posted, it is the connection that is refused.
  connect_fails :
      (ret : ℤ) (w1 : World)
      → Refused v w.clock n
      → is_zero ret ≡ true
      → (is_zero ret ≡ false)
        ⊎ ((w1.clock ≡ w.clock + length cb.buf_ctxs) × Accepted v w.clock (length cb.buf_ctxs))
      → is_zero (v.connect w1.clock) ≡ false
  connect_fails ret w1 refused good (inl bad) = absurd (cc)
  connect_fails ret w1 (inl (k, lt, bad)) good (inr (c, all)) =
      let fine = all k (omega (arith, len)) in absurd (cc)
  connect_fails ret w1 (inr bad) good (inr (c, all)) =
      ap (λ t. is_zero (v.connect t)) (omega (arith, c, len)) ∙ bad

  -- For a client with `n` contexts, whose buffers and mappings lie alive in two ranges one after
  -- the other, above its block and its domain, and with a live block, id, queue pair, completion
  -- queue and domain: if one of the receives or the connection after them is refused, the part of
  -- run_client after setup_buffers returns a code other than 0 with the block unchanged; all the
  -- buffers and mappings, the queue pair, the queue and the domain have been released, and nothing
  -- else; and destroying that block with destroy_rdma_client uses an object that is not alive.
  pub post_and_connect-Undone : Refused v w.clock n → Returns Undone (post_and_connect v cb w)
  unfolding post_and_connect connect_client call
  post_and_connect-Undone refused =
      chain (post_recvs-any v cb.qp cb.buf_ctxs w queues) λ ret w1 (same, r).
        elim (Bool-cases (is_zero ret)) [
          | inr bad ↦ rw bad (run_err2-Undone ret w1 same bad)
          | inl good ↦
              let fails = connect_fails ret w1 refused good r in
              rw (good, fails)
                (rw fails (run_err2-Undone (v.connect w1.clock) (tick w1) same fails))
        ]
