-- ===== src/Rdma/Setup/Queue.antt =====
-- setup_qp: the domain, the completion queue and the queue pair, and what is left on each failure.
use rpc_kern.Base.{
  ℕ, ◌+◌, ◌≤◌, ◌≡◌, refl, ◌⊎◌, inl, inr, true, false, none, some, if◌then◌else◌, arith, ℤ, pos,
  is_zero, eq_of_is_zero,
}
use rpc_kern.Kernel
use rpc_kern.Kernel.{
  Kind, World, Run, Verbs, ok, fault, alive, destroy, make, made, failed, call, put, tick,
}
use rpc_kern.Kernel.Owned.{alive-ok, destroy-ok}
use rpc_kern.Kernel.Returns.{Returns, returns}
use rpc_kern.Kernel.Succeed.{AllSucceed, with_new, make-new, make-failed}
use rpc_kern.Rdma.{RdmaChCb}
use rpc_kern.Rdma.Setup.{create_qp, arm_cq, setup_qp}

module _ (v : Verbs) (cb : RdmaChCb) (w : World) (client : cb.server ≡ false)
    (id : w.live cb.cm_id ≡ some Kernel.cm_id)
    (unused : (a : ℕ) → w.next ≤ a → w.live a ≡ none) where
  -- After ib_alloc_pd and ib_create_cq, and after ib_req_notify_cq.
  abbrev pub queued : World
  queued = tick (with_new Kernel.cq (with_new Kernel.pd w))

  abbrev pub queued_cb : RdmaChCb
  queued_cb = record cb { pd = w.next; cq = w.next + 1 }

  id_later : queued.live cb.cm_id ≡ some Kernel.cm_id
  id_later = ground (arith, id, unused cb.cm_id)

  own_id : (if cb.server then cb.child_cm_id else cb.cm_id) ≡ cb.cm_id
  own_id = rw client

  pub setup_qp-ready :
      AllSucceed v
      → setup_qp v cb cb.cm_id w
        ≡ ok
            (record cb { pd = w.next; cq = w.next + 1; qp = w.next + 1 + 1 }, pos 0)
            (with_new Kernel.qp queued)
  unfolding setup_qp arm_cq create_qp call
  setup_qp-ready all = rw (
    alive-ok _ _ w id,
    make-new v.alloc_pd Kernel.pd w (all.alloc_pd _),
    make-new v.create_cq Kernel.cq (with_new Kernel.pd w) (all.create_cq _),
    all.req_notify_cq,
    own_id,
    alive-ok _ _ queued id_later,
    make-new v.create_qp Kernel.qp queued (all.create_qp _),
  )

  -- If ib_alloc_pd and ib_create_cq succeed and ib_req_notify_cq fails, setup_qp on a client's live
  -- id destroys the queue and the domain, and returns 0 with the destroyed domain in the block.
  pub setup_qp_hides_failure :
      is_zero (v.alloc_pd w.clock) ≡ true
      → is_zero (v.create_cq (w.clock + 1)) ≡ true
      → is_zero (v.req_notify_cq (w.clock + 1 + 1)) ≡ false
      → Returns
          (λ out w'. (out.1 ≡ pos 0) × (out.0.pd ≡ w.next) × ((a : ℕ) → w'.live a ≡ w.live a))
          (setup_qp v cb cb.cm_id w)
  unfolding setup_qp arm_cq call
  setup_qp_hides_failure a b c =
      let w1 = with_new Kernel.pd w in
      let no_cq = record queued { live = put queued.live (w.next + 1) none } in
      rw
        (
          alive-ok _ _ w id,
          make-new v.alloc_pd Kernel.pd w (eq_of_is_zero _ a),
          make-new v.create_cq Kernel.cq w1 (eq_of_is_zero _ b),
          c,
          destroy-ok Kernel.cq (w.next + 1) queued (ground arith),
          destroy-ok Kernel.pd w.next no_cq (ground arith),
        )
        (returns (refl, refl, λ a. ground (arith, unused a, unused (w.next + 1))))

  -- If ib_alloc_pd succeeds and either ib_create_cq fails, or it and ib_req_notify_cq succeed and
  -- rdma_create_qp fails, setup_qp on a client's live id returns the code of the failed call, and
  -- what is alive is what was alive before.
  pub setup_qp-undone :
      (t : ℤ)
      → is_zero (v.alloc_pd w.clock) ≡ true
      → ((v.create_cq (w.clock + 1) ≡ t)
          ⊎ ((is_zero (v.create_cq (w.clock + 1)) ≡ true)
              × (is_zero (v.req_notify_cq (w.clock + 1 + 1)) ≡ true)
              × (v.create_qp (w.clock + 1 + 1 + 1) ≡ t)))
      → is_zero t ≡ false
      → Returns
          (λ out w'. (out.1 ≡ t) × ((a : ℕ) → w'.live a ≡ w.live a))
          (setup_qp v cb cb.cm_id w)
  unfolding setup_qp arm_cq create_qp call
  setup_qp-undone t a (inl b) bad =
      let w1 = with_new Kernel.pd w in
      rw
        (
          alive-ok _ _ w id,
          make-new v.alloc_pd Kernel.pd w (eq_of_is_zero _ a),
          make-failed v.create_cq Kernel.cq w1 t b bad,
          destroy-ok Kernel.pd w.next (tick w1) (ground arith),
        )
        (returns (refl, λ a. ground (arith, unused a)))
  setup_qp-undone t a (inr (b, c, d)) bad =
      let w1 = with_new Kernel.pd w in
      let w2 = tick queued in
      let no_cq = record w2 { live = put w2.live (w.next + 1) none } in
      rw
        (
          alive-ok _ _ w id,
          make-new v.alloc_pd Kernel.pd w (eq_of_is_zero _ a),
          make-new v.create_cq Kernel.cq w1 (eq_of_is_zero _ b),
          c,
          own_id,
          alive-ok _ _ queued id_later,
          make-failed v.create_qp Kernel.qp queued t d bad,
          bad,
          destroy-ok Kernel.cq (w.next + 1) w2 (ground arith),
          destroy-ok Kernel.pd w.next no_cq (ground arith),
        )
        (returns (refl, λ a. ground (arith, unused a, unused (w.next + 1))))
