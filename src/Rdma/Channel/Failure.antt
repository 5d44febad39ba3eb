-- ===== src/Rdma/Channel/Failure.antt =====
-- rdma.c: what init_rdma_ch does when a call into the kernel fails.
use rpc_kern.Base.{
  ℕ, ◌+◌, ◌<◌, ◌≤◌, ◌≡◌, refl, ◌∙◌, sym, ap, subst, ◌&&◌, inl, inr, true, false, Option, none, some,
  List, [], ◌∷◌, arith, pos, is_zero, ==_false, if_false, Bool-cases,
}
use rpc_kern.Message.{ByteOrder}
use rpc_kern.Kernel
use rpc_kern.Kernel.{
  Kind, World, Run, Verbs, M, ok, fault, ◌>>=◌, ◌>>◌, and_then, pure, alive, put, tick, kzalloc,
  kfree, make, create, destroy, call,
}
use rpc_kern.Kernel.Returns.{Returns, returns}
use rpc_kern.Kernel.Owned.{kfree-ok, alive-ok, alive-dead, destroy-dead}
use rpc_kern.Kernel.Succeed.{with_new, kzalloc-made, kzalloc-null, make-new, make-failed}
use rpc_kern.Rdma.{MsgbufCtx, RdmaChCb, idle}
use rpc_kern.Rdma.Cm.{bind_client, set_port}
use rpc_kern.Rdma.Setup.{kfree_buffers, unmap_and_free, kfree_qp}
use rpc_kern.Rdma.Channel.{
  RdmaChAttr, run_client, new_cb, start_ch, init_rdma_ch, destroy_rdma_client,
}

kfree_qp-faults : (cb : RdmaChCb) (w : World) → w.live cb.qp ≡ none → kfree_qp cb w ≡ fault
unfolding kfree_qp
kfree_qp-faults cb w queue = rw (destroy-dead Kernel.qp cb.qp w queue)

-- Destroying a channel that has neither a domain nor a queue pair.
unmapped-faults :
    (mbs : List MsgbufCtx) (cb : RdmaChCb) (k : Unit {0} → M (Unit {0})) (w : World)
    → w.live cb.pd ≡ none
    → w.live cb.qp ≡ none
    → and_then (unmap_and_free cb.pd mbs w) (λ _. kfree_qp cb >>= k) ≡ fault
unfolding unmap_and_free
unmapped-faults [] cb k w dom queue = ap (λ r. and_then r k) (kfree_qp-faults cb w queue)
unmapped-faults (mb ∷ mbs) cb k w dom queue = rw (alive-dead Kernel.pd cb.pd w dom)

pub destroy-faults :
    (cb : RdmaChCb) (w : World)
    → cb.server ≡ false
    → w.live cb.self ≡ some Kernel.memory
    → w.live cb.cm_id ≡ some Kernel.cm_id
    → w.live cb.pd ≡ none
    → w.live cb.qp ≡ none
    → destroy_rdma_client cb w ≡ fault
unfolding destroy_rdma_client kfree_buffers
destroy-faults cb w client self id dom queue = rw (alive-ok _ _ w self) (
    ap (λ (m : M (Unit {0})). m w) (if_false cb.server _ _ client)
    ∙ rw (alive-ok _ _ w id) (unmapped-faults cb.buf_ctxs cb _ w dom queue))

run_client-unresolved :
    (v : Verbs) (cb : RdmaChCb) (w : World)
    → is_zero (v.resolve_addr w.clock) ≡ false
    → run_client v cb w
      ≡ ok (record cb { sin = set_port cb.sin cb.port }, v.resolve_addr w.clock) (tick w)
unfolding run_client bind_client call
run_client-unresolved v cb w r = rw (r, r)

module _ (order : ByteOrder) (v : Verbs) (attr : RdmaChAttr) (w : World)
    (not_null : 0 < w.next) where
  abbrev Unchanged : Option RdmaChCb → World → Type 0
  Unchanged out w' = (out ≡ none) × ((a : ℕ) → w'.live a ≡ w.live a)

  first_fails : v.kzalloc_ok w.clock ≡ false → Returns Unchanged (init_rdma_ch order v attr w)
  unfolding init_rdma_ch
  first_fails e = rw (kzalloc-null v w e) (returns (refl, λ a. refl))

  module _ (unused : (a : ℕ) → w.next ≤ a → w.live a ≡ none)
      (first : v.kzalloc_ok w.clock ≡ true) where
    abbrev one : World
    one = with_new Kernel.memory w

    abbrev two : World
    two = with_new Kernel.memory one

    second_fails : v.kzalloc_ok one.clock ≡ false → Returns Unchanged (init_rdma_ch order v attr w)
    unfolding init_rdma_ch new_cb
    second_fails e =
        rw
          (
            kzalloc-made v w first,
            ==_false w.next 0 not_null,
            kzalloc-null v one e,
            kfree-ok w.next (tick one) (==_false w.next 0 not_null) (ground arith),
          )
          (returns (refl, λ a. ground (arith, unused a)))

    id_fails :
        v.kzalloc_ok one.clock ≡ true
        → is_zero (v.create_id two.clock) ≡ false
        → Returns Unchanged (init_rdma_ch order v attr w)
    unfolding init_rdma_ch start_ch new_cb
    id_fails second e =
        rw
          (
            kzalloc-made v w first,
            ==_false w.next 0 not_null,
            kzalloc-made v one second,
            ==_false one.next 0 (omega arith),
            make-failed v.create_id Kernel.cm_id two _ refl e,
            kfree-ok one.next (tick two) (==_false one.next 0 (omega arith)) (ground arith),
            kfree-ok w.next (record (tick two) { live = put two.live one.next none })
                (==_false w.next 0 not_null) (ground arith),
          )
          (returns (refl, λ a. ground (arith, unused a)))

  -- If one of the two allocations fails, or the id cannot be made, init_rdma_ch returns NULL, and
  -- what is alive is what was alive before, given that addresses not yet given out are not alive.
  pub init_rdma_ch-refused :
      (unused : (a : ℕ) → w.next ≤ a → w.live a ≡ none)
      → (v.kzalloc_ok w.clock
          && v.kzalloc_ok (w.clock + 1)
          && is_zero (v.create_id (w.clock + 1 + 1)))
        ≡ false
      → Returns
          (λ out w'. (out ≡ none) × ((a : ℕ) → w'.live a ≡ w.live a))
          (init_rdma_ch order v attr w)
  init_rdma_ch-refused unused failure = elim (Bool-cases (v.kzalloc_ok w.clock)) [
    | inr f ↦ first_fails f
    | inl t ↦ elim (Bool-cases (v.kzalloc_ok (w.clock + 1))) [
      | inr f ↦ second_fails unused t f
      | inl t' ↦ id_fails unused t t' (grind (arith, failure, t, t'))
    ]
  ]

  module _ (client : attr.server ≡ false) (nothing : w.live 0 ≡ none)
      (id : v.create_id (w.clock + 1 + 1) ≡ pos 0)
      (r : is_zero (v.resolve_addr (w.clock + 1 + 1 + 1)) ≡ false) where
    abbrev fresh : RdmaChCb
    fresh = new_cb order attr w.next (w.next + 1)

    abbrev three : World
    three = with_new Kernel.cm_id (with_new Kernel.memory (with_new Kernel.memory w))

    fresh-client : fresh.server ≡ false
    unfolding new_cb
    fresh-client = client

    abbrev Unresolved : Option RdmaChCb → World → Type 0
    Unresolved out w' =
        (cb : RdmaChCb) × (out ≡ some cb) × (cb.state ≡ idle) × (destroy_rdma_client cb w' ≡ fault)

    after-Unresolved :
        Unresolved
          (some (record fresh { cm_id = w.next + 1 + 1; sin = set_port fresh.sin fresh.port }))
          (tick three)
    unfolding new_cb
    after-Unresolved = (
      record fresh { cm_id = w.next + 1 + 1; sin = set_port fresh.sin fresh.port },
      refl,
      refl,
      destroy-faults _ (tick three) client (ground arith) (ground arith) (ground arith)
          (ground arith),
    )

    start_ch-Unresolved :
        Returns Unresolved (start_ch v fresh (with_new Kernel.memory (with_new Kernel.memory w)))
    unfolding start_ch
    start_ch-Unresolved =
        rw
          (make-new v.create_id Kernel.cm_id (with_new Kernel.memory (with_new Kernel.memory w)) id)
          (subst (λ (m : M (Option RdmaChCb)). Returns Unresolved (m three))
            (sym (if_false fresh.server _ _ fresh-client))
            (rw (run_client-unresolved v (record fresh { cm_id = w.next + 1 + 1 }) three r)
              (returns after-Unresolved)))

  -- If rdma_resolve_addr fails for a client, where the allocations and the id succeed, init_rdma_ch
  -- returns a channel, not NULL, in state IDLE, and destroying that channel uses an object that is
  -- not alive.
  pub init_rdma_ch_hides_failure :
      attr.server ≡ false
      → w.live 0 ≡ none
      → ((t : ℕ) → v.kzalloc_ok t ≡ true)
      → ((t : ℕ) → v.create_id t ≡ pos 0)
      → ((t : ℕ) → is_zero (v.resolve_addr t) ≡ false)
      → Returns
          (λ out w'.
            (cb : RdmaChCb) × (out ≡ some cb)
            × (cb.state ≡ idle)
            × (destroy_rdma_client cb w' ≡ fault))
          (init_rdma_ch order v attr w)
  unfolding init_rdma_ch
  init_rdma_ch_hides_failure client nothing a c r =
      rw
        (
          kzalloc-made v w (a _),
          ==_false w.next 0 not_null,
          kzalloc-made v (with_new Kernel.memory w) (a _),
          ==_false (w.next + 1) 0 (omega arith),
        )
        (start_ch-Unresolved client nothing (c _) (r _))
