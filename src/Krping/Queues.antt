-- ===== src/Krping/Queues.antt =====
-- The prototype's setup_qp, for every answer: it makes the domain and the queues, or leaves nothing.
use rpc_kern.Base.{
  ℕ, ◌+◌, ◌≤◌, ◌≡◌, refl, ◌⊎◌, inl, inr, true, false, none, some, if◌then◌else◌, arith, ℤ, pos,
  is_zero, eq_of_is_zero, Bool-cases,
}
use rpc_kern.Kernel
use rpc_kern.Kernel.{
  Kind, World, Run, Verbs, ok, fault, alive, destroy, make, made, failed, call, put, tick,
}
use rpc_kern.Kernel.Owned.{alive-ok, destroy-ok}
use rpc_kern.Kernel.Returns.{Returns, returns}
use rpc_kern.Kernel.Succeed.{with_new, make-new, make-failed}
use rpc_kern.Krping.{KrpingCb}
use rpc_kern.Krping.Setup.{krping_create_qp, krping_arm_cq, krping_setup_qp}

-- After ib_alloc_pd, ib_create_cq and ib_req_notify_cq.
abbrev with_cq : World → World
with_cq w = tick (with_new Kernel.cq (with_new Kernel.pd w))

-- The block and the world when all has been made.
abbrev pub queued_cb : KrpingCb → World → KrpingCb
queued_cb cb w = record cb { pd = w.next; cq = w.next + 1; qp = w.next + 1 + 1 }

abbrev pub queued : World → World
queued w = with_new Kernel.qp (with_cq w)

-- A failure, after which nothing is left.
abbrev pub Undone : KrpingCb → World → KrpingCb × ℤ → World → Type 0
Undone cb w out w' =
    (is_zero out.1 ≡ false) × (out.0.self ≡ cb.self) × ((a : ℕ) → w'.live a ≡ w.live a)

module _ (v : Verbs) (cb : KrpingCb) (w : World) (client : is_zero cb.server ≡ true)
    (id : w.live cb.cm_id ≡ some Kernel.cm_id)
    (unused : (a : ℕ) → w.next ≤ a → w.live a ≡ none) where
  id_later : (with_cq w).live cb.cm_id ≡ some Kernel.cm_id
  id_later = ground (arith, id, unused cb.cm_id)

  own_id : (if is_zero cb.server then cb.cm_id else cb.child_cm_id) ≡ cb.cm_id
  own_id = rw client

  setup_qp-no_cq :
      is_zero (v.alloc_pd w.clock) ≡ true
      → is_zero (v.create_cq (w.clock + 1)) ≡ false
      → Returns (Undone cb w) (krping_setup_qp v cb cb.cm_id w)
  unfolding krping_setup_qp
  setup_qp-no_cq a b =
      let w1 = with_new Kernel.pd w in
      rw
        (
          alive-ok _ _ w id,
          make-new v.alloc_pd Kernel.pd w (eq_of_is_zero _ a),
          make-failed v.create_cq Kernel.cq w1 _ refl b,
          destroy-ok Kernel.pd w.next (tick w1) (ground arith),
        )
        (returns (b, refl, λ a. ground (arith, unused a)))

  setup_qp-no_notify :
      is_zero (v.alloc_pd w.clock) ≡ true
      → is_zero (v.create_cq (w.clock + 1)) ≡ true
      → is_zero (v.req_notify_cq (w.clock + 1 + 1)) ≡ false
      → Returns (Undone cb w) (krping_setup_qp v cb cb.cm_id w)
  unfolding krping_setup_qp krping_arm_cq call
  setup_qp-no_notify a b c =
      let w1 = with_new Kernel.pd w in
      let no_cq = record (with_cq w) { live = put (with_cq w).live (w.next + 1) none } in
      rw
        (
          alive-ok _ _ w id,
          make-new v.alloc_pd Kernel.pd w (eq_of_is_zero _ a),
          make-new v.create_cq Kernel.cq w1 (eq_of_is_zero _ b),
          c,
          destroy-ok Kernel.cq (w.next + 1) (with_cq w) (ground arith),
          destroy-ok Kernel.pd w.next no_cq (ground arith),
        )
        (returns (c, refl, λ a. ground (arith, unused a, unused (w.next + 1))))

  setup_qp-no_qp :
      is_zero (v.alloc_pd w.clock) ≡ true
      → is_zero (v.create_cq (w.clock + 1)) ≡ true
      → is_zero (v.req_notify_cq (w.clock + 1 + 1)) ≡ true
      → is_zero (v.create_qp (w.clock + 1 + 1 + 1)) ≡ false
      → Returns (Undone cb w) (krping_setup_qp v cb cb.cm_id w)
  unfolding krping_setup_qp krping_arm_cq krping_create_qp call
  setup_qp-no_qp a b c d =
      let w1 = with_new Kernel.pd w in
      let w2 = tick (with_cq w) in
      let no_cq = record w2 { live = put w2.live (w.next + 1) none } in
      rw
        (
          alive-ok _ _ w id,
          make-new v.alloc_pd Kernel.pd w (eq_of_is_zero _ a),
          make-new v.create_cq Kernel.cq w1 (eq_of_is_zero _ b),
          c,
          own_id,
          alive-ok _ _ (with_cq w) id_later,
          make-failed v.create_qp Kernel.qp (with_cq w) _ refl d,
          d,
          destroy-ok Kernel.cq (w.next + 1) w2 (ground arith),
          destroy-ok Kernel.pd w.next no_cq (ground arith),
        )
        (returns (d, refl, λ a. ground (arith, unused a, unused (w.next + 1))))

  setup_qp-made :
      is_zero (v.alloc_pd w.clock) ≡ true
      → is_zero (v.create_cq (w.clock + 1)) ≡ true
      → is_zero (v.req_notify_cq (w.clock + 1 + 1)) ≡ true
      → is_zero (v.create_qp (w.clock + 1 + 1 + 1)) ≡ true
      → krping_setup_qp v cb cb.cm_id w ≡ ok (queued_cb cb w, pos 0) (queued w)
  unfolding krping_setup_qp krping_arm_cq krping_create_qp call
  setup_qp-made a b c d =
      let w1 = with_new Kernel.pd w in
      rw (
        alive-ok _ _ w id,
        make-new v.alloc_pd Kernel.pd w (eq_of_is_zero _ a),
        make-new v.create_cq Kernel.cq w1 (eq_of_is_zero _ b),
        c,
        own_id,
        alive-ok _ _ (with_cq w) id_later,
        make-new v.create_qp Kernel.qp (with_cq w) (eq_of_is_zero _ d),
      )

  setup_qp-no_pd :
      is_zero (v.alloc_pd w.clock) ≡ false → Returns (Undone cb w) (krping_setup_qp v cb cb.cm_id w)
  unfolding krping_setup_qp
  setup_qp-no_pd a =
      rw (alive-ok _ _ w id, make-failed v.alloc_pd Kernel.pd w _ refl a)
        (returns (a, refl, λ a. refl))

  pub krping_setup_qp-cases :
      Returns (Undone cb w) (krping_setup_qp v cb cb.cm_id w)
      ⊎ (krping_setup_qp v cb cb.cm_id w ≡ ok (queued_cb cb w, pos 0) (queued w))
  krping_setup_qp-cases = elim (Bool-cases (is_zero (v.alloc_pd w.clock))) [
    | inr bad ↦ inl (setup_qp-no_pd bad)
    | inl a ↦ elim (Bool-cases (is_zero (v.create_cq (w.clock + 1)))) [
      | inr bad ↦ inl (setup_qp-no_cq a bad)
      | inl b ↦ elim (Bool-cases (is_zero (v.req_notify_cq (w.clock + 1 + 1)))) [
        | inr bad ↦ inl (setup_qp-no_notify a b bad)
        | inl c ↦ elim (Bool-cases (is_zero (v.create_qp (w.clock + 1 + 1 + 1)))) [
          | inr bad ↦ inl (setup_qp-no_qp a b c bad)
          | inl d ↦ inr (setup_qp-made a b c d)
        ]
      ]
    ]
  ]
