-- ===== src/Krping/Keeps.antt =====
-- The handlers and the sleep change no object and none of the block's pointers.
use rpc_kern.Base.{
  ℕ, ◌≡◌, refl, ◌∙◌, ap, inl, inr, Bool, true, false, ◌&&◌, List, [], ◌∷◌, ℤ, is_zero, arith,
  Option, some, if◌then◌else◌, Bool-cases,
}
use rpc_kern.Kernel
use rpc_kern.Kernel.{
  Kind, CmEvent, World, Verbs, Run, ok, M, and_then, alive, call, tick, pure, ◌>>=◌, ◌>>◌,
}
use rpc_kern.Kernel.Owned.{alive-ok}
use rpc_kern.Kernel.Returns.{Returns, returns, chain, weaken}
use rpc_kern.Krping.{
  KrWcStatus, KrWcOpcode, KrWc, Occurrence, completed, KrpingCb, KrpingVerbs, error, is_state,
}
use rpc_kern.Krping.Cq.{
  server_recv, client_recv, krping_received, krping_post_again, krping_on_recv, krping_on_opcode,
  krping_on_completion, krping_poll_loop, krping_cq_event_handler, KrStep, next_wc, goto_error,
  krping_error,
}
use rpc_kern.Krping.Cm.{krping_cma_event_handler}

-- What of a block its release depends on.
pub record Pointers : Type 0 where
  pub self : ℕ
  pub server : ℤ
  pub cq : ℕ
  pub pd : ℕ
  pub qp : ℕ
  pub dma_mr : ℕ
  pub rdma_mr : ℕ
  pub start_mr : ℕ
  pub reg_mr : ℕ
  pub page_list_len : ℕ
  pub recv_mapping : ℕ
  pub send_mapping : ℕ
  pub rdma_buf : ℕ
  pub start_buf : ℕ
  pub cm_id : ℕ
  pub size : ℕ

abbrev pub pointers : KrpingCb → Pointers
pointers cb = record {
  self = cb.self;
  server = cb.server;
  cq = cb.cq;
  pd = cb.pd;
  qp = cb.qp;
  dma_mr = cb.dma_mr;
  rdma_mr = cb.rdma_mr;
  start_mr = cb.start_mr;
  reg_mr = cb.reg_mr;
  page_list_len = cb.page_list_len;
  recv_mapping = cb.recv_mapping;
  send_mapping = cb.send_mapping;
  rdma_buf = cb.rdma_buf;
  start_buf = cb.start_buf;
  cm_id = cb.cm_id;
  size = cb.size;
}

-- No RDMA write or read completes: the code starts none.
abbrev pub is_two_sided : KrWcOpcode → Bool
is_two_sided KrWcOpcode.rdma_write = false
is_two_sided KrWcOpcode.rdma_read = false
is_two_sided _ = true

abbrev pub are_two_sided : List KrWc → Bool
are_two_sided [] = true
are_two_sided (wc ∷ wcs) = is_two_sided wc.opcode && are_two_sided wcs

abbrev pub is_clean : List Occurrence → Bool
is_clean [] = true
is_clean (completed polled last ∷ s) = are_two_sided polled && is_clean s
is_clean (x ∷ s) = is_clean s

-- A block and a world later on.
pub record Keeps (cb : KrpingCb) (w : World) (cb' : KrpingCb) (w' : World) : Type 0 where
  pub same : pointers cb' ≡ pointers cb
  pub live : w'.live ≡ w.live
  pub next : w'.next ≡ w.next

pub Keeps-trans :
    {cb cb' cb'' : KrpingCb} {w w' w'' : World}
    → Keeps cb w cb' w'
    → Keeps cb' w' cb'' w''
    → Keeps cb w cb'' w''
Keeps-trans a b = record { same = b.same ∙ a.same; live = b.live ∙ a.live; next = b.next ∙ a.next }

-- A live object stays alive.
pub Keeps-alive :
    {cb cb' : KrpingCb} {w w' : World} (f : Pointers → ℕ) (k : Kind)
    → Keeps cb w cb' w'
    → w.live (f (pointers cb)) ≡ some k
    → w'.live (f (pointers cb')) ≡ some k
Keeps-alive {cb} {cb'} {w} {w'} f k s here =
    ap (λ (l : ℕ → Option Kind). l (f (pointers cb'))) s.live ∙ ap w.live (ap f s.same) ∙ here

module _ (v : Verbs) (u : KrpingVerbs) where
  pub krping_cma_event_handler-Keeps :
      (cb : KrpingCb) (e : CmEvent) (w : World)
      → Returns (λ out w'. Keeps cb w out.0 w') (krping_cma_event_handler v cb e w)
  unfolding krping_cma_event_handler call
  krping_cma_event_handler-Keeps cb CmEvent.addr_resolved w =
      elim (Bool-cases (is_zero (v.resolve_route w.clock))) [
        | inl y ↦ rw y (returns (record { same = refl; live = refl; next = refl }))
        | inr n ↦ rw n (returns (record { same = refl; live = refl; next = refl }))
      ]
  krping_cma_event_handler-Keeps cb CmEvent.established w = elim (Bool-cases (is_zero cb.server)) [
    | inl y ↦ rw y (returns (record { same = refl; live = refl; next = refl }))
    | inr n ↦ rw n (returns (record { same = refl; live = refl; next = refl }))
  ]
  krping_cma_event_handler-Keeps cb e w = returns (record { same = refl; live = refl; next = refl })

  krping_received-same :
      (cb : KrpingCb) (wc : KrWc) → pointers (krping_received u cb wc).0 ≡ pointers cb
  unfolding krping_received client_recv server_recv
  krping_received-same cb wc = ground arith

  krping_post_again-Keeps :
      (cb : KrpingCb) (ret : ℤ) (w : World)
      → w.live cb.qp ≡ some Kernel.qp
      → Returns (λ out w'. Keeps cb w out.0 w') (krping_post_again v (cb, ret) w)
  unfolding krping_post_again call
  krping_post_again-Keeps cb ret w queue = elim (Bool-cases (is_zero ret)) [
    | inr n ↦ rw n (returns (record { same = refl; live = refl; next = refl }))
    | inl y ↦ elim (Bool-cases (is_zero (v.post_recv w.clock))) [
      | inl p ↦
          rw (y, alive-ok _ _ w queue, p)
            (returns (record { same = refl; live = refl; next = refl }))
      | inr p ↦
          rw (y, alive-ok _ _ w queue, p)
            (returns (record { same = refl; live = refl; next = refl }))
    ]
  ]

  krping_on_recv-Keeps :
      (cb : KrpingCb) (wc : KrWc) (w : World)
      → w.live cb.qp ≡ some Kernel.qp
      → Returns (λ out w'. Keeps cb w out.0 w') (krping_on_recv v u cb wc w)
  unfolding krping_on_recv
  krping_on_recv-Keeps cb wc w queue =
      let (cb', ret) = krping_received u cb wc in
      let same : pointers cb' ≡ pointers cb = krping_received-same cb wc in
      weaken
        (krping_post_again-Keeps cb' ret w (ap w.live (ap (λ (p : Pointers). p.qp) same) ∙ queue))
        λ out w' k. record { same = k.same ∙ same; live = k.live; next = k.next }

  krping_on_opcode-Keeps :
      (cb : KrpingCb) (wc : KrWc) (o : KrWcOpcode) (w : World)
      → w.live cb.qp ≡ some Kernel.qp
      → is_two_sided o ≡ true
      → Returns (λ out w'. Keeps cb w out.0 w') (krping_on_opcode v u cb wc o w)
  unfolding krping_on_opcode
  krping_on_opcode-Keeps cb wc KrWcOpcode.send w queue t =
      returns (record { same = refl; live = refl; next = refl })
  krping_on_opcode-Keeps cb wc KrWcOpcode.rdma_write w queue t = cc
  krping_on_opcode-Keeps cb wc KrWcOpcode.rdma_read w queue t = cc
  krping_on_opcode-Keeps cb wc KrWcOpcode.recv w queue t = krping_on_recv-Keeps cb wc w queue
  krping_on_opcode-Keeps cb wc KrWcOpcode.unknown w queue t =
      returns (record { same = refl; live = refl; next = refl })

  krping_on_completion-Keeps :
      (cb : KrpingCb) (wc : KrWc) (st : KrWcStatus) (w : World)
      → w.live cb.qp ≡ some Kernel.qp
      → is_two_sided wc.opcode ≡ true
      → Returns (λ out w'. Keeps cb w out.0 w') (krping_on_completion v u cb wc st w)
  unfolding krping_on_completion
  krping_on_completion-Keeps cb wc KrWcStatus.success w queue two =
      krping_on_opcode-Keeps cb wc wc.opcode w queue two
  krping_on_completion-Keeps cb wc KrWcStatus.flush_err w queue two =
      returns (record { same = refl; live = refl; next = refl })
  krping_on_completion-Keeps cb wc KrWcStatus.failure w queue two =
      returns (record { same = refl; live = refl; next = refl })

  krping_poll_loop-Keeps :
      (cb : KrpingCb) (polled : List KrWc) (last : ℤ) (w : World)
      → w.live cb.qp ≡ some Kernel.qp
      → are_two_sided polled ≡ true
      → Returns (λ cb' w'. Keeps cb w cb' w') (krping_poll_loop v u cb polled last w)
  unfolding krping_poll_loop
  krping_poll_loop-Keeps cb [] last w queue two = elim (Bool-cases (is_zero last)) [
    | inl y ↦ rw y (returns (record { same = refl; live = refl; next = refl }))
    | inr n ↦ rw n (returns (record { same = refl; live = refl; next = refl }))
  ]
  krping_poll_loop-Keeps cb (wc ∷ wcs) last w queue two =
      chain (krping_on_completion-Keeps cb wc wc.status w queue (ground arith)) λ out w' k.
        next_step cb out.0 wcs last w w' out.1 k (
          krping_poll_loop-Keeps out.0 wcs last w' (Keeps-alive (λ p. p.qp) Kernel.qp k queue)
            (ground arith))
    where
      next_step :
          (cb cb' : KrpingCb) (wcs : List KrWc) (last : ℤ) (w w' : World) (step : KrStep)
          → Keeps cb w cb' w'
          → Returns (λ out w''. Keeps cb' w' out w'') (krping_poll_loop v u cb' wcs last w')
          → Returns
              (λ out w''. Keeps cb w out w'')
              ((elim step as (λ _. M KrpingCb) [
                | next_wc ↦ krping_poll_loop v u cb' wcs last
                | goto_error ↦ krping_error cb'
              ])
                w')
      next_step cb cb' wcs last w w' next_wc k rest = weaken rest λ out w'' k'. Keeps-trans k k'
      next_step cb cb' wcs last w w' goto_error k rest =
          returns (record { same = k.same; live = k.live; next = k.next })

  pub krping_cq_event_handler-Keeps :
      (cb : KrpingCb) (polled : List KrWc) (last : ℤ) (w : World)
      → w.live cb.qp ≡ some Kernel.qp
      → are_two_sided polled ≡ true
      → Returns (λ cb' w'. Keeps cb w cb' w') (krping_cq_event_handler v u cb polled last w)
  unfolding krping_cq_event_handler call
  krping_cq_event_handler-Keeps cb polled last w queue two =
      let run = krping_poll_loop-Keeps cb polled last (tick w) queue two in
      let rest : Returns (λ cb' w'. Keeps cb w cb' w')
          (krping_poll_loop v u cb polled last (tick w)) =
        weaken run λ cb' w' k. record { same = k.same; live = k.live; next = k.next } in
      choose (is_state cb.state error) cb.frtest rest
    where
      choose :
          (b c : Bool)
          → Returns (λ cb' w'. Keeps cb w cb' w') (krping_poll_loop v u cb polled last (tick w))
          → Returns
              (λ cb' w'. Keeps cb w cb' w')
              ((if b
                  then pure cb
                  else if c
                  then pure cb
                  else call v.req_notify_cq >>= λ notified. krping_poll_loop v u cb polled last)
                w)
      choose true c rest = returns (record { same = refl; live = refl; next = refl })
      choose false true rest = returns (record { same = refl; live = refl; next = refl })
      choose false false rest = rest
