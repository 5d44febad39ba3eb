-- ===== src/Krping/Answered.antt =====
-- The wait for a peer's answer, when it comes next.
use rpc_kern.Base.{
  ℕ, ◌+◌, ◌≡◌, refl, ◌∙◌, ap, Bool, true, false, not, ◌&&◌, List, [], ◌∷◌, arith, is_zero, some,
  if◌then◌else◌, ◌==◌, pos,
}
use rpc_kern.Kernel
use rpc_kern.Kernel.{World, Verbs, Run, ok, M, and_then, pure, alive, call, tick}
use rpc_kern.Kernel.Owned.{alive-ok}
use rpc_kern.Krping.{
  TestState, KrWc, Occurrence, completed, KrpingCb, KrpingVerbs, error, is_state, rdma_read_adv,
  rdma_write_adv, rdma_write_complete, KrWcStatus, KrWcOpcode,
}
use rpc_kern.Krping.Cq.{
  krping_cq_event_handler, krping_poll_loop, krping_on_completion, krping_on_opcode, krping_on_recv,
  krping_received, krping_post_again, client_recv, info_size, KrStep,
}
use rpc_kern.Krping.Cm.{krping_sleep, krping_wait, krping_occur}

-- A good answer of the peer.
abbrev pub IsAnswer : KrWc → Type 0
IsAnswer wc =
    (wc.status ≡ KrWcStatus.success) × (wc.opcode ≡ KrWcOpcode.recv) × (wc.byte_len ≡ info_size)

-- The state after an answer in a state.
abbrev pub next_state : TestState → TestState
next_state st = if is_state st rdma_read_adv then rdma_write_adv else rdma_write_complete

-- The block after an answer, when `s` is still to come.
abbrev pub answered : KrpingCb → KrWc → List Occurrence → KrpingCb
answered cb wc s = record cb {
  stats = record cb.stats {
    recv_bytes = cb.stats.recv_bytes + info_size;
    recv_msgs = cb.stats.recv_msgs + 1;
  };
  recv_buf = wc.info;
  state = next_state cb.state;
  sem = cb.sem + 1;
  to_come = s;
}

module _ (v : Verbs) (u : KrpingVerbs) (receives : (t : ℕ) → v.post_recv t ≡ pos 0) where
  answer-handled :
      (cb : KrpingCb) (wc : KrWc) (w : World)
      → IsAnswer wc
      → is_zero cb.server ≡ true
      → w.live cb.qp ≡ some Kernel.qp
      → krping_on_completion v u cb wc wc.status w
        ≡ ok (answered cb wc cb.to_come, KrStep.next_wc) (tick w)
  unfolding krping_on_completion krping_on_opcode krping_on_recv krping_received krping_post_again
      client_recv call
  answer-handled cb wc w (a, b, c) client queue =
      rw (a, b, client, c, alive-ok _ _ w queue, receives w.clock) refl

  either :
      (b c : Bool) (cb : KrpingCb) (w : World) (run : M KrpingCb) (r : Run KrpingCb)
      → b ≡ false
      → c ≡ false
      → run w ≡ r
      → (if b then pure cb else if c then pure cb else run) w ≡ r
  either true c cb w run r e f h = cc
  either false true cb w run r e f h = cc
  either false false cb w run r e f h = h

  handler-answered :
      (cb : KrpingCb) (wc : KrWc) (w : World)
      → IsAnswer wc
      → is_zero cb.server ≡ true
      → cb.frtest ≡ false
      → is_state cb.state error ≡ false
      → w.live cb.qp ≡ some Kernel.qp
      → krping_cq_event_handler v u cb (wc ∷ []) (pos 0) w
        ≡ ok (answered cb wc cb.to_come) (tick (tick w))
  unfolding krping_cq_event_handler krping_poll_loop call
  handler-answered cb wc w good client fr running queue =
      either (is_state cb.state error) cb.frtest cb w _ _ running fr
        (rw (answer-handled cb wc (tick w) good client queue) refl)

  pub wait-answered :
      (condition : TestState → Bool) (cb : KrpingCb) (wc : KrWc) (s : List Occurrence) (w : World)
      → IsAnswer wc
      → is_zero cb.server ≡ true
      → cb.frtest ≡ false
      → is_state cb.state error ≡ false
      → condition cb.state ≡ false
      → condition (next_state cb.state) ≡ true
      → cb.to_come ≡ completed (wc ∷ []) (pos 0) ∷ s
      → w.live cb.qp ≡ some Kernel.qp
      → krping_wait v u condition cb w ≡ ok (answered cb wc s) (tick (tick w))
  unfolding krping_wait krping_sleep krping_occur
  wait-answered condition cb wc s w good client fr running low high script queue =
      let test : (not ((cb.sem + 1) == cb.sem) && condition (next_state cb.state)) ≡ true =
        ground arith in
      rw low (
        ap (λ t. krping_sleep v u condition cb t w) script
        ∙ rw (handler-answered cb wc w good client fr running queue, test) refl)
