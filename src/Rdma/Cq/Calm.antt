-- ===== src/Rdma/Cq/Calm.antt =====
-- The completion handler does not leave state ERROR behind but at its label `error`.
use rpc_kern.Base.{
  ℕ, ◌%◌, ◌^◌, ◌≡◌, inl, inr, false, ◌==◌, leb, if◌then◌else◌, arith, is_zero, get_elem?,
  Bool-cases,
}
use rpc_kern.Message.{ByteOrder}
use rpc_kern.Kernel
use rpc_kern.Kernel.{
  World, Run, Verbs, M, ok, fault, asleep, and_then, pure, alive, or_fault, kzalloc, kfree, null,
  post_recv,
}
use rpc_kern.Rdma.{RdmaChCb, is_state, value, connected, working, error}
use rpc_kern.Rdma.Receive.{
  WcStatus, success, flush_err, failure, WcOpcode, send, rdma_write, rdma_read, recv, unknown, Wc,
  Invoke, receive_msg, dispatch_msg, handler_param,
}
use rpc_kern.Rdma.Cq.{Completion, land, on_recv, on_opcode, on_completion}

-- A run whose channel, if it returns one, is not in state ERROR.
pub data Calm {A : Type 0} : Run (RdmaChCb × A) → Type 0 where
  calm_ok :
      {cb : RdmaChCb} {a : A} {w : World} → is_state cb.state error ≡ false → Calm (ok (cb, a) w)
  calm_fault : Calm fault
  calm_asleep : Calm asleep

and_then_any :
    {A B : Type 0} (r : Run B) {f : B → M (RdmaChCb × A)}
    → ((b : B) (w : World) → Calm (f b w))
    → Calm (and_then r f)
and_then_any (ok b w) h = h b w
and_then_any fault h = calm_fault
and_then_any asleep h = calm_asleep

and_then-Calm :
    {A B : Type 0} {r : Run (RdmaChCb × B)} {f : RdmaChCb × B → M (RdmaChCb × A)}
    → Calm r
    → ((out : RdmaChCb × B) (w : World) → is_state out.0.state error ≡ false → Calm (f out w))
    → Calm (and_then r f)
and_then-Calm (calm_ok c) h = h _ _ c
and_then-Calm calm_fault h = calm_fault
and_then-Calm calm_asleep h = calm_asleep

pub land-Calm :
    (cb : RdmaChCb) (c : Completion)
    → is_state cb.state error ≡ false
    → is_state (land cb c).state error ≡ false
unfolding land
land-Calm cb c calm = ground arith

module _ (order : ByteOrder) (v : Verbs) (invoke : Invoke) where
  dispatch_msg-Calm :
      (cb : RdmaChCb) (wc : Wc) (rpc_param param msg : ℕ) (w : World)
      → is_state cb.state error ≡ false
      → Calm (dispatch_msg order invoke cb wc rpc_param param msg w)
  unfolding dispatch_msg
  dispatch_msg-Calm cb wc rpc_param param msg w calm =
      and_then_any (or_fault (get_elem? cb.buf_ctxs wc.wr_id) w) λ mb w1.
        and_then_any (alive Kernel.memory mb.recv_buf w1) λ u w2.
          and_then_any
            (or_fault (handler_param order cb wc.wr_id mb.recv_msg rpc_param param msg) w2)
            λ p w3. and_then_any (invoke cb.rpc_msg_handler_cb p w3) λ u2 w4.
              calm_ok
                {cb = if leb (value cb.state) (value connected)
                  then record cb { state = working }
                  else cb}
                (ground arith)

  receive_msg-Calm :
      (cb : RdmaChCb) (wc : Wc) (w : World)
      → is_state cb.state error ≡ false
      → Calm (receive_msg order v invoke cb wc w)
  unfolding receive_msg
  receive_msg-Calm cb wc w calm = elim (Bool-cases (wc.byte_len == cb.msgbuf_size % 2 ^ 32)) [
    | inr e ↦ rw e (calm_ok calm)
    | inl e ↦ rw e (
        and_then_any (kzalloc v w) λ a w1. elim (Bool-cases (a == 0)) [
          | inl null_a ↦ rw null_a (calm_ok calm)
          | inr got_a ↦ rw got_a (
              and_then_any (kzalloc v w1) λ b w2. elim (Bool-cases (b == 0)) [
                | inl null_b ↦ rw null_b (and_then_any (kfree a w2) λ u w3. (calm_ok calm))
                | inr got_b ↦ rw got_b (
                    and_then_any (kzalloc v w2) λ c w3. elim (Bool-cases (c == 0)) [
                      | inl null_c ↦ rw null_c (
                          and_then_any (kfree b w3)
                            λ u w4. and_then_any (kfree a w4) λ u2 w5. (calm_ok calm))
                      | inr got_c ↦ rw got_c (dispatch_msg-Calm cb wc a b c w3 calm)
                    ])
              ])
        ])
  ]

  on_recv-Calm :
      (cb : RdmaChCb) (wc : Wc) (w : World)
      → is_state cb.state error ≡ false
      → Calm (on_recv order v invoke cb wc w)
  unfolding on_recv
  on_recv-Calm cb wc w calm = and_then-Calm (receive_msg-Calm cb wc w calm) λ (cb1, ret) w1 calm1.
      elim (Bool-cases (is_zero ret)) [
        | inr e ↦ rw e (calm_ok calm1)
        | inl e ↦ rw e (
            and_then_any (or_fault (get_elem? cb1.buf_ctxs wc.wr_id) w1) λ mb w2.
              and_then_any (alive Kernel.qp cb1.qp w2)
                λ u w3. and_then_any (post_recv v mb.rq_wr.wr_id w3) λ r w4. calm_ok calm1)
      ]

  on_opcode-Calm :
      (cb : RdmaChCb) (wc : Wc) (op : WcOpcode) (w : World)
      → is_state cb.state error ≡ false
      → Calm (on_opcode order v invoke cb wc op w)
  unfolding on_opcode
  on_opcode-Calm cb wc send w calm = calm_ok calm
  on_opcode-Calm cb wc rdma_write w calm = calm_ok calm
  on_opcode-Calm cb wc rdma_read w calm = calm_ok calm
  on_opcode-Calm cb wc recv w calm = on_recv-Calm cb wc w calm
  on_opcode-Calm cb wc unknown w calm = calm_ok calm

  pub on_completion-Calm :
      (cb : RdmaChCb) (wc : Wc) (status : WcStatus) (w : World)
      → is_state cb.state error ≡ false
      → Calm (on_completion order v invoke cb wc status w)
  unfolding on_completion
  on_completion-Calm cb wc success w calm = on_opcode-Calm cb wc wc.opcode w calm
  on_completion-Calm cb wc flush_err w calm = calm_ok calm
  on_completion-Calm cb wc failure w calm = calm_ok calm
